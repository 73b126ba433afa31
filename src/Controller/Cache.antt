-- ===== src/Controller/Cache.antt =====
-- virtualmachine_controller.go, `saltClientCache` and `saltClientFromConfig`.
pub mod Freshness
use vcf_salt_operator.Prelude.{ℕ, ◌+◌, String, Bool, true, false, not, ◌&&◌, ◌||◌, List, [], ◌∷◌}
use vcf_salt_operator.Prelude.{Option, none, some, ltb, str_eq, if◌then◌else◌}
use vcf_salt_operator.Prelude.Lists.{filter, find?}
use vcf_salt_operator.Kube.{SaltKeyConfig}
use vcf_salt_operator.Raasconn.{Connection, DefaultRef, resolve}
use vcf_salt_operator.Controller.Names.{salt_client_cache_ttl}
use vcf_salt_operator.Controller.World.{World, Env, CacheEntry, logged_in}
use vcf_salt_operator.Controller.Run.{
  M, note, on_cache, with_result, with_option, ◌>>=◌, ◌>>◌, return, ask, of_result, of_error,
  wrapped_error, noted, time_now,
}

abbrev pub is_for : String → String → CacheEntry → Bool
is_for namespace name e = str_eq e.namespace namespace && str_eq e.name name

-- `delete(c.entries, key)`
abbrev pub drop_entry : String → String → List CacheEntry → List CacheEntry
drop_entry namespace name = filter (λ e. not (is_for namespace name e))

-- `get`: the client, if it may be used, and the entries that stay.
abbrev pub checked :
    String
    → ℕ
    → Option CacheEntry
    → List CacheEntry
    → List CacheEntry
    → Option Connection × List CacheEntry
checked config_rv now none kept dropped = (none, kept)
checked config_rv now (some e) kept dropped =
    if not (str_eq e.config_rv config_rv) || ltb e.expires_at now
    then (none, dropped)
    else (some e.client, kept)

unfoldable pub cache_get :
    String → String → String → ℕ → List CacheEntry → Option Connection × List CacheEntry
cache_get namespace name config_rv now entries =
    checked config_rv now (find? (is_for namespace name) entries) entries
      (drop_entry namespace name entries)

-- `set`
unfoldable pub cache_set :
    String → String → String → Connection → ℕ → List CacheEntry → List CacheEntry
cache_set namespace name config_rv client now entries =
    record {
      namespace = namespace;
      name = name;
      client = client;
      config_rv = config_rv;
      expires_at = now + salt_client_cache_ttl;
    }
    ∷ drop_entry namespace name entries

module _ (env : Env) where
  -- `r.getCache().get`
  unfoldable pub cached_client : SaltKeyConfig → M (Option Connection)
  cached_client cfg = do
    now ← time_now env
    on_cache (cache_get cfg.namespace cfg.name cfg.resource_version now)

  unfoldable pub store_client : SaltKeyConfig → Connection → M (Unit {0})
  store_client cfg client = do
    now ← time_now env
    on_cache
        (λ entries. (tt, cache_set cfg.namespace cfg.name cfg.resource_version client now entries))

  -- A new client: the connection is resolved, and logs in.
  unfoldable pub new_client : SaltKeyConfig → DefaultRef → M Connection
  new_client cfg d = do
    resolved ← ask (λ t. resolve env.unicode (env.read_secret t) cfg d)
    conn ← of_result resolved
    login ← ask (λ t. env.login_error t conn)
    of_error (wrapped_error "salt login" login)
    note logged_in
    return conn

  abbrev pub fresh_client : SaltKeyConfig → DefaultRef → M Connection
  fresh_client cfg d = do conn ← new_client cfg d; store_client cfg conn; return conn

  unfoldable pub salt_client_from_config : SaltKeyConfig → DefaultRef → M Connection
  salt_client_from_config cfg d = do
    cached ← cached_client cfg
    with_option cached (fresh_client cfg d) (λ conn. return conn)
