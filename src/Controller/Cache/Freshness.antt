-- ===== src/Controller/Cache/Freshness.antt =====
-- What the cache of clients gives back.
use vcf_salt_operator.Prelude.{ℕ, ◌+◌, String, false, not, ◌&&◌, ◌≡◌, refl, arith, List, [], ◌∷◌}
use vcf_salt_operator.Prelude.{none, some, ltb, str_eq, eq_iff, if◌then◌else◌, Bool-cases, inl, inr}
use vcf_salt_operator.Prelude.Lists.{find?}
use vcf_salt_operator.Raasconn.{Connection}
use vcf_salt_operator.Controller.Names.{salt_client_cache_ttl}
use vcf_salt_operator.Controller.World.{CacheEntry}
use vcf_salt_operator.Controller.Cache.{cache_get, cache_set, is_for, drop_entry}

-- An entry for another key is found where another key is dropped.
find-drop_entry :
    (ns name ns' name' : String) (es : List CacheEntry)
    → (str_eq ns' ns && str_eq name' name) ≡ false
    → find? (is_for ns name) (drop_entry ns' name' es) ≡ find? (is_for ns name) es
find-drop_entry ns name ns' name' [] h = refl
find-drop_entry ns name ns' name' (e ∷ es) h = ground (
  arith,
  find-drop_entry ns name ns' name' es,
  eq_iff e.namespace ns',
  eq_iff e.name name',
  eq_iff e.namespace ns,
  eq_iff e.name name,
)

-- A client that was stored under a configuration is given back for that configuration only while
-- its resource version is the same and 20 minutes have not passed; what is stored under another
-- configuration changes no answer.
pub cache_get-cache_set :
    (ns name rv : String) (c : Connection) (stored : ℕ) (es : List CacheEntry)
    (ns' name' rv' : String) (now : ℕ)
    → (cache_get ns' name' rv' now (cache_set ns name rv c stored es)).0 ≡ (
        if str_eq ns ns' && str_eq name name'
        then (if str_eq rv rv' && not (ltb (stored + salt_client_cache_ttl) now)
            then some c
            else none)
        else (cache_get ns' name' rv' now es).0)
unfolding cache_get cache_set
cache_get-cache_set ns name rv c stored es ns' name' rv' now =
    elim (Bool-cases (str_eq ns ns' && str_eq name name')) [
      | inl same ↦ rw same (ground arith)
      | inr differs ↦ rw differs (rw (find-drop_entry ns' name' ns name es differs) (ground arith))
    ]
