-- ===== src/Raasconn.antt =====
-- internal/raasconn/raasconn.go: the RaaS connection that a SaltKeyConfig resolves to. A read of
-- a Secret is a function of its namespace and name.
pub mod Resolution
use vcf_salt_operator.Prelude.{String, Bool, true, false, not, ◌&&◌, ◌||◌, List, [], ◌∷◌}
use vcf_salt_operator.Prelude.{str_eq, if◌then◌else◌}
use vcf_salt_operator.Prelude.Lists.{codes}
use vcf_salt_operator.Prelude.Dict.{Dict, get}
use vcf_salt_operator.Salt.Unicode.{Unicode, equal_fold}
use vcf_salt_operator.Kube.{SaltKeyConfig}
use vcf_salt_operator.Kube.Error.{
  Error, resolve_error, Result, ok, err, guard, ◌>>=◌, ◌>>◌, is_not_found,
}

abbrev pub key_url : String
key_url = "url"

abbrev pub key_master_id : String
key_master_id = "masterID"

abbrev pub key_username : String
key_username = "username"

abbrev pub key_password : String
key_password = "password"

abbrev pub key_skip_tls_verify : String
key_skip_tls_verify = "skipTLSVerify"

abbrev pub reason_secret_not_found : String
reason_secret_not_found = "SecretNotFound"

abbrev pub reason_secret_invalid : String
reason_secret_invalid = "SecretInvalid"

abbrev pub reason_get_secret_failed : String
reason_get_secret_failed = "GetSecretFailed"

abbrev pub reason_incomplete_spec : String
reason_incomplete_spec = "IncompleteSpec"

abbrev pub reason_default_not_set : String
reason_default_not_set = "DefaultConnectionNotConfigured"

abbrev pub reason_connection_mismatch : String
reason_connection_mismatch = "ConnectionMismatch"

-- `SourceNamespaceSecret` and `SourceDefaultConnection`
pub data Source : Type 0 where
  namespace_secret default_connection : Source

-- `Default`
pub record DefaultRef : Type 0 where
  pub namespace : String
  pub secret_name : String

pub record Connection : Type 0 where
  pub url : String
  pub master_id : String
  pub username : String
  pub password : String
  pub skip_tls_verify : Bool
  pub source : Source

abbrev pub is_set : String → Bool
is_set s = not (str_eq s "")

unfoldable pub configured : DefaultRef → Bool
configured d = is_set d.namespace && is_set d.secret_name

module _ (u : Unicode) (read : String → String → Result (Dict String)) where
  abbrev pub read_result : Result (Dict String) → Result (Dict String)
  read_result (ok secret) = ok secret
  read_result (err e) =
      err (
        resolve_error
          (if is_not_found e then reason_secret_not_found else reason_get_secret_failed))

  unfoldable pub read_secret : String → String → Result (Dict String)
  read_secret namespace name = read_result (read namespace name)

  -- The loop over the four required keys.
  abbrev pub all_present : List String → Dict String → Bool
  all_present [] secret = true
  all_present (k ∷ ks) secret = is_set (get k secret) && all_present ks secret

  unfoldable pub load : DefaultRef → Result Connection
  load d = do
    secret ← read_secret d.namespace d.secret_name
    guard (all_present (key_url ∷ key_master_id ∷ key_username ∷ key_password ∷ []) secret)
        (resolve_error reason_secret_invalid)
    ok record {
      url = get key_url secret;
      master_id = get key_master_id secret;
      username = get key_username secret;
      password = get key_password secret;
      skip_tls_verify = equal_fold u (codes (get key_skip_tls_verify secret)) (codes "true");
      source = default_connection;
    }

  unfoldable pub resolve_namespace_secret : SaltKeyConfig → Result Connection
  resolve_namespace_secret cfg = do
    guard (is_set cfg.spec.raas_url && is_set cfg.spec.master_id)
        (resolve_error reason_incomplete_spec)
    secret ← read_secret cfg.namespace cfg.spec.credentials_secret
    guard (is_set (get key_username secret) && is_set (get key_password secret))
        (resolve_error reason_secret_invalid)
    ok record {
      url = cfg.spec.raas_url;
      master_id = cfg.spec.master_id;
      username = get key_username secret;
      password = get key_password secret;
      skip_tls_verify = cfg.spec.skip_tls_verify;
      source = namespace_secret;
    }

  unfoldable pub resolve_default : SaltKeyConfig → DefaultRef → Result Connection
  resolve_default cfg d = do
    guard (configured d) (resolve_error reason_default_not_set)
    conn ← load d
    guard (not (is_set cfg.spec.raas_url && not (str_eq cfg.spec.raas_url conn.url)))
        (resolve_error reason_connection_mismatch)
    guard (not (is_set cfg.spec.master_id && not (str_eq cfg.spec.master_id conn.master_id)))
        (resolve_error reason_connection_mismatch)
    guard (not (cfg.spec.skip_tls_verify && not conn.skip_tls_verify))
        (resolve_error reason_connection_mismatch)
    ok conn

  unfoldable pub resolve : SaltKeyConfig → DefaultRef → Result Connection
  resolve cfg d =
      if is_set cfg.spec.credentials_secret
      then resolve_namespace_secret cfg
      else resolve_default cfg d
