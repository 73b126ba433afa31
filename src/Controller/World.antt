-- ===== src/Controller/World.antt =====
-- What a reconcile of a VirtualMachine runs in: the state that it changes, the trace of its calls,
-- and the answers of everything outside (the API server, the Salt API, the clock).
use vcf_salt_operator.Prelude.{ℕ, String, Bool, List, Option}
use vcf_salt_operator.Prelude.Int.{ℤ}
use vcf_salt_operator.Prelude.Dict.{Dict}
use vcf_salt_operator.Salt.Unicode.{Unicode}
use vcf_salt_operator.Salt.Client.{KeyPair}
use vcf_salt_operator.Kube.{Vm, SaltKeyConfig, Condition}
use vcf_salt_operator.Kube.Error.{Error, Result}
use vcf_salt_operator.Raasconn.{Connection}

pub data EventType : Type 0 where
  normal warning : EventType

-- `salt.JIDResult`, with the identifiers of its failed states.
pub record JidResult : Type 0 where
  pub retcode : ℤ
  pub success : Bool
  pub failed_state_ids : List String

-- The data of the Secret that a virtual machine boots from.
pub record Bootstrap : Type 0 where
  pub minion_pem : String
  pub minion_pub : String
  pub minion_master_pub : String
  pub minion_id : String

-- The calls that change something outside or ask the master to, newest first in a trace. A call
-- that answers yes or no stands with its answer.
pub data Effect : Type 0 where
  patched : Dict String → Effect
  finalizer_added finalizer_removed : Effect
  event : EventType → String → Effect
  logged_in : Effect
  key_accepted : String → Effect
  key_deleted : String → Bool → Effect
  key_generated : String → Bool → Effect
  pinged : String → Bool → Effect
  pillar_refreshed : String → Bool → Effect
  highstate_dispatched : String → Effect
  secret_written : String → Effect
  secret_cleared : String → Effect

pub record CacheEntry : Type 0 where
  pub namespace : String
  pub name : String
  pub client : Connection
  pub config_rv : String
  pub expires_at : ℕ

-- The state: the virtual machine and its bootstrap Secret at the API server, and the
-- reconciler's cache of clients. `tick` counts the calls made, `trace` lists their effects.
pub record World : Type 0 where
  pub vm : Vm
  pub secret : Option Bootstrap
  pub cache : List CacheEntry
  pub tick : ℕ
  pub trace : List Effect

-- The outside. Each answer depends on the number of calls made before it, so that it may differ
-- from call to call. A client of the Salt API is the connection that it was built for.
pub record Env : Type 0 where
  -- Go's standard library and the Kubernetes libraries.
  pub unicode : Unicode
  pub parse_time : String → Option ℕ
  pub format_time : ℕ → String
  pub parse_duration : String → Option ℤ
  pub itoa : ℕ → String
  pub sha256_hex8 : String → String
  pub sha256_u64 : String → ℕ
  pub compile_selector : String → Option (Dict String → Bool)
  pub is_status_condition_true : List Condition → String → Bool
  -- The clock, in nanoseconds.
  pub now : ℕ → ℕ
  -- The API server. A call that has no other answer gives
  -- the error of its failure, if any; a read of the virtual machine gives the state's.
  pub get_error : ℕ → Option Error
  pub list_vms : ℕ → Result (List Vm)
  pub list_configs : ℕ → String → Result (List SaltKeyConfig)
  pub read_secret : ℕ → String → String → Result (Dict String)
  pub write_error : ℕ → Option Error
  -- The Salt API.
  pub login_error : ℕ → Connection → Option Error
  pub list_pending_keys : ℕ → Connection → Result (List String)
  pub accept_key_error : ℕ → Connection → String → Option Error
  pub delete_key_error : ℕ → Connection → String → Option Error
  pub key_states : ℕ → Connection → String → Result (List String)
  pub gen_accept_key : ℕ → Connection → String → Bool → Result (Option KeyPair)
  pub master_public_key : ℕ → Connection → Result String
  pub master_last_seen : ℕ → Connection → Result String
  pub test_ping : ℕ → Connection → String → Result Bool
  pub refresh_pillar : ℕ → Connection → String → Result Bool
  pub dispatch_highstate : ℕ → Connection → String → Result String
  pub poll_jid : ℕ → Connection → String → String → Result (Option JidResult)
