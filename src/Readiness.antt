-- ===== src/Readiness.antt =====
-- internal/controller/saltkeyconfig_controller.go: the Ready condition of a SaltKeyConfig.
pub mod Ready
use vcf_salt_operator.Prelude.{String, Bool, true, false, not, ◌&&◌, ◌||◌, List, [], ◌∷◌}
use vcf_salt_operator.Prelude.{Option, none, some, str_eq, if◌then◌else◌}
use vcf_salt_operator.Prelude.Int.{ℤ, pos}
use vcf_salt_operator.Prelude.Lists.{contains}
use vcf_salt_operator.Prelude.Dict.{Dict}
use vcf_salt_operator.Salt.Unicode.{Unicode}
use vcf_salt_operator.Kube.{SaltKeyConfig, Condition}
use vcf_salt_operator.Kube.Error.{Error, resolve_error, context, Result, ok, err, is_not_found}
use vcf_salt_operator.Raasconn.{
  Connection, DefaultRef, resolve, is_set, reason_secret_not_found, reason_secret_invalid,
  reason_get_secret_failed, reason_connection_mismatch,
}

abbrev pub condition_ready : String
condition_ready = "Ready"

abbrev pub reason_ready : String
reason_ready = "Ready"

abbrev pub reason_invalid_duration : String
reason_invalid_duration = "InvalidDuration"

abbrev pub reason_invalid_selector : String
reason_invalid_selector = "InvalidSelector"

-- In nanoseconds.
abbrev pub secret_retry_interval : ℤ
secret_retry_interval = pos 30000000000

abbrev pub secret_reasons : List String
secret_reasons =
    reason_secret_not_found ∷ reason_secret_invalid ∷ reason_get_secret_failed
    ∷ reason_connection_mismatch ∷ []

-- The libraries that the validation uses, and the answers of the API server to one reconcile.
pub record Answers : Type 0 where
  pub unicode : Unicode
  pub parse_duration : String → Option ℤ
  pub compile_selector : String → Option (Dict String → Bool)
  pub set_status_condition : Condition → List Condition → List Condition
  pub get_error : Option Error
  pub read_secret : String → String → Result (Dict String)
  pub patch_error : Option Error

-- A reconcile ends with an error or a delay, and leaves the configuration.
pub record Left : Type 0 where
  pub error : Option Error
  pub requeue_after : ℤ
  pub config : SaltKeyConfig

abbrev pub is_some : {A : Type 0} → Option A → Bool
is_some none = false
is_some (some a) = true

-- `errors.As(err, &resolveErr)`
abbrev pub reason_of : Error → String
reason_of (resolve_error reason) = reason
reason_of (context text e) = reason_of e
reason_of _ = reason_get_secret_failed

module _ (a : Answers) where
  -- The loop over the durations.
  abbrev pub valid_durations : List String → Bool
  valid_durations [] = true
  valid_durations (d ∷ ds) = (not (is_set d) || is_some (a.parse_duration d)) && valid_durations ds

  abbrev pub valid_selector : Option String → Bool
  valid_selector none = true
  valid_selector (some s) = is_some (a.compile_selector s)

  abbrev pub condition : SaltKeyConfig → String → String → Condition
  condition cfg status reason = record {
    kind = condition_ready;
    status = status;
    reason = reason;
    observed_generation = cfg.generation;
  }

  abbrev pub of_resolution : SaltKeyConfig → Result Connection → Condition
  of_resolution cfg (ok conn) = condition cfg "True" reason_ready
  of_resolution cfg (err e) = condition cfg "False" (reason_of e)

  -- `validate`, without the messages.
  unfoldable pub validate : SaltKeyConfig → DefaultRef → Condition
  validate cfg d =
      if not (valid_durations (cfg.spec.accept_timeout ∷ cfg.spec.requeue_interval ∷ []))
      then condition cfg "False" reason_invalid_duration
      else if not (valid_selector cfg.spec.vm_selector)
      then condition cfg "False" reason_invalid_selector
      else of_resolution cfg (resolve a.unicode a.read_secret cfg d)

  abbrev pub with_condition : Condition → SaltKeyConfig → SaltKeyConfig
  with_condition c cfg = record cfg {
    conditions = a.set_status_condition c cfg.conditions;
    observed_generation = cfg.generation;
  }

  abbrev pub retry_after : Condition → ℤ
  retry_after c =
      if str_eq c.status "True"
      then pos 0
      else if contains secret_reasons c.reason
      then secret_retry_interval
      else pos 0

  -- The end of a reconcile, under the answer to the patch of the status.
  abbrev pub patched : Option Error → Condition → SaltKeyConfig → Left
  patched none c cfg = record {
    error = none;
    requeue_after = retry_after c;
    config = with_condition c cfg;
  }
  patched (some e) c cfg = record { error = some e; requeue_after = pos 0; config = cfg }

  abbrev pub found : Option Error → SaltKeyConfig → DefaultRef → Left
  found none cfg d = patched a.patch_error (validate cfg d) cfg
  found (some e) cfg d = record {
    error = if is_not_found e then none else some e;
    requeue_after = pos 0;
    config = cfg;
  }

  unfoldable pub reconcile : SaltKeyConfig → DefaultRef → Left
  reconcile cfg d = found a.get_error cfg d
