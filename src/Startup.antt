-- ===== src/Startup.antt =====
-- cmd/main.go: the start of the operator, from its flags to the controllers that it runs.
pub mod Options
pub mod Exclusion
pub mod Tasks
use vcf_salt_operator.Prelude.{
  ℕ, String, ◌<>◌, Bool, true, false, not, ◌&&◌, ◌||◌, List, [], ◌∷◌, ◌++◌, Option, none, some,
  str_eq, if◌then◌else◌,
}
use vcf_salt_operator.Prelude.Dict.{Dict}
use vcf_salt_operator.CommaList.{split_list, join_list}
use vcf_salt_operator.Kube.{key_acceptance_discovery, key_acceptance_preseed}
use vcf_salt_operator.Kube.Error.{Error, Result, ok, err}
use vcf_salt_operator.Salt.Unicode.{Unicode}
use vcf_salt_operator.Raasconn.{DefaultRef, Connection, configured, load}
use vcf_salt_operator.Startup.Options.{
  ServerFlags, ManagerOptions, default_server_flags, manager_options,
}
use vcf_salt_operator.Enrolment.{Enrolment, Selector, enabled, default_enrolment_exclude_prefixes}

-- The flags that the start decides on.
pub record Flags : Type 0 where
  pub default_connection : DefaultRef
  pub enrol_namespaces : String
  pub enrol_selector : String
  pub enrol_all : Bool
  pub enrol_exclude : String
  pub enrol_key_acceptance : String
  pub max_concurrent_reconciles : ℕ
  pub servers : ServerFlags

-- A start without flags, in the namespace that `POD_NAMESPACE` names.
abbrev pub default_flags : String → Flags
default_flags pod_namespace = record {
  default_connection = record { namespace = pod_namespace; secret_name = "" };
  enrol_namespaces = "";
  enrol_selector = "";
  enrol_all = false;
  enrol_exclude = join_list default_enrolment_exclude_prefixes;
  enrol_key_acceptance = key_acceptance_discovery;
  max_concurrent_reconciles = 5;
  servers = default_server_flags;
}

-- The libraries: a selector's parser, `strings.TrimSpace`, and the answers of the manager.
pub record Platform : Type 0 where
  pub parse_selector : String → Result Selector
  pub trim_space : String → String
  pub new_manager : ManagerOptions → Option Error
  pub unicode : Unicode
  pub read_secret : String → String → Result (Dict String)
  pub add_config_controller : Option Error
  pub add_vm_controller : Option Error
  pub add_enrolment_controller : Option Error
  pub add_release : Option Error
  pub add_healthz_check : Option Error
  pub add_readyz_check : Option Error
  pub start_manager : Option Error

-- What a start notes of the default connection: that none is set, or why it cannot be used yet, or
-- what it is.
pub data Note : Type 0 where
  unset : Note
  unusable : String → String → Error → Note
  usable : String → String → Connection → Note

-- What a start asks of the manager, and its note.
pub data Action : Type 0 where
  config_controller : DefaultRef → Action
  vm_controller : ℕ → DefaultRef → Action
  enrolment_controller : Enrolment → Action
  release_task healthz_check readyz_check : Action
  noted : Note → Action

-- The actions that the manager accepted, and whether the start came to the end of `main`.
pub record Started : Type 0 where
  pub actions : List Action
  pub finished : Bool

abbrev pub exited : Started
exited = record { actions = []; finished = false }

-- `if err != nil { os.Exit(1) }`, before the rest of the start.
abbrev pub or_exit : Option Error → Started → Started
or_exit none rest = rest
or_exit (some e) rest = exited

-- The same for a call that does something.
abbrev pub done_or_exit : Option Error → Action → Started → Started
done_or_exit none a rest = record rest { actions = a ∷ rest.actions }
done_or_exit (some e) a rest = exited

module _ (p : Platform) where
  unfoldable pub enrolment_of : Flags → Option Selector → Enrolment
  enrolment_of f selector = record {
    namespaces = split_list p.trim_space f.enrol_namespaces;
    all = f.enrol_all;
    selector = selector;
    exclude_prefixes =
        split_list p.trim_space f.enrol_exclude ++ (f.default_connection.namespace ∷ []);
    key_acceptance = f.enrol_key_acceptance;
  }

  -- An empty flag is no selector.
  abbrev pub selector_of : String → Result (Option Selector)
  selector_of text = if str_eq text "" then ok none else parsed (p.parse_selector text)
    where
      parsed : Result Selector → Result (Option Selector)
      parsed (ok s) = ok (some s)
      parsed (err e) = err e

  -- `logDefaultConnection`
  abbrev pub loaded_note : DefaultRef → Result Connection → Note
  loaded_note d (ok conn) = usable d.namespace d.secret_name conn
  loaded_note d (err e) = unusable d.namespace d.secret_name e

  unfoldable pub log_default_connection : DefaultRef → Note
  log_default_connection d =
      if not (configured d) then unset else loaded_note d (load p.unicode p.read_secret d)

  -- The health checks, the note, and `mgr.Start`.
  abbrev pub serving : DefaultRef → Started
  serving d = done_or_exit p.add_healthz_check healthz_check (
      done_or_exit p.add_readyz_check readyz_check (
        done_or_exit none (noted (log_default_connection d))
          (or_exit p.start_manager (record { actions = []; finished = true }))))

  abbrev pub with_enrolment : DefaultRef → Enrolment → Started
  with_enrolment d e =
      if enabled e
      then done_or_exit p.add_enrolment_controller (enrolment_controller e) (serving d)
      else done_or_exit p.add_release release_task (serving d)

  abbrev pub with_selector : Flags → Result (Option Selector) → Started
  with_selector f (ok selector) = with_enrolment f.default_connection (enrolment_of f selector)
  with_selector f (err e) = exited

  unfoldable pub key_acceptance_valid : String → Bool
  key_acceptance_valid a = str_eq a key_acceptance_discovery || str_eq a key_acceptance_preseed

  abbrev pub enrolling : Flags → Started
  enrolling f =
      if key_acceptance_valid f.enrol_key_acceptance
      then with_selector f (selector_of f.enrol_selector)
      else exited

  -- `main`
  unfoldable pub start : Flags → Started
  start f = or_exit (p.new_manager (manager_options f.servers)) (
      done_or_exit p.add_config_controller (config_controller f.default_connection) (
        done_or_exit p.add_vm_controller
          (vm_controller f.max_concurrent_reconciles f.default_connection) (enrolling f)))
