-- ===== src/Enrolment.antt =====
-- internal/controller/enrolment_controller.go: the SaltKeyConfig that the operator creates in an
-- enrolled namespace. The state is the list of the namespace's configurations, whose names differ.
pub mod Settles
pub mod Rounds
use vcf_salt_operator.Prelude.{
  ℕ, suc, String, Bool, true, false, not, ◌&&◌, ◌||◌, List, [], ◌∷◌, ◌++◌, map,
}
use vcf_salt_operator.Prelude.{Option, none, some, str_eq, ltb, ◌==◌, if◌then◌else◌}
use vcf_salt_operator.Prelude.Lists.{any, contains, filter, length}
use vcf_salt_operator.Prelude.Dict.{Dict, get}
use vcf_salt_operator.Kube.{SaltKeyConfig, Spec}
use vcf_salt_operator.Kube.Error.{Error, Result, ok, err, is_not_found, is_already_exists}
use vcf_salt_operator.Controller.Names.{enrolled_config_name, label_managed_by, managed_by_operator}
use vcf_salt_operator.Controller.Reconcile.{is_enrolled}
use text.Mathlib.Text.{starts_with}

abbrev pub default_enrolment_exclude_prefixes : List String
default_enrolment_exclude_prefixes =
    "kube-" ∷ "vmware-system-" ∷ "svc-" ∷ "tkg-system" ∷ "kapp-controller" ∷ []

-- A `labels.Selector`: whether it is empty, and what it matches.
pub record Selector : Type 0 where
  pub empty : Bool
  pub matches : Dict String → Bool

pub record Enrolment : Type 0 where
  pub namespaces : List String
  pub all : Bool
  pub selector : Option Selector
  pub exclude_prefixes : List String
  pub key_acceptance : String

pub record Namespace : Type 0 where
  pub name : String
  pub labels : Dict String
  pub deleting : Bool

-- `e.Selector != nil && !e.Selector.Empty()`
abbrev pub selects_some : Option Selector → Bool
selects_some none = false
selects_some (some s) = not s.empty

abbrev pub selects : Option Selector → Dict String → Bool
selects none labels = false
selects (some s) labels = not s.empty && s.matches labels

unfoldable pub enabled : Enrolment → Bool
enabled e = ltb 0 (length e.namespaces) || (e.all || selects_some e.selector)

abbrev pub excluded : List String → String → Bool
excluded prefixes name = any (λ p. not (str_eq p "") && starts_with name p) prefixes

unfoldable pub matches : Enrolment → Namespace → Bool
matches e ns =
    if excluded e.exclude_prefixes ns.name
    then false
    else if contains e.namespaces ns.name || e.all
    then true
    else selects e.selector ns.labels

-- The answers of the API server to one reconcile, which makes at most one write.
pub record Answers : Type 0 where
  pub get_error : Option Error
  pub list_error : Option Error
  pub write_error : Option Error

-- A reconcile ends with an error or none, and leaves the configurations of the namespace.
pub record Left : Type 0 where
  pub error : Option Error
  pub configs : List SaltKeyConfig

-- The last configuration that the operator made.
abbrev pub own_from : Option SaltKeyConfig → List SaltKeyConfig → Option SaltKeyConfig
own_from found [] = found
own_from found (cfg ∷ cfgs) = own_from (if is_enrolled cfg then some cfg else found) cfgs

unfoldable pub own_config : List SaltKeyConfig → Option SaltKeyConfig
own_config cfgs = own_from none cfgs

abbrev pub empty_spec : Spec
empty_spec = record {
  raas_url = "";
  credentials_secret = "";
  key_acceptance = "";
  accept_timeout = "";
  requeue_interval = "";
  master_id = "";
  skip_tls_verify = false;
  vm_selector = none;
  retry_token = "";
  enforcement_interval = "";
}

-- The configuration that enrols a namespace, as the source fills it in.
unfoldable pub enrolled_config : Enrolment → Namespace → SaltKeyConfig
enrolled_config e ns = record {
  name = enrolled_config_name;
  namespace = ns.name;
  resource_version = "";
  generation = 0;
  labels = (label_managed_by, managed_by_operator) ∷ [];
  spec = record empty_spec { key_acceptance = e.key_acceptance };
  conditions = [];
  observed_generation = 0;
}

abbrev pub without : String → List SaltKeyConfig → List SaltKeyConfig
without name cfgs = filter (λ cfg. not (str_eq cfg.name name)) cfgs

abbrev pub with_acceptance : String → String → SaltKeyConfig → SaltKeyConfig
with_acceptance name acceptance cfg =
    if str_eq cfg.name name
    then record cfg { spec = record cfg.spec { key_acceptance = acceptance } }
    else cfg

abbrev pub refused : Error → List SaltKeyConfig → Left
refused e cfgs = record { error = some e; configs = cfgs }

abbrev pub left : List SaltKeyConfig → Left
left cfgs = record { error = none; configs = cfgs }

-- `r.Delete`, where a configuration that is gone is no error.
abbrev pub delete_config : Option Error → SaltKeyConfig → List SaltKeyConfig → Left
delete_config none own cfgs = left (without own.name cfgs)
delete_config (some e) own cfgs = if is_not_found e then left cfgs else refused e cfgs

abbrev pub patch_acceptance : Option Error → String → SaltKeyConfig → List SaltKeyConfig → Left
patch_acceptance none acceptance own cfgs = left (map (with_acceptance own.name acceptance) cfgs)
patch_acceptance (some e) acceptance own cfgs = refused e cfgs

-- `r.Create`, where a configuration of the name is no error.
abbrev pub create_config : Option Error → SaltKeyConfig → List SaltKeyConfig → Left
create_config none cfg cfgs = left (cfg ∷ cfgs)
create_config (some e) cfg cfgs = if is_already_exists e then left cfgs else refused e cfgs

module _ (a : Answers) (e : Enrolment) where
  -- A namespace that is not enrolled.
  abbrev pub leave : Option SaltKeyConfig → List SaltKeyConfig → Left
  leave none cfgs = left cfgs
  leave (some own) cfgs = delete_config a.write_error own cfgs

  -- An enrolled namespace that has the operator's configuration, or none of it.
  abbrev pub keep : Namespace → Option SaltKeyConfig → List SaltKeyConfig → Left
  keep ns (some own) cfgs =
      if ltb 1 (length cfgs)
      then delete_config a.write_error own cfgs
      else if not (str_eq e.key_acceptance "")
          && not (str_eq own.spec.key_acceptance e.key_acceptance)
      then patch_acceptance a.write_error e.key_acceptance own cfgs
      else left cfgs
  keep ns none cfgs =
      if ltb 0 (length cfgs)
      then left cfgs
      else create_config a.write_error (enrolled_config e ns) cfgs

  abbrev pub settle : Option Error → Namespace → List SaltKeyConfig → Left
  settle (some x) ns cfgs = refused x cfgs
  settle none ns cfgs =
      if matches e ns then keep ns (own_config cfgs) cfgs else leave (own_config cfgs) cfgs

  abbrev pub found : Option Error → Namespace → List SaltKeyConfig → Left
  found (some x) ns cfgs = if is_not_found x then left cfgs else refused x cfgs
  found none ns cfgs = if ns.deleting then left cfgs else settle a.list_error ns cfgs

  -- `Reconcile`
  unfoldable pub reconcile : Namespace → List SaltKeyConfig → Left
  reconcile ns cfgs = found a.get_error ns cfgs

-- What `ReleaseEnrolled` gives: the number of the deleted, the error that stopped it, and the
-- configurations that are left.
pub record Released : Type 0 where
  pub deleted : ℕ
  pub error : Option Error
  pub configs : List SaltKeyConfig

module _ (delete_error : SaltKeyConfig → Option Error) where
  abbrev pub keep_user : SaltKeyConfig → Released → Released
  keep_user cfg r = record r { configs = cfg ∷ r.configs }

  -- The answer to the deletion of the first configuration, and the release of the others.
  abbrev pub release_one : Option Error → SaltKeyConfig → List SaltKeyConfig → Released → Released
  release_one none cfg cfgs rest = record rest { deleted = suc rest.deleted }
  release_one (some x) cfg cfgs rest =
      if is_not_found x then rest else record { deleted = 0; error = some x; configs = cfg ∷ cfgs }

  -- The loop of `ReleaseEnrolled` over all configurations, of which the list has those with the
  -- operator's label.
  unfoldable pub release_each : List SaltKeyConfig → Released
  release_each [] = record { deleted = 0; error = none; configs = [] }
  release_each (cfg ∷ cfgs) =
      let rest = release_each cfgs in
      if is_enrolled cfg then release_one (delete_error cfg) cfg cfgs rest else keep_user cfg rest

  -- `ReleaseEnrolled`
  unfoldable pub release_enrolled : Option Error → List SaltKeyConfig → Released
  release_enrolled none cfgs = release_each cfgs
  release_enrolled (some x) cfgs = record { deleted = 0; error = some x; configs = cfgs }
