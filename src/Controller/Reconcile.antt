-- ===== src/Controller/Reconcile.antt =====
-- virtualmachine_controller.go, `Reconcile`, `findSaltKeyConfig`, `matchesVMSelector` and
-- `saltKeyConfigToVMs`: which machines are reconciled, and under which configuration.
pub mod Choice
use vcf_salt_operator.Prelude.{String, Bool, true, false, not, ◌&&◌, List, [], ◌∷◌}
use vcf_salt_operator.Prelude.{Option, none, some, str_eq, if◌then◌else◌}
use vcf_salt_operator.Prelude.Dict.{Dict, get}
use vcf_salt_operator.Kube.{Vm, SaltKeyConfig}
use vcf_salt_operator.Kube.Error.{Result, ok, err}
use vcf_salt_operator.Raasconn.{DefaultRef}
use vcf_salt_operator.Controller.Names.{
  annotation_managed, annotation_true, label_managed_by, managed_by_operator,
}
use vcf_salt_operator.Controller.World.{Env}
use vcf_salt_operator.Controller.Run.{
  M, with_option, ◌>>=◌, return, ask, of_result, current_vm, Reconciled, finished,
}
use vcf_salt_operator.Controller.Create.{reconcile_create}
use vcf_salt_operator.Controller.Delete.{reconcile_delete, ignore_not_found}

abbrev pub is_managed : Vm → Bool
is_managed vm = str_eq (get annotation_managed vm.annotations) annotation_true

abbrev pub is_enrolled : SaltKeyConfig → Bool
is_enrolled cfg = str_eq (get label_managed_by cfg.labels) managed_by_operator

module _ (env : Env) where
  -- `SaltKeyConfig.IsReady`
  abbrev pub is_ready : SaltKeyConfig → Bool
  is_ready cfg = env.is_status_condition_true cfg.conditions "Ready"

  abbrev pub first_some : Option SaltKeyConfig → SaltKeyConfig → Option SaltKeyConfig
  first_some none cfg = some cfg
  first_some (some e) cfg = some e

  -- The loop of `findSaltKeyConfig`, with the enrolled one found so far.
  unfoldable pub choose_config : Option SaltKeyConfig → List SaltKeyConfig → Option SaltKeyConfig
  choose_config enrolled [] = enrolled
  choose_config enrolled (cfg ∷ cfgs) =
      let rest = choose_config (if is_ready cfg then first_some enrolled cfg else enrolled) cfgs in
      if is_ready cfg && not (is_enrolled cfg) then some cfg else rest

  unfoldable pub find_salt_key_config : String → M (Option SaltKeyConfig)
  find_salt_key_config namespace = do
    listed ← ask (λ t. env.list_configs t namespace)
    configs ← of_result listed
    return (choose_config none configs)

  abbrev pub selects : Option (Dict String → Bool) → Vm → Bool
  selects none vm = false
  selects (some matches) vm = matches vm.labels

  abbrev pub matches_selector : Option String → Vm → Bool
  matches_selector none vm = true
  matches_selector (some selector) vm = selects (env.compile_selector selector) vm

  unfoldable pub matches_vm_selector : SaltKeyConfig → Vm → Bool
  matches_vm_selector cfg vm = matches_selector cfg.spec.vm_selector vm

  -- Behind the choice of the configuration.
  unfoldable pub reconcile_under : DefaultRef → SaltKeyConfig → M Reconciled
  reconcile_under d cfg = do
    vm ← current_vm
    if vm.deleting
        then reconcile_delete env cfg d
        else if matches_vm_selector cfg vm
        then reconcile_create env d cfg
        else finished

  unfoldable pub reconcile_managed : DefaultRef → M Reconciled
  reconcile_managed d = do
    vm ← current_vm
    config ← find_salt_key_config vm.namespace
    with_option config (finished) (λ cfg. reconcile_under d cfg)

  unfoldable pub reconcile : DefaultRef → M Reconciled
  reconcile d = do
    missing ← ask env.get_error
    with_option missing
        (do vm ← current_vm; if is_managed vm then reconcile_managed d else finished)
        ignore_not_found

-- `saltKeyConfigToVMs`: the names of the machines to reconcile after a change of a configuration;
-- none if they cannot be listed.
pub managed_names : List Vm → List (String × String)
managed_names [] = []
managed_names (vm ∷ vms) =
    let rest = managed_names vms in if is_managed vm then (vm.namespace, vm.name) ∷ rest else rest

abbrev pub listed_names : Result (List Vm) → List (String × String)
listed_names (ok vms) = managed_names vms
listed_names (err e) = []
