-- ===== src/Controller/Delete.antt =====
-- virtualmachine_controller.go, `reconcileDelete` and `removeSaltFinalizer`.
pub mod Release
use vcf_salt_operator.Prelude.{String, Bool, true, false, [], ◌∷◌, Option, none, some}
use vcf_salt_operator.Prelude.{str_eq, if◌then◌else◌}
use vcf_salt_operator.Prelude.Lists.{contains}
use vcf_salt_operator.Prelude.Dict.{get}
use vcf_salt_operator.Kube.{SaltKeyConfig}
use vcf_salt_operator.Kube.Error.{Error, is_not_found}
use vcf_salt_operator.Raasconn.{Connection, DefaultRef}
use vcf_salt_operator.Controller.Names.{
  annotation_key_status, annotation_minion_id, key_status_deleted, salt_finalizer,
}
use vcf_salt_operator.Controller.World.{Env, EventType, normal, warning, key_deleted}
use vcf_salt_operator.Controller.Run.{
  M, with_option, ◌>>=◌, ◌>>◌, throw, ask, ask_noting, attempt, try_write, noted, current_vm,
  Reconciled, finished, record_event, without_finalizer, patch_annotations,
}
use vcf_salt_operator.Controller.Cache.{salt_client_from_config}

-- `return ctrl.Result{}, client.IgnoreNotFound(err)`
abbrev pub ignore_not_found : Error → M Reconciled
ignore_not_found e = if is_not_found e then finished else throw e

abbrev pub deletion_status : Bool → String
deletion_status ok = if ok then key_status_deleted else "DeleteFailed"

abbrev pub deletion_kind : Bool → EventType
deletion_kind ok = if ok then normal else warning

abbrev pub deletion_reason : Bool → String
deletion_reason ok = if ok then "SaltKeyDeleted" else "SaltKeyDeleteFailed"

abbrev pub is_none : Option Error → Bool
is_none none = true
is_none (some _) = false

module _ (env : Env) where
  -- The finalizer is removed from the machine as it was read.
  unfoldable pub drop_finalizer : M Reconciled
  drop_finalizer = do
    latest ← current_vm
    if contains latest.finalizers salt_finalizer
        then (do
          refused ← try_write env (without_finalizer env)
          with_option refused finished ignore_not_found)
        else finished

  unfoldable pub remove_salt_finalizer : M Reconciled
  remove_salt_finalizer = do
    missing ← ask env.get_error
    with_option missing drop_finalizer ignore_not_found

  unfoldable pub delete_key : Connection → String → M Bool
  delete_key c minion_id =
      ask_noting (λ t. is_none (env.delete_key_error t c minion_id))
        (λ gone. noted (key_deleted minion_id gone))

  -- The key is deleted if that succeeds; in any case the finalizer goes.
  unfoldable pub delete_and_release : Connection → String → M Reconciled
  delete_and_release c minion_id = do
    gone ← delete_key c minion_id
    ignored ← attempt (patch_annotations env ((annotation_key_status, deletion_status gone) ∷ []))
    record_event (deletion_kind gone) (deletion_reason gone)
    remove_salt_finalizer

  unfoldable pub reconcile_delete : SaltKeyConfig → DefaultRef → M Reconciled
  reconcile_delete cfg d = do
    vm ← current_vm
    let minion_id = get annotation_minion_id vm.annotations
    if str_eq minion_id ""
        then finished
        else if str_eq (get annotation_key_status vm.annotations) key_status_deleted
        then remove_salt_finalizer
        else (do
          client ← attempt (salt_client_from_config env cfg d)
          with_option client finished (λ c. delete_and_release c minion_id))
