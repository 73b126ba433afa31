-- ===== src/Controller/Create.antt =====
-- virtualmachine_controller.go, `reconcileCreate`: a machine that is not being deleted.
use vcf_salt_operator.Prelude.{String, Bool, not, ◌&&◌, ◌||◌, [], ◌∷◌}
use vcf_salt_operator.Prelude.{str_eq, if◌then◌else◌}
use vcf_salt_operator.Prelude.Int.{ℤ}
use vcf_salt_operator.Prelude.Dict.{get}
use vcf_salt_operator.Kube.{Vm, SaltKeyConfig, key_acceptance_preseed}
use vcf_salt_operator.Raasconn.{DefaultRef}
use vcf_salt_operator.Controller.Names.{
  annotation_key_status, annotation_minion_id, annotation_match_method, key_status_accepted,
  key_status_failed, key_status_preseeded, match_method_preseed, default_requeue_interval,
  default_accept_timeout,
}
use vcf_salt_operator.Controller.World.{Env, warning}
use vcf_salt_operator.Controller.Run.{
  M, ◌>>=◌, ◌>>◌, return, current_vm, Reconciled, finished, requeue, record_event,
  patch_annotations, add_finalizer,
}
use vcf_salt_operator.Controller.Cache.{salt_client_from_config}
use vcf_salt_operator.Controller.Enforcement.{parse_duration_or_default}
use vcf_salt_operator.Controller.Preseed.{
  guest_signalled, since_vsphere_create, clear_preseed_key, run_preseed_key, mark_preseed_accepted,
}
use vcf_salt_operator.Controller.Accept.{past, run_accept_key}
use vcf_salt_operator.Controller.Reconvergence.{reconcile_post_accept}

abbrev pub has_status : String → Vm → Bool
has_status status vm = str_eq (get annotation_key_status vm.annotations) status

-- A machine that could not be given a key of its own.
abbrev pub preseed_refused : Vm → Bool
preseed_refused vm =
    has_status key_status_failed vm
    && str_eq (get annotation_match_method vm.annotations) match_method_preseed

abbrev pub is_running : Vm → Bool
is_running vm =
    (str_eq vm.phase "Running" || str_eq vm.power_state "PoweredOn")
    && not (str_eq vm.primary_ip "")

module _ (env : Env) (d : DefaultRef) (cfg : SaltKeyConfig) where
  abbrev pub requeue_after : ℤ
  requeue_after = parse_duration_or_default env cfg.spec.requeue_interval default_requeue_interval

  abbrev pub accept_timeout : ℤ
  accept_timeout = parse_duration_or_default env cfg.spec.accept_timeout default_accept_timeout

  -- The `switch` at the head: the private key is cleared once it is used or too old.
  unfoldable pub clear_used_key : Vm → Bool → M (Unit {0})
  clear_used_key vm timed_out =
      if guest_signalled vm || timed_out then clear_preseed_key env else return tt

  unfoldable pub mark_not_running : M Reconciled
  mark_not_running = do
    patch_annotations env ((annotation_key_status, key_status_failed) ∷ [])
    record_event warning "SaltKeyTimeout"
    finished

  unfoldable pub preseed : M Reconciled
  preseed = do c ← salt_client_from_config env cfg d; run_preseed_key env c requeue_after

  unfoldable pub discover : String → M Reconciled
  discover primary_ip = do
    c ← salt_client_from_config env cfg d
    run_accept_key env c primary_ip accept_timeout requeue_after

  -- A machine whose key is not accepted yet.
  unfoldable pub await_key : Vm → Bool → M Reconciled
  await_key vm timed_out =
      let preseeded = has_status key_status_preseeded vm in
      if preseed_refused vm
      then finished
      else if str_eq cfg.spec.key_acceptance key_acceptance_preseed && not preseeded
      then preseed
      else if not (is_running vm) && (preseeded && timed_out)
      then mark_not_running
      else if not (is_running vm)
      then requeue requeue_after
      else if preseeded
      then mark_preseed_accepted env requeue_after
      else discover vm.primary_ip

  -- A machine whose key is accepted.
  unfoldable pub accepted : M Reconciled
  accepted = do
    add_finalizer env
    c ← salt_client_from_config env cfg d
    vm ← current_vm
    reconcile_post_accept env c cfg (get annotation_minion_id vm.annotations) requeue_after

  unfoldable pub reconcile_create : M Reconciled
  reconcile_create = do
    start ← current_vm
    elapsed ← since_vsphere_create env start
    clear_used_key start (past accept_timeout elapsed)
    vm ← current_vm
    (if (has_status key_status_accepted vm)
        then (accepted)
        else (await_key vm (past accept_timeout elapsed)))
