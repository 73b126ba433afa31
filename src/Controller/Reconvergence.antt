-- ===== src/Controller/Reconvergence.antt =====
-- virtualmachine_controller.go, `checkReconvergence`, `runDay2`, `restartFirstChain` and
-- `reconcilePostAccept`: what is done with an accepted machine in each phase.
pub mod Waits
pub mod Progress
pub mod Consumed
use vcf_salt_operator.Prelude.{ℕ, String, Bool, false, not, ◌&&◌, ◌||◌, [], ◌∷◌, ◌++◌}
use vcf_salt_operator.Prelude.{Option, none, some, str_eq, if◌then◌else◌}
use vcf_salt_operator.Prelude.Int.{ℤ, pos, ◌-ℤ◌, ltb_ℤ}
use vcf_salt_operator.Prelude.Dict.{Dict, get, copy_into}
use text.Mathlib.Text.{starts_with}
use vcf_salt_operator.Kube.{Vm, SaltKeyConfig}
use vcf_salt_operator.Raasconn.{Connection}
use vcf_salt_operator.Controller.Names.{
  annotation_salt_status, annotation_ready, annotation_highstate_jid, annotation_highstate_status,
  annotation_highstate_time, annotation_roles_hash, annotation_accepted_at,
  annotation_retry_request, annotation_retry_handled, annotation_bulk_retry_handled,
  annotation_false, post_accept_delay, failed_status_prefix, salt_status_ready,
  salt_status_highstate_dispatched, intent_hash_version,
}
use vcf_salt_operator.Controller.Durations.{sub_duration}
use vcf_salt_operator.Controller.World.{Env, normal, warning}
use vcf_salt_operator.Controller.Run.{
  M, with_result, ◌>>=◌, ◌>>◌, return, current_vm, Reconciled, finished, requeue, record_event,
  time_now, since, patch_annotations,
}
use vcf_salt_operator.Controller.IntentHash.{compute_intent_hash, adopt_legacy_intent_hash}
use vcf_salt_operator.Controller.Chain.{
  master_last_seen, master_silence, refresh_pillar, dispatch_highstate, run_ping,
  run_refresh_pillar, run_dispatch_highstate, run_poll_highstate, reason_for,
}
use vcf_salt_operator.Controller.Enforcement.{Due, enforcement_due}

-- The triggers of a run, read from the annotations and the configuration.
abbrev pub retry_requested : Dict String → Bool
retry_requested a =
    not (str_eq (get annotation_retry_request a) "")
    && not (str_eq (get annotation_retry_request a) (get annotation_retry_handled a))

abbrev pub bulk_changed : String → Dict String → Bool
bulk_changed token a =
    not (str_eq token "") && not (str_eq token (get annotation_bulk_retry_handled a))

abbrev pub is_failed : Dict String → Bool
is_failed a = starts_with (get annotation_salt_status a) failed_status_prefix

-- The markers of the triggers that a run acts on.
unfoldable pub handled : String → Dict String → Dict String
handled token a =
    (if retry_requested a
      then (annotation_retry_handled, get annotation_retry_request a) ∷ []
      else [])
    ++ (if bulk_changed token a then (annotation_bulk_retry_handled, token) ∷ [] else [])

module _ (env : Env) where
  -- `restartFirstChain`
  unfoldable pub restart_first_chain : String → ℤ → M Reconciled
  restart_first_chain token requeue_after = do
    vm ← current_vm
    (if (retry_requested vm.annotations || bulk_changed token vm.annotations)
        then (do
          patch_annotations env (
              handled token vm.annotations
              ++ ((annotation_salt_status, "") ∷ (annotation_ready, annotation_false) ∷ []))
          record_event normal "SaltReconvergenceRequested"
          requeue requeue_after)
        else (finished))

  -- `withMarkers`: the markers win over the patch.
  abbrev pub with_markers : Dict String → Dict String → Dict String
  with_markers markers patch = copy_into markers patch

  unfoldable pub day2_pillar_failed : Connection → Dict String → String → ℕ → M Reconciled
  day2_pillar_failed c markers before started = do
    silent ← master_silence env c before started
    patch_annotations env (
        with_markers markers (
          (annotation_salt_status, "Failed/PillarRefresh")
          ∷ (annotation_ready, annotation_false)
          ∷ []))
    record_event warning (reason_for env c silent "SaltDay2PillarFailed")
    finished

  unfoldable pub day2_dispatch_failed : Dict String → M Reconciled
  day2_dispatch_failed markers = do
    patch_annotations env (
        with_markers markers (
          (annotation_salt_status, "Failed/HighstateDispatch")
          ∷ (annotation_ready, annotation_false)
          ∷ []))
    record_event warning "SaltDay2HighstateFailed"
    finished

  unfoldable pub day2_dispatched : Dict String → String → ℤ → M Reconciled
  day2_dispatched markers jid requeue_after = do
    patch_annotations env (
        with_markers markers (
          (annotation_salt_status, salt_status_highstate_dispatched)
          ∷ (annotation_highstate_jid, jid)
          ∷ (annotation_highstate_status, "InProgress")
          ∷ (annotation_ready, annotation_false)
          ∷ []))
    record_event normal "SaltDay2Dispatched"
    requeue requeue_after

  unfoldable pub day2_dispatch : Connection → String → Dict String → ℤ → M Reconciled
  day2_dispatch c minion_id markers requeue_after = do
    answer ← dispatch_highstate env c minion_id
    with_result answer (λ jid. day2_dispatched markers jid requeue_after)
        (λ e. day2_dispatch_failed markers)

  unfoldable pub run_day2 : Connection → String → Dict String → ℤ → M Reconciled
  run_day2 c minion_id markers requeue_after = do
    before ← master_last_seen env c
    started ← time_now env
    refreshed ← refresh_pillar env c minion_id
    (if refreshed
        then (day2_dispatch c minion_id markers requeue_after)
        else (day2_pillar_failed c markers before started))

  -- A run after a failure: the chain starts again at its first step.
  unfoldable pub reset_chain : String → Dict String → ℤ → M Reconciled
  reset_chain token annotations requeue_after = do
    patch_annotations env (
        handled token annotations
        ++ ((annotation_salt_status, "")
            ∷ (annotation_ready, annotation_false)
            ∷ (annotation_highstate_status, "")
            ∷ (annotation_roles_hash, compute_intent_hash env annotations)
            ∷ []))
    record_event normal "SaltReconvergenceRequested"
    requeue requeue_after

  -- The end of `checkReconvergence`, where a run was triggered.
  unfoldable pub converge : Connection → String → String → Dict String → ℤ → M Reconciled
  converge c minion_id token annotations requeue_after =
      (if (is_failed annotations)
        then (reset_chain token annotations requeue_after)
        else (run_day2 c minion_id
            (handled token annotations
              ++ ((annotation_roles_hash, compute_intent_hash env annotations) ∷ []))
            requeue_after))

  -- Nothing triggered a run: the token is recorded as handled, and the schedule decides.
  unfoldable pub enforce : Connection → SaltKeyConfig → String → Vm → ℤ → M Reconciled
  enforce c cfg minion_id vm requeue_after = do
    (if bulk_changed cfg.spec.retry_token vm.annotations
        then patch_annotations env ((annotation_bulk_retry_handled, cfg.spec.retry_token) ∷ [])
        else return tt)
    (if (str_eq (get annotation_salt_status vm.annotations) salt_status_ready)
        then (do
          now ← time_now env
          let decision =
              enforcement_due env cfg.spec.enforcement_interval vm.uid
                (get annotation_highstate_time vm.annotations) now
          (if (Due.due decision)
              then (converge c minion_id cfg.spec.retry_token vm.annotations requeue_after)
              else (requeue (Due.wait decision))))
        else (finished))

  -- `!intentChanged && !retryRequested && (!bulkChanged || !failed)`, negated.
  unfoldable pub is_triggered : String → String → Dict String → Bool
  is_triggered token previous_hash a =
      not (str_eq (compute_intent_hash env a) previous_hash)
      || (retry_requested a || (bulk_changed token a && is_failed a))

  -- `checkReconvergence`, behind the checks of the stored hash.
  unfoldable pub decide : Connection → SaltKeyConfig → String → Vm → ℤ → M Reconciled
  decide c cfg minion_id vm requeue_after =
      (if (is_triggered cfg.spec.retry_token (get annotation_roles_hash vm.annotations)
          vm.annotations)
        then (converge c minion_id cfg.spec.retry_token vm.annotations requeue_after)
        else (enforce c cfg minion_id vm requeue_after))

  -- A hash of an old version is adopted first, if it is the one of the roles.
  abbrev pub adopt : String → M Bool
  adopt previous_hash =
      (if (starts_with previous_hash intent_hash_version)
        then (return false)
        else (adopt_legacy_intent_hash env previous_hash))

  -- `checkReconvergence`, of the machine as it was read.
  unfoldable pub reconverge : Connection → SaltKeyConfig → String → Vm → ℤ → M Reconciled
  reconverge c cfg minion_id vm requeue_after =
      (if (str_eq (get annotation_roles_hash vm.annotations) "")
        then ((if (is_failed vm.annotations)
            then (restart_first_chain cfg.spec.retry_token requeue_after)
            else (finished)))
        else (do
          adopted ← adopt (get annotation_roles_hash vm.annotations)
          (if adopted then (finished) else (decide c cfg minion_id vm requeue_after))))

  unfoldable pub check_reconvergence : Connection → SaltKeyConfig → String → ℤ → M Reconciled
  check_reconvergence c cfg minion_id requeue_after = do
    vm ← current_vm
    reconverge c cfg minion_id vm requeue_after

  -- What is left of the delay after the acceptance, if its time is known.
  abbrev pub delay_left : Option ℕ → M ℤ
  delay_left none = return (pos 0)
  delay_left (some accepted_at) = do
    elapsed ← since env accepted_at
    return (sub_duration post_accept_delay elapsed)

  -- The first phase: a wait, and then a ping.
  unfoldable pub first_phase : Connection → String → ℤ → M Reconciled
  first_phase c minion_id requeue_after = do
    vm ← current_vm
    left ← delay_left (env.parse_time (get annotation_accepted_at vm.annotations))
    (if (ltb_ℤ (pos 0) left) then (requeue left) else (run_ping env c minion_id requeue_after))

  -- The `switch` of `reconcilePostAccept` on the phase.
  unfoldable pub in_phase : Connection → SaltKeyConfig → String → Vm → ℤ → M Reconciled
  in_phase c cfg minion_id vm requeue_after =
      let phase = get annotation_salt_status vm.annotations in
      if str_eq phase ""
      then first_phase c minion_id requeue_after
      else if str_eq phase "Pinged"
      then run_refresh_pillar env c minion_id requeue_after
      else if str_eq phase "PillarRefreshed"
      then run_dispatch_highstate env c minion_id requeue_after
      else if str_eq phase salt_status_highstate_dispatched
      then run_poll_highstate env c minion_id (get annotation_highstate_jid vm.annotations)
          requeue_after
      else check_reconvergence c cfg minion_id requeue_after

  unfoldable pub reconcile_post_accept : Connection → SaltKeyConfig → String → ℤ → M Reconciled
  reconcile_post_accept c cfg minion_id requeue_after =
      (if (str_eq minion_id "")
        then (finished)
        else (do vm ← current_vm; in_phase c cfg minion_id vm requeue_after))
