-- ===== src/Controller/Chain.antt =====
-- virtualmachine_controller.go: the Salt chain of an accepted machine, ping, pillar refresh,
-- highstate and its result, and the check whether the master reports to RaaS.
pub mod Settled
use vcf_salt_operator.Prelude.{ℕ, String, ◌<>◌, Bool, false, not, ◌&&◌, List, [], ◌∷◌}
use vcf_salt_operator.Prelude.{Option, none, some, str_eq, if◌then◌else◌}
use vcf_salt_operator.Prelude.Int.{ℤ, pos, ltb_ℤ}
use vcf_salt_operator.Prelude.Lists.{length}
use vcf_salt_operator.Prelude.Dict.{get}
use vcf_salt_operator.Kube.Error.{Result, ok, err}
use vcf_salt_operator.Raasconn.{Connection}
use vcf_salt_operator.Controller.Names.{
  annotation_salt_status, annotation_ready, annotation_highstate_jid, annotation_highstate_status,
  annotation_highstate_time, annotation_roles_hash, annotation_accepted_at,
  annotation_highstate_failed_count, annotation_highstate_failed_states, annotation_true,
  annotation_false, event_master_silent, min_master_silence, max_bootstrap_duration,
  salt_status_highstate_dispatched, salt_status_ready,
}
use vcf_salt_operator.Controller.World.{
  World, Env, JidResult, normal, warning, pinged, pillar_refreshed, highstate_dispatched,
}
use vcf_salt_operator.Controller.Run.{
  M, with_result, with_option, ◌>>=◌, ◌>>◌, return, ask, ask_noting, noted, current_vm, Reconciled,
  finished, requeue, record_event, time_now, since, patch_annotations,
}
use vcf_salt_operator.Controller.IntentHash.{compute_intent_hash}
use vcf_salt_operator.Controller.Preseed.{clear_preseed_key}

-- `err == nil && ok`
abbrev pub is_yes : Result Bool → Bool
is_yes (ok b) = b
is_yes (err e) = false

abbrev pub text_or_empty : Result String → String
text_or_empty (ok s) = s
text_or_empty (err e) = ""

-- 60 seconds
abbrev pub retry_delay : ℤ
retry_delay = pos 60000000000

abbrev pub join_commas : List String → String
join_commas [] = ""
join_commas (s ∷ []) = s
join_commas (s ∷ (t ∷ ss)) = s <> ("," <> join_commas (t ∷ ss))

module _ (env : Env) (c : Connection) where
  -- `masterLastSeen`
  unfoldable pub master_last_seen : M String
  master_last_seen = do answer ← ask (λ t. env.master_last_seen t c); return (text_or_empty answer)

  -- `masterSilence`: whether the master has not reported since before the step.
  unfoldable pub master_silence : String → ℕ → M Bool
  master_silence before started =
      (if (str_eq before "") then (return false) else (do
        elapsed ← since env started
        (if (ltb_ℤ elapsed min_master_silence)
            then (return false)
            else (do seen ← master_last_seen; return (str_eq seen before)))))

  -- Whether a failed step is still retried: the time of acceptance is known and recent.
  abbrev pub recent : Option ℕ → M Bool
  recent none = return false
  recent (some accepted_at) = do
    elapsed ← since env accepted_at
    return (ltb_ℤ elapsed max_bootstrap_duration)

  unfoldable pub within_bootstrap : M Bool
  within_bootstrap = do
    vm ← current_vm
    recent (env.parse_time (get annotation_accepted_at vm.annotations))

  abbrev pub reason_for : Bool → String → String
  reason_for silent reason = if silent then event_master_silent else reason

  -- `runPing`, after a failed ping.
  unfoldable pub ping_failed : String → ℕ → M Reconciled
  ping_failed before started = do
    silent ← master_silence before started
    retry ← within_bootstrap
    (if retry
        then (do record_event warning (reason_for silent "SaltPingRetry"); requeue retry_delay)
        else (do
          clear_preseed_key env
          patch_annotations env
              ((annotation_salt_status, "Failed/Ping") ∷ (annotation_ready, annotation_false) ∷ [])
          record_event warning (reason_for silent "SaltPingFailed")
          finished))

  -- `runPing`, after a ping that answered.
  unfoldable pub ping_succeeded : ℤ → M Reconciled
  ping_succeeded requeue_after = do
    clear_preseed_key env
    patch_annotations env ((annotation_salt_status, "Pinged") ∷ [])
    record_event normal "SaltPingSucceeded"
    requeue requeue_after

  unfoldable pub test_ping : String → M Bool
  test_ping minion_id =
      ask_noting (λ t. is_yes (env.test_ping t c minion_id)) (λ yes_. noted (pinged minion_id yes_))

  unfoldable pub run_ping : String → ℤ → M Reconciled
  run_ping minion_id requeue_after = do
    before ← master_last_seen
    started ← time_now env
    answered ← test_ping minion_id
    (if answered then (ping_succeeded requeue_after) else (ping_failed before started))

  unfoldable pub refresh_pillar : String → M Bool
  refresh_pillar minion_id =
      ask_noting (λ t. is_yes (env.refresh_pillar t c minion_id))
        (λ yes_. noted (pillar_refreshed minion_id yes_))

  -- `runRefreshPillar`, after a refresh that failed.
  unfoldable pub pillar_failed : String → ℕ → M Reconciled
  pillar_failed before started = do
    silent ← master_silence before started
    retry ← within_bootstrap
    (if retry
        then (do
          record_event warning (reason_for silent "SaltPillarRefreshRetry")
          requeue retry_delay)
        else (do
          patch_annotations env (
              (annotation_salt_status, "Failed/PillarRefresh")
              ∷ (annotation_ready, annotation_false)
              ∷ [])
          record_event warning (reason_for silent "SaltPillarRefreshFailed")
          finished))

  -- `runRefreshPillar`, after a refresh that succeeded.
  unfoldable pub pillar_succeeded : ℤ → M Reconciled
  pillar_succeeded requeue_after = do
    patch_annotations env ((annotation_salt_status, "PillarRefreshed") ∷ [])
    record_event normal "SaltPillarRefreshed"
    requeue requeue_after

  unfoldable pub run_refresh_pillar : String → ℤ → M Reconciled
  run_refresh_pillar minion_id requeue_after = do
    before ← master_last_seen
    started ← time_now env
    refreshed ← refresh_pillar minion_id
    (if refreshed then (pillar_succeeded requeue_after) else (pillar_failed before started))

  abbrev pub noted_dispatch : String → Result String → World → World
  noted_dispatch minion_id (ok jid) w = noted (highstate_dispatched minion_id) w
  noted_dispatch minion_id (err e) w = w

  -- A call that answers with an error is not noted as a dispatch.
  unfoldable pub dispatch_highstate : String → M (Result String)
  dispatch_highstate minion_id =
      ask_noting (λ t. env.dispatch_highstate t c minion_id) (noted_dispatch minion_id)

  unfoldable pub dispatch_failed : String → M Reconciled
  dispatch_failed reason = do
    patch_annotations env (
        (annotation_salt_status, "Failed/HighstateDispatch")
        ∷ (annotation_ready, annotation_false)
        ∷ [])
    record_event warning reason
    finished

  unfoldable pub dispatch_succeeded : String → ℤ → M Reconciled
  dispatch_succeeded jid requeue_after = do
    vm ← current_vm
    patch_annotations env (
        (annotation_salt_status, salt_status_highstate_dispatched)
        ∷ (annotation_highstate_jid, jid)
        ∷ (annotation_highstate_status, "InProgress")
        ∷ (annotation_ready, annotation_false)
        ∷ (annotation_roles_hash, compute_intent_hash env vm.annotations)
        ∷ [])
    record_event normal "SaltHighstateDispatched"
    requeue requeue_after

  unfoldable pub run_dispatch_highstate : String → ℤ → M Reconciled
  run_dispatch_highstate minion_id requeue_after = do
    answer ← dispatch_highstate minion_id
    with_result answer (λ jid. dispatch_succeeded jid requeue_after)
        (λ e. dispatch_failed "SaltHighstateDispatchFailed")

  -- `JIDResult.HighstateOK`
  abbrev pub is_zero : ℤ → Bool
  is_zero n = not (ltb_ℤ n (pos 0)) && not (ltb_ℤ (pos 0) n)

  abbrev pub highstate_ok : JidResult → Bool
  highstate_ok r = r.success && is_zero r.retcode

  unfoldable pub highstate_succeeded : String → ℤ → M Reconciled
  highstate_succeeded time requeue_after = do
    patch_annotations env (
        (annotation_salt_status, salt_status_ready)
        ∷ (annotation_ready, annotation_true)
        ∷ (annotation_highstate_status, "Success")
        ∷ (annotation_highstate_time, time)
        ∷ (annotation_highstate_failed_count, "0")
        ∷ (annotation_highstate_failed_states, "")
        ∷ [])
    record_event normal "SaltHighstateSuccess"
    requeue requeue_after

  unfoldable pub highstate_failed : String → List String → M Reconciled
  highstate_failed time failed_ids = do
    patch_annotations env (
        (annotation_salt_status, "Failed/Highstate")
        ∷ (annotation_ready, annotation_false)
        ∷ (annotation_highstate_status, "Failed")
        ∷ (annotation_highstate_time, time)
        ∷ (annotation_highstate_failed_count, env.itoa (length failed_ids))
        ∷ (annotation_highstate_failed_states, join_commas failed_ids)
        ∷ [])
    record_event warning "SaltHighstateFailed"
    finished

  unfoldable pub highstate_completed : JidResult → ℤ → M Reconciled
  highstate_completed result requeue_after = do
    now ← time_now env
    (if (highstate_ok result)
        then (highstate_succeeded (env.format_time now) requeue_after)
        else (highstate_failed (env.format_time now) result.failed_state_ids))

  unfoldable pub run_poll_highstate : String → String → ℤ → M Reconciled
  run_poll_highstate minion_id jid requeue_after =
      (if (str_eq jid "") then (requeue requeue_after) else (do
        answer ← ask (λ t. env.poll_jid t c minion_id jid)
        with_result answer
            (λ result?.
              with_option result? (requeue requeue_after)
                (λ result. highstate_completed result requeue_after))
            (λ e. requeue requeue_after)))
