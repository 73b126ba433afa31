-- ===== src/Controller/Reconvergence/Progress.antt =====
-- The first chain of an accepted machine, under a master that answers.
use vcf_salt_operator.Prelude.{ℕ, String, true, false, ◌≡◌, refl, arith, str_eq, none, some}
use vcf_salt_operator.Prelude.{ℕ, ◌+◌, ◌≤◌}
use vcf_salt_operator.Prelude.Int.{ℤ, pos, ltb_ℤ, ◌-ℤ◌}
use vcf_salt_operator.Prelude.Dict.{get}
use vcf_salt_operator.Kube.{SaltKeyConfig}
use vcf_salt_operator.Kube.Error.{ok}
use vcf_salt_operator.Raasconn.{Connection}
use vcf_salt_operator.Controller.Names.{
  annotation_accepted_at, post_accept_delay, annotation_salt_status, annotation_highstate_jid,
  annotation_ready,
}
use vcf_salt_operator.Controller.Durations.{sub_time, sub_duration}
use vcf_salt_operator.Controller.World.{World, Env, JidResult}
use vcf_salt_operator.Controller.Run.{◌>>=◌, patch_annotations, write}
use vcf_salt_operator.Controller.Run.Keeps.{end}
use vcf_salt_operator.Controller.Preseed.{holds_preseeded_key, clear_preseed_key}
use vcf_salt_operator.Controller.Chain.{
  run_ping, test_ping, ping_succeeded, run_refresh_pillar, refresh_pillar, pillar_succeeded,
  run_dispatch_highstate, dispatch_highstate, dispatch_succeeded, run_poll_highstate,
  highstate_completed, highstate_succeeded, highstate_ok, master_last_seen,
}
use vcf_salt_operator.Controller.Reconvergence.{first_phase, reconcile_post_accept, in_phase}

-- A master and an API server that accept every write, ping the minion, refresh its pillar, take its
-- job, and have the result at hand at the first poll.
pub record AnswersWell (env : Env) (c : Connection) (id jid : String) (result : JidResult)
    : Type 0 where
  pub writes : (t : ℕ) → env.write_error t ≡ none
  pub pings : (t : ℕ) → env.test_ping t c id ≡ ok true
  pub refreshes : (t : ℕ) → env.refresh_pillar t c id ≡ ok true
  pub dispatches : (t : ℕ) → env.dispatch_highstate t c id ≡ ok jid
  pub completes : (t : ℕ) → env.poll_jid t c id jid ≡ ok (some result)

-- Longer ago than the delay after the acceptance, at every call.
abbrev pub IsSettled : Env → ℕ → Type 0
IsSettled env accepted_at = (t : ℕ) → accepted_at + 30000000000 ≤ env.now t

delay_over :
    (now accepted_at : ℕ)
    → accepted_at + 30000000000 ≤ now
    → ltb_ℤ (pos 0) (sub_duration post_accept_delay (sub_time now accepted_at)) ≡ false
unfolding sub_duration ◌-ℤ◌
delay_over now accepted_at h = ground arith

abbrev pub phase : World → String
phase w = get annotation_salt_status w.vm.annotations

module _ (env : Env) (c : Connection) (cfg : SaltKeyConfig) (id : String) (requeue_after : ℤ) where
  ping_succeeded-phase :
      (w : World)
      → env.write_error w.tick ≡ none
      → holds_preseeded_key env w.vm.annotations ≡ false
      → phase (end (ping_succeeded env c requeue_after w)) ≡ "Pinged"
  unfolding ping_succeeded clear_preseed_key patch_annotations write ◌>>=◌
  ping_succeeded-phase w h k = rw (end, k, h) refl

  pillar_succeeded-phase :
      (w : World)
      → env.write_error w.tick ≡ none
      → phase (end (pillar_succeeded env c requeue_after w)) ≡ "PillarRefreshed"
  unfolding pillar_succeeded patch_annotations write ◌>>=◌
  pillar_succeeded-phase w h = rw (end, h) refl

  dispatch_succeeded-phase :
      (jid : String) (w : World)
      → env.write_error w.tick ≡ none
      → let v = end (dispatch_succeeded env c jid requeue_after w) in
        (phase v ≡ "HighstateDispatched") × (get annotation_highstate_jid v.vm.annotations ≡ jid)
  unfolding dispatch_succeeded patch_annotations write ◌>>=◌
  dispatch_succeeded-phase jid w h = (rw (end, h) refl, rw (get, end, h) refl)

  highstate_succeeded-phase :
      (time : String) (w : World)
      → env.write_error w.tick ≡ none
      → let v = end (highstate_succeeded env c time requeue_after w) in
        (phase v ≡ "Ready") × (get annotation_ready v.vm.annotations ≡ "true")
  unfolding highstate_succeeded patch_annotations write ◌>>=◌
  highstate_succeeded-phase time w h = (rw (end, h) refl, rw (get, end, h) refl)

  -- The world after one reconcile.
  abbrev pub after : World → World
  after w = end (reconcile_post_accept env c cfg id requeue_after w)

  pings_next :
      (jid : String) (result : JidResult) (accepted_at : ℕ) (w : World)
      → AnswersWell env c id jid result
      → str_eq id "" ≡ false
      → phase w ≡ ""
      → env.parse_time (get annotation_accepted_at w.vm.annotations) ≡ some accepted_at
      → IsSettled env accepted_at
      → holds_preseeded_key env w.vm.annotations ≡ false
      → phase (after w) ≡ "Pinged"
  unfolding reconcile_post_accept in_phase first_phase run_ping test_ping master_last_seen ◌>>=◌
  pings_next jid result accepted_at w h n p t past k =
      rw (n, p, t, delay_over (env.now w.tick) accepted_at (past w.tick), h.pings)
        (ping_succeeded-phase _ (h.writes _) k)

  refreshes_next :
      (jid : String) (result : JidResult) (w : World)
      → AnswersWell env c id jid result
      → str_eq id "" ≡ false
      → phase w ≡ "Pinged"
      → phase (after w) ≡ "PillarRefreshed"
  unfolding reconcile_post_accept in_phase run_refresh_pillar refresh_pillar pillar_succeeded
      master_last_seen patch_annotations write ◌>>=◌
  refreshes_next jid result w h n p = rw (n, p, h.refreshes) (pillar_succeeded-phase _ (h.writes _))

  dispatches_next :
      (jid : String) (result : JidResult) (w : World)
      → AnswersWell env c id jid result
      → str_eq id "" ≡ false
      → phase w ≡ "PillarRefreshed"
      → (phase (after w) ≡ "HighstateDispatched")
        × (get annotation_highstate_jid (after w).vm.annotations ≡ jid)
  unfolding reconcile_post_accept in_phase run_dispatch_highstate dispatch_highstate
      dispatch_succeeded patch_annotations write ◌>>=◌
  dispatches_next jid result w h n p =
      rw (n, p, h.dispatches) (dispatch_succeeded-phase jid _ (h.writes _))

  completes_next :
      (jid : String) (result : JidResult) (w : World)
      → AnswersWell env c id jid result
      → str_eq id "" ≡ false
      → str_eq jid "" ≡ false
      → highstate_ok env c result ≡ true
      → phase w ≡ "HighstateDispatched"
      → get annotation_highstate_jid w.vm.annotations ≡ jid
      → (phase (after w) ≡ "Ready") × (get annotation_ready (after w).vm.annotations ≡ "true")
  unfolding reconcile_post_accept in_phase run_poll_highstate highstate_completed
      highstate_succeeded patch_annotations write ◌>>=◌
  completes_next jid result w h n m o p j =
      rw (n, p, j, m, h.completes, o) (highstate_succeeded-phase _ _ (h.writes _))

  -- Where every write is accepted, the ping and the refresh of the pillar answer true, the dispatch
  -- gives a job ID that is not empty and the first poll a result that counts as success, at every
  -- call, four reconciles take a machine with a minion ID from the acceptance of its key, before any
  -- phase, to Ready, once the delay is over and if it holds no preseeded key any more: it is pinged,
  -- the pillar is refreshed, the highstate is dispatched, and its result makes the machine ready.
  pub reconcile_post_accept_reaches_ready :
      (jid : String) (result : JidResult) (accepted_at : ℕ) (w : World)
      → AnswersWell env c id jid result
      → str_eq id "" ≡ false
      → str_eq jid "" ≡ false
      → highstate_ok env c result ≡ true
      → phase w ≡ ""
      → env.parse_time (get annotation_accepted_at w.vm.annotations) ≡ some accepted_at
      → IsSettled env accepted_at
      → holds_preseeded_key env w.vm.annotations ≡ false
      → (phase (after (after (after (after w)))) ≡ "Ready")
        × (get annotation_ready (after (after (after (after w)))).vm.annotations ≡ "true")
  reconcile_post_accept_reaches_ready jid result accepted_at w h n m o p t past k =
      let pinged = pings_next jid result accepted_at w h n p t past k in
      let refreshed = refreshes_next jid result (after w) h n pinged in
      let dispatched = dispatches_next jid result (after (after w)) h n refreshed in
      completes_next jid result (after (after (after w))) h n m o (dispatched.0) (dispatched.1)
