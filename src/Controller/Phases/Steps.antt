-- ===== src/Controller/Phases/Steps.antt =====
-- The phases of the first chain, and the reconciles that leave them.
use vcf_salt_operator.Prelude.{ℕ, String, List, [], ◌∷◌, Option, none, some}
use vcf_salt_operator.Prelude.Int.{ℤ}
use vcf_salt_operator.Kube.Error.{Result, ok, err}
use vcf_salt_operator.Raasconn.{Connection}
use vcf_salt_operator.Controller.World.{World, Env}
use vcf_salt_operator.Controller.Run.Keeps.{
  Keeps, Keeps-ask_noting, Keeps-try_write, Keeps-bind, Keeps-of_error,
}
use vcf_salt_operator.Controller.Preseed.{clear_preseed_key, clear_bootstrap_key, with_key_cleared}
use vcf_salt_operator.Controller.Chain.{
  master_last_seen, master_silence, within_bootstrap, ping_failed, ping_succeeded, test_ping,
  run_ping, recent, pillar_failed, pillar_succeeded, refresh_pillar, run_refresh_pillar,
  dispatch_highstate, dispatch_succeeded, dispatch_failed, run_dispatch_highstate, noted_dispatch,
  highstate_completed, highstate_succeeded, highstate_failed, run_poll_highstate,
}
use vcf_salt_operator.Controller.Reconvergence.{delay_left, first_phase}
use vcf_salt_operator.Controller.Phases.{InPhases, InPhases-stable, phase_rules}

module _ (env : Env) {phases : List String} where
  clear_bootstrap_key-InPhases : Keeps (InPhases phases) (clear_bootstrap_key env)
  unfolding clear_bootstrap_key
  clear_bootstrap_key-InPhases =
      Keeps-bind _ _
        (Keeps-try_write (InPhases-stable phases) env (with_key_cleared env)
          (λ w h. record { phase_in = h.phase_in }))
        (λ o. Keeps-of_error _)

  clear_preseed_key-InPhases : Keeps (InPhases phases) (clear_preseed_key env)
  unfolding clear_preseed_key
  clear_preseed_key-InPhases = search (phase_rules, clear_bootstrap_key-InPhases) depth 8

  pub master_last_seen-InPhases :
      (c : Connection) → Keeps (InPhases phases) (master_last_seen env c)
  unfolding master_last_seen
  master_last_seen-InPhases c = search phase_rules

  pub master_silence-InPhases :
      (c : Connection) (before : String) (started : ℕ)
      → Keeps (InPhases phases) (master_silence env c before started)
  unfolding master_silence
  master_silence-InPhases c before started = search (phase_rules, master_last_seen-InPhases) depth 9

  recent-InPhases : (o : Option ℕ) (c : Connection) → Keeps (InPhases phases) (recent env c o)
  recent-InPhases none c = search phase_rules
  recent-InPhases (some t) c = search phase_rules depth 7

  within_bootstrap-InPhases : (c : Connection) → Keeps (InPhases phases) (within_bootstrap env c)
  unfolding within_bootstrap
  within_bootstrap-InPhases c = search (phase_rules, recent-InPhases)

module _ (env : Env) where
  ping_failed-InPhases :
      (c : Connection) (before : String) (started : ℕ)
      → Keeps (InPhases ("" ∷ "Pinged" ∷ "Failed/Ping" ∷ [])) (ping_failed env c before started)
  unfolding ping_failed
  ping_failed-InPhases c before started =
      search
        (
          phase_rules, master_silence-InPhases, within_bootstrap-InPhases,
          clear_preseed_key-InPhases,
        )
        depth 12

  ping_succeeded-InPhases :
      (c : Connection) (r : ℤ)
      → Keeps (InPhases ("" ∷ "Pinged" ∷ "Failed/Ping" ∷ [])) (ping_succeeded env c r)
  unfolding ping_succeeded
  ping_succeeded-InPhases c r = search (phase_rules, clear_preseed_key-InPhases) depth 9

  test_ping-InPhases :
      {phases : List String} (c : Connection) (id : String)
      → Keeps (InPhases phases) (test_ping env c id)
  unfolding test_ping
  test_ping-InPhases {phases} c id =
      Keeps-ask_noting (InPhases-stable phases) _ _ (λ b w h. record { phase_in = h.phase_in })

  run_ping-InPhases :
      (c : Connection) (id : String) (r : ℤ)
      → Keeps (InPhases ("" ∷ "Pinged" ∷ "Failed/Ping" ∷ [])) (run_ping env c id r)
  unfolding run_ping
  run_ping-InPhases c id r =
      search
        (
          phase_rules, master_last_seen-InPhases, test_ping-InPhases, ping_succeeded-InPhases,
          ping_failed-InPhases,
        )
        depth 9

  delay_left-InPhases :
      {phases : List String} (o : Option ℕ) → Keeps (InPhases phases) (delay_left env o)
  delay_left-InPhases none = search phase_rules
  delay_left-InPhases (some t) = search phase_rules depth 7

  pub first_phase-InPhases :
      (c : Connection) (id : String) (r : ℤ)
      → Keeps (InPhases ("" ∷ "Pinged" ∷ "Failed/Ping" ∷ [])) (first_phase env c id r)
  unfolding first_phase
  first_phase-InPhases c id r = search (phase_rules, delay_left-InPhases, run_ping-InPhases) depth 9

  pillar_failed-InPhases :
      (c : Connection) (before : String) (started : ℕ)
      → Keeps
          (InPhases ("Pinged" ∷ "PillarRefreshed" ∷ "Failed/PillarRefresh" ∷ []))
          (pillar_failed env c before started)
  unfolding pillar_failed
  pillar_failed-InPhases c before started =
      search (phase_rules, master_silence-InPhases, within_bootstrap-InPhases) depth 12

  pillar_succeeded-InPhases :
      (c : Connection) (r : ℤ)
      → Keeps
          (InPhases ("Pinged" ∷ "PillarRefreshed" ∷ "Failed/PillarRefresh" ∷ []))
          (pillar_succeeded env c r)
  unfolding pillar_succeeded
  pillar_succeeded-InPhases c r = search phase_rules depth 9

  pub refresh_pillar-InPhases :
      {phases : List String} (c : Connection) (id : String)
      → Keeps (InPhases phases) (refresh_pillar env c id)
  unfolding refresh_pillar
  refresh_pillar-InPhases {phases} c id =
      Keeps-ask_noting (InPhases-stable phases) _ _ (λ b w h. record { phase_in = h.phase_in })

  pub run_refresh_pillar-InPhases :
      (c : Connection) (id : String) (r : ℤ)
      → Keeps
          (InPhases ("Pinged" ∷ "PillarRefreshed" ∷ "Failed/PillarRefresh" ∷ []))
          (run_refresh_pillar env c id r)
  unfolding run_refresh_pillar
  run_refresh_pillar-InPhases c id r =
      search
        (
          phase_rules, master_last_seen-InPhases, refresh_pillar-InPhases,
          pillar_succeeded-InPhases, pillar_failed-InPhases,
        )
        depth 9

  noted_in :
      (c : Connection) (id : String) (phases : List String) (a : Result String) (w : World)
      → InPhases phases w
      → InPhases phases (noted_dispatch env c id a w)
  noted_in c id phases (ok jid) w h = record { phase_in = h.phase_in }
  noted_in c id phases (err e) w h = record { phase_in = h.phase_in }

  pub dispatch_highstate-InPhases :
      {phases : List String} (c : Connection) (id : String)
      → Keeps (InPhases phases) (dispatch_highstate env c id)
  unfolding dispatch_highstate
  dispatch_highstate-InPhases {phases} c id =
      Keeps-ask_noting (InPhases-stable phases) _ _ (noted_in c id phases)

  pub run_dispatch_highstate-InPhases :
      (c : Connection) (id : String) (r : ℤ)
      → Keeps
          (InPhases ("PillarRefreshed" ∷ "HighstateDispatched" ∷ "Failed/HighstateDispatch" ∷ []))
          (run_dispatch_highstate env c id r)
  unfolding run_dispatch_highstate dispatch_succeeded dispatch_failed
  run_dispatch_highstate-InPhases c id r =
      search (phase_rules, dispatch_highstate-InPhases) depth 12

  pub run_poll_highstate-InPhases :
      (c : Connection) (id jid : String) (r : ℤ)
      → Keeps
          (InPhases ("HighstateDispatched" ∷ "Ready" ∷ "Failed/Highstate" ∷ []))
          (run_poll_highstate env c id jid r)
  unfolding run_poll_highstate highstate_completed highstate_succeeded highstate_failed
  run_poll_highstate-InPhases c id jid r = search phase_rules depth 14
