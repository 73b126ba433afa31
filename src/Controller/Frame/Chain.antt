-- ===== src/Controller/Frame/Chain.antt =====
-- The steps of the chain, and what they leave alone.
use vcf_salt_operator.Prelude.{ℕ, String, Option, none, some, refl}
use vcf_salt_operator.Prelude.Int.{ℤ}
use vcf_salt_operator.Kube.Error.{Result, ok, err}
use vcf_salt_operator.Raasconn.{Connection}
use vcf_salt_operator.Controller.World.{World, Env}
use vcf_salt_operator.Controller.Run.Keeps.{
  Keeps, Keeps-try_write, Keeps-ask_noting, Keeps-bind, Keeps-of_error,
}
use vcf_salt_operator.Controller.Preseed.{clear_preseed_key, clear_bootstrap_key, with_key_cleared}
use vcf_salt_operator.Controller.Chain.{
  master_last_seen, master_silence, within_bootstrap, ping_failed, ping_succeeded, test_ping,
  run_ping, recent, pillar_failed, pillar_succeeded, refresh_pillar, run_refresh_pillar,
  dispatch_highstate, dispatch_succeeded, dispatch_failed, run_dispatch_highstate, noted_dispatch,
  highstate_completed, highstate_succeeded, highstate_failed, run_poll_highstate,
}
use vcf_salt_operator.Controller.OwnWrites.{is_own_write}
use vcf_salt_operator.Controller.Frame.{Frame, frame_rules}

module _ {env : Env} {P : World → Type 0} (s : Frame env P) where
  clear_bootstrap_key-Keeps : Keeps P (clear_bootstrap_key env)
  unfolding clear_bootstrap_key
  clear_bootstrap_key-Keeps =
      Keeps-bind _ _ (Keeps-try_write s.stable env (with_key_cleared env) s.on_clear)
        (λ o. Keeps-of_error _)

  pub clear_preseed_key-Keeps : Keeps P (clear_preseed_key env)
  unfolding clear_preseed_key is_own_write
  clear_preseed_key-Keeps = search (frame_rules, clear_bootstrap_key-Keeps) depth 8

  pub master_last_seen-Keeps : (c : Connection) → Keeps P (master_last_seen env c)
  unfolding master_last_seen
  master_last_seen-Keeps c = search frame_rules

  pub master_silence-Keeps :
      (c : Connection) (before : String) (started : ℕ)
      → Keeps P (master_silence env c before started)
  unfolding master_silence
  master_silence-Keeps c before started = search (frame_rules, master_last_seen-Keeps) depth 9

  recent-Keeps : (o : Option ℕ) (c : Connection) → Keeps P (recent env c o)
  recent-Keeps none c = search frame_rules
  recent-Keeps (some t) c = search frame_rules depth 7

  within_bootstrap-Keeps : (c : Connection) → Keeps P (within_bootstrap env c)
  unfolding within_bootstrap
  within_bootstrap-Keeps c = search (frame_rules, recent-Keeps)

  ping_failed-Keeps :
      (c : Connection) (before : String) (started : ℕ) → Keeps P (ping_failed env c before started)
  unfolding ping_failed is_own_write
  ping_failed-Keeps c before started =
      search (frame_rules, master_silence-Keeps, within_bootstrap-Keeps, clear_preseed_key-Keeps)
        depth 12

  ping_succeeded-Keeps : (c : Connection) (r : ℤ) → Keeps P (ping_succeeded env c r)
  unfolding ping_succeeded is_own_write
  ping_succeeded-Keeps c r = search (frame_rules, clear_preseed_key-Keeps) depth 9

  test_ping-Keeps : (c : Connection) (id : String) → Keeps P (test_ping env c id)
  unfolding test_ping
  test_ping-Keeps c id = Keeps-ask_noting s.stable _ _ (λ b w h. s.on_note _ refl w h)

  pub run_ping-Keeps : (c : Connection) (id : String) (r : ℤ) → Keeps P (run_ping env c id r)
  unfolding run_ping
  run_ping-Keeps c id r =
      search
        (
          frame_rules, master_last_seen-Keeps, test_ping-Keeps, ping_failed-Keeps,
          ping_succeeded-Keeps,
        )
        depth 9

  pillar_failed-Keeps :
      (c : Connection) (before : String) (started : ℕ)
      → Keeps P (pillar_failed env c before started)
  unfolding pillar_failed is_own_write
  pillar_failed-Keeps c before started =
      search (frame_rules, master_silence-Keeps, within_bootstrap-Keeps) depth 12

  pub refresh_pillar-Keeps : (c : Connection) (id : String) → Keeps P (refresh_pillar env c id)
  unfolding refresh_pillar
  refresh_pillar-Keeps c id = Keeps-ask_noting s.stable _ _ (λ b w h. s.on_note _ refl w h)

  pub run_refresh_pillar-Keeps :
      (c : Connection) (id : String) (r : ℤ) → Keeps P (run_refresh_pillar env c id r)
  unfolding run_refresh_pillar pillar_succeeded is_own_write
  run_refresh_pillar-Keeps c id r =
      search (frame_rules, master_last_seen-Keeps, refresh_pillar-Keeps, pillar_failed-Keeps) depth
        12

  noted_dispatch-kept :
      (c : Connection) (id : String) (a : Result String) (w : World)
      → P w
      → P (noted_dispatch env c id a w)
  noted_dispatch-kept c id (ok jid) w h = s.on_note _ refl w h
  noted_dispatch-kept c id (err e) w h = h

  pub dispatch_highstate-Keeps :
      (c : Connection) (id : String) → Keeps P (dispatch_highstate env c id)
  unfolding dispatch_highstate
  dispatch_highstate-Keeps c id = Keeps-ask_noting s.stable _ _ (noted_dispatch-kept c id)

  pub run_dispatch_highstate-Keeps :
      (c : Connection) (id : String) (r : ℤ) → Keeps P (run_dispatch_highstate env c id r)
  unfolding run_dispatch_highstate dispatch_succeeded dispatch_failed is_own_write
  run_dispatch_highstate-Keeps c id r = search (frame_rules, dispatch_highstate-Keeps) depth 12

  pub run_poll_highstate-Keeps :
      (c : Connection) (id jid : String) (r : ℤ) → Keeps P (run_poll_highstate env c id jid r)
  unfolding run_poll_highstate highstate_completed highstate_succeeded highstate_failed is_own_write
  run_poll_highstate-Keeps c id jid r = search frame_rules depth 14
