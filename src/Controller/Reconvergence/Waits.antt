-- ===== src/Controller/Reconvergence/Waits.antt =====
-- When an accepted machine is left alone.
use vcf_salt_operator.Prelude.{ℕ, ◌+◌, ◌-◌, ◌<◌, ◌≤◌, String, true, false, ◌≡◌, refl, arith}
use vcf_salt_operator.Prelude.{some, str_eq}
use vcf_salt_operator.Prelude.Int.{ℤ, pos, ltb_ℤ, ◌-ℤ◌}
use vcf_salt_operator.Prelude.Dict.{get}
use vcf_salt_operator.Kube.{SaltKeyConfig}
use vcf_salt_operator.Raasconn.{Connection}
use vcf_salt_operator.Controller.Names.{
  annotation_accepted_at, annotation_salt_status, post_accept_delay,
}
use vcf_salt_operator.Controller.Durations.{sub_time, sub_duration}
use vcf_salt_operator.Controller.World.{World, Env}
use vcf_salt_operator.Controller.Run.{done, ticked, ◌>>=◌}
use vcf_salt_operator.Controller.Reconvergence.{first_phase, reconcile_post_accept, in_phase}

time_left :
    (now accepted_at : ℕ)
    → accepted_at ≤ now
    → now < accepted_at + 30000000000
    → (sub_duration post_accept_delay (sub_time now accepted_at)
        ≡ pos (accepted_at + 30000000000 - now))
      × (ltb_ℤ (pos 0) (pos (accepted_at + 30000000000 - now)) ≡ true)
unfolding sub_duration ◌-ℤ◌
time_left now accepted_at past recent = (ground arith, ground arith)

module _ (env : Env) (c : Connection) where
  -- In the first 30 seconds after its key was accepted, a machine in the first phase is not
  -- pinged: the reconcile reads the clock only, and comes back exactly when they are over.
  pub reconcile_post_accept-waits :
      (cfg : SaltKeyConfig) (id : String) (requeue_after : ℤ) (w : World) (accepted_at : ℕ)
      → str_eq id "" ≡ false
      → str_eq (get annotation_salt_status w.vm.annotations) "" ≡ true
      → env.parse_time (get annotation_accepted_at w.vm.annotations) ≡ some accepted_at
      → accepted_at ≤ env.now w.tick
      → env.now w.tick < accepted_at + 30000000000
      → reconcile_post_accept env c cfg id requeue_after w
        ≡ done
            (record { requeue_after = pos (accepted_at + 30000000000 - env.now w.tick) })
            (ticked w)
  unfolding reconcile_post_accept in_phase first_phase ◌>>=◌
  reconcile_post_accept-waits cfg id r w accepted_at n p t past recent =
      let (left, positive) = time_left (env.now w.tick) accepted_at past recent in
      rw (n, p, t, left, positive) refl
