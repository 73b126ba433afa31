-- ===== src/Controller/Frame/Keys.antt =====
-- The ways to a key, and what they leave alone.
use vcf_salt_operator.Prelude.{ℕ, String, Bool, Option, none, some}
use vcf_salt_operator.Prelude.Int.{ℤ}
use vcf_salt_operator.Kube.{Vm, SaltKeyConfig}
use vcf_salt_operator.Raasconn.{Connection, DefaultRef}
use vcf_salt_operator.Salt.Matcher.{MatchResult}
use vcf_salt_operator.Salt.Client.{KeyPair}
use vcf_salt_operator.Controller.World.{World, Env, Bootstrap}
use vcf_salt_operator.Controller.Run.Keeps.{
  Keeps, Keeps-if, Keeps-return, Keeps-try_write, Keeps-bind, Keeps-of_error,
}
use vcf_salt_operator.Controller.Preseed.{
  since_vsphere_create, since_option, write_bootstrap_secret, minion_id_owner, require_pair,
  generate_key, refuse_minion_id, run_preseed_key, mark_preseed_accepted,
}
use vcf_salt_operator.Controller.Accept.{
  mark_accepted, accept_match, mark_timed_out, await_match, run_accept_key,
}
use vcf_salt_operator.Controller.Create.{
  clear_used_key, mark_not_running, preseed, discover, await_key, accepted, reconcile_create,
}
use vcf_salt_operator.Controller.OwnWrites.{is_own_write}
use vcf_salt_operator.Controller.Frame.{Frame, frame_rules}
use vcf_salt_operator.Controller.Frame.Chain.{clear_preseed_key-Keeps}
use vcf_salt_operator.Controller.Frame.Reconverge.{
  add_finalizer-Keeps, salt_client_from_config-Keeps, reconcile_post_accept-Keeps,
}

module _ {env : Env} {P : World → Type 0} (s : Frame env P) where
  since_option-Keeps : (o : Option ℕ) → Keeps P (since_option env o)
  since_option-Keeps none = search frame_rules
  since_option-Keeps (some t) = search frame_rules depth 9

  since_vsphere_create-Keeps : (vm : Vm) → Keeps P (since_vsphere_create env vm)
  unfolding since_vsphere_create
  since_vsphere_create-Keeps vm = since_option-Keeps _

  write_bootstrap_secret-Keeps : (b : Bootstrap) → Keeps P (write_bootstrap_secret env b)
  unfolding write_bootstrap_secret
  write_bootstrap_secret-Keeps b =
      let try = Keeps-try_write s.stable env _ (s.on_secret b) in
      Keeps-bind _ _ try
        λ o. Keeps-bind _ _ (Keeps-if _ _ _ try (Keeps-return o)) λ p. Keeps-of_error _

  require_pair-Keeps : (o : Option KeyPair) → Keeps P (require_pair env o)
  require_pair-Keeps none = search frame_rules
  require_pair-Keeps (some p) = search frame_rules

  generate_key-Keeps : (c : Connection) (id : String) (r : ℤ) → Keeps P (generate_key env c id r)
  unfolding generate_key is_own_write
  generate_key-Keeps c id r =
      search (frame_rules, require_pair-Keeps, write_bootstrap_secret-Keeps, add_finalizer-Keeps)
        depth 22

  minion_id_owner-Keeps : (vm : Vm) (id : String) → Keeps P (minion_id_owner env vm id)
  unfolding minion_id_owner
  minion_id_owner-Keeps vm id = search frame_rules depth 8

  refuse_minion_id-Keeps : Keeps P (refuse_minion_id env)
  unfolding refuse_minion_id is_own_write
  refuse_minion_id-Keeps = search frame_rules depth 8

  run_preseed_key-Keeps : (c : Connection) (r : ℤ) → Keeps P (run_preseed_key env c r)
  unfolding run_preseed_key
  run_preseed_key-Keeps c r =
      search (frame_rules, minion_id_owner-Keeps, refuse_minion_id-Keeps, generate_key-Keeps) depth
        9

  mark_preseed_accepted-Keeps : (r : ℤ) → Keeps P (mark_preseed_accepted env r)
  unfolding mark_preseed_accepted is_own_write
  mark_preseed_accepted-Keeps r = search frame_rules depth 9

  accept_match-Keeps : (c : Connection) (m : MatchResult) (r : ℤ) → Keeps P (accept_match env c m r)
  unfolding accept_match mark_accepted is_own_write
  accept_match-Keeps c m r = search (frame_rules, add_finalizer-Keeps) depth 14

  await_match-Keeps : (t r : ℤ) → Keeps P (await_match env t r)
  unfolding await_match mark_timed_out is_own_write
  await_match-Keeps t r = search (frame_rules, since_vsphere_create-Keeps) depth 12

  run_accept_key-Keeps :
      (c : Connection) (ip : String) (t r : ℤ) → Keeps P (run_accept_key env c ip t r)
  unfolding run_accept_key
  run_accept_key-Keeps c ip t r =
      search (frame_rules, accept_match-Keeps, await_match-Keeps) depth 9

  module _ (d : DefaultRef) (cfg : SaltKeyConfig) where
    await_key-Keeps : (vm : Vm) (b : Bool) → Keeps P (await_key env d cfg vm b)
    unfolding await_key preseed discover mark_not_running is_own_write
    await_key-Keeps vm b =
        search
          (
            frame_rules, salt_client_from_config-Keeps, run_preseed_key-Keeps, run_accept_key-Keeps,
            mark_preseed_accepted-Keeps,
          )
          depth 12

    accepted-Keeps : Keeps P (accepted env d cfg)
    unfolding accepted
    accepted-Keeps =
        search
          (
            frame_rules, add_finalizer-Keeps, salt_client_from_config-Keeps,
            reconcile_post_accept-Keeps,
          )
          depth 9

    pub reconcile_create-Keeps : Keeps P (reconcile_create env d cfg)
    unfolding reconcile_create clear_used_key
    reconcile_create-Keeps =
        search
          (
            frame_rules, since_vsphere_create-Keeps, clear_preseed_key-Keeps, await_key-Keeps,
            accepted-Keeps,
          )
          depth 12
