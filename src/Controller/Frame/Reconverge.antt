-- ===== src/Controller/Frame/Reconverge.antt =====
-- The runs behind the first chain, and what they leave alone.
use vcf_salt_operator.Prelude.{ℕ, String, true, ◌≡◌, arith, ◌∷◌, [], ◌++◌, Option, none, some}
use vcf_salt_operator.Prelude.Int.{ℤ}
use vcf_salt_operator.Prelude.Dict.{Dict}
use vcf_salt_operator.Kube.{Vm, SaltKeyConfig}
use vcf_salt_operator.Raasconn.{Connection, DefaultRef}
use vcf_salt_operator.Controller.World.{World, Env}
use vcf_salt_operator.Controller.Run.Keeps.{Keeps, Keeps-on_cache, Keeps-try_write}
use vcf_salt_operator.Controller.Run.{add_finalizer, with_finalizer, try_write}
use vcf_salt_operator.Controller.IntentHash.{adopt_legacy_intent_hash}
use vcf_salt_operator.Controller.Cache.{
  cached_client, store_client, new_client, salt_client_from_config,
}
use vcf_salt_operator.Controller.Reconvergence.{
  handled, restart_first_chain, day2_pillar_failed, day2_dispatch_failed, day2_dispatched,
  day2_dispatch, run_day2, reset_chain, converge, enforce, decide, reconverge, check_reconvergence,
  delay_left, first_phase, in_phase, reconcile_post_accept,
}
use vcf_salt_operator.Controller.OwnWrites.{is_own_write}
use vcf_salt_operator.Controller.OwnWrites.Ignored.{all_own}
use vcf_salt_operator.Controller.Frame.{Frame, frame_rules}
use vcf_salt_operator.Controller.Frame.Chain.{
  master_last_seen-Keeps, master_silence-Keeps, run_ping-Keeps, run_refresh_pillar-Keeps,
  run_dispatch_highstate-Keeps, run_poll_highstate-Keeps, refresh_pillar-Keeps,
  dispatch_highstate-Keeps,
}

all_own-append : (a b : Dict String) → all_own a ≡ true → all_own b ≡ true → all_own (a ++ b) ≡ true
all_own-append [] b ha hb = hb
all_own-append ((k, v) ∷ a) b ha hb = ground (arith, all_own-append a b)

handled-all_own : (token : String) (a : Dict String) → all_own (handled token a) ≡ true
unfolding handled is_own_write
handled-all_own token a = ground arith

module _ {env : Env} {P : World → Type 0} (s : Frame env P) where
  restart_first_chain-Keeps : (token : String) (r : ℤ) → Keeps P (restart_first_chain env token r)
  unfolding restart_first_chain is_own_write
  restart_first_chain-Keeps token r = search (frame_rules, all_own-append, handled-all_own) depth 12

  day2_pillar_failed-Keeps :
      (c : Connection) (markers : Dict String) (before : String) (started : ℕ)
      → all_own markers ≡ true
      → Keeps P (day2_pillar_failed env c markers before started)
  unfolding day2_pillar_failed is_own_write
  day2_pillar_failed-Keeps c markers before started m =
      search (frame_rules, all_own-append, master_silence-Keeps) depth 12

  day2_dispatch-Keeps :
      (c : Connection) (id : String) (markers : Dict String) (r : ℤ)
      → all_own markers ≡ true
      → Keeps P (day2_dispatch env c id markers r)
  unfolding day2_dispatch day2_dispatched day2_dispatch_failed is_own_write
  day2_dispatch-Keeps c id markers r m =
      search (frame_rules, all_own-append, dispatch_highstate-Keeps) depth 14

  run_day2-Keeps :
      (c : Connection) (id : String) (markers : Dict String) (r : ℤ)
      → all_own markers ≡ true
      → Keeps P (run_day2 env c id markers r)
  unfolding run_day2
  run_day2-Keeps c id markers r m =
      search
        (
          frame_rules, master_last_seen-Keeps, refresh_pillar-Keeps, day2_dispatch-Keeps,
          day2_pillar_failed-Keeps,
        )
        depth 9

  converge-Keeps :
      (c : Connection) (id token : String) (a : Dict String) (r : ℤ)
      → Keeps P (converge env c id token a r)
  unfolding converge reset_chain is_own_write
  converge-Keeps c id token a r =
      search (frame_rules, all_own-append, handled-all_own, run_day2-Keeps) depth 12

  enforce-Keeps :
      (c : Connection) (cfg : SaltKeyConfig) (id : String) (vm : Vm) (r : ℤ)
      → Keeps P (enforce env c cfg id vm r)
  unfolding enforce is_own_write
  enforce-Keeps c cfg id vm r = search (frame_rules, converge-Keeps) depth 12

  decide-Keeps :
      (c : Connection) (cfg : SaltKeyConfig) (id : String) (vm : Vm) (r : ℤ)
      → Keeps P (decide env c cfg id vm r)
  unfolding decide
  decide-Keeps c cfg id vm r = search (frame_rules, converge-Keeps, enforce-Keeps)

  adopt_legacy_intent_hash-Keeps : (stored : String) → Keeps P (adopt_legacy_intent_hash env stored)
  unfolding adopt_legacy_intent_hash is_own_write
  adopt_legacy_intent_hash-Keeps stored = search frame_rules depth 9

  check_reconvergence-Keeps :
      (c : Connection) (cfg : SaltKeyConfig) (id : String) (r : ℤ)
      → Keeps P (check_reconvergence env c cfg id r)
  unfolding check_reconvergence reconverge
  check_reconvergence-Keeps c cfg id r =
      search (frame_rules, adopt_legacy_intent_hash-Keeps, restart_first_chain-Keeps, decide-Keeps)
        depth 12

  delay_left-Keeps : (o : Option ℕ) → Keeps P (delay_left env o)
  delay_left-Keeps none = search frame_rules
  delay_left-Keeps (some t) = search frame_rules depth 7

  first_phase-Keeps : (c : Connection) (id : String) (r : ℤ) → Keeps P (first_phase env c id r)
  unfolding first_phase
  first_phase-Keeps c id r = search (frame_rules, delay_left-Keeps, run_ping-Keeps) depth 9

  in_phase-Keeps :
      (c : Connection) (cfg : SaltKeyConfig) (id : String) (vm : Vm) (r : ℤ)
      → Keeps P (in_phase env c cfg id vm r)
  unfolding in_phase
  in_phase-Keeps c cfg id vm r =
      search
        (
          frame_rules, first_phase-Keeps, run_refresh_pillar-Keeps, run_dispatch_highstate-Keeps,
          run_poll_highstate-Keeps, check_reconvergence-Keeps,
        )
        depth 9

  pub reconcile_post_accept-Keeps :
      (c : Connection) (cfg : SaltKeyConfig) (id : String) (r : ℤ)
      → Keeps P (reconcile_post_accept env c cfg id r)
  unfolding reconcile_post_accept
  reconcile_post_accept-Keeps c cfg id r = search (frame_rules, in_phase-Keeps) depth 8

  cached_client-Keeps : (cfg : SaltKeyConfig) → Keeps P (cached_client env cfg)
  unfolding cached_client
  cached_client-Keeps cfg = search (frame_rules, Keeps-on_cache, Frame.stable)

  store_client-Keeps : (cfg : SaltKeyConfig) (c : Connection) → Keeps P (store_client env cfg c)
  unfolding store_client
  store_client-Keeps cfg c = search (frame_rules, Keeps-on_cache, Frame.stable)

  new_client-Keeps : (cfg : SaltKeyConfig) (d : DefaultRef) → Keeps P (new_client env cfg d)
  unfolding new_client
  new_client-Keeps cfg d = search frame_rules depth 12

  pub salt_client_from_config-Keeps :
      (cfg : SaltKeyConfig) (d : DefaultRef) → Keeps P (salt_client_from_config env cfg d)
  unfolding salt_client_from_config
  salt_client_from_config-Keeps cfg d =
      search (frame_rules, cached_client-Keeps, store_client-Keeps, new_client-Keeps) depth 9

  try_finalizer-Keeps : Keeps P (try_write env (with_finalizer env))
  try_finalizer-Keeps = Keeps-try_write s.stable env (with_finalizer env) s.on_finalizer

  pub add_finalizer-Keeps : Keeps P (add_finalizer env)
  unfolding add_finalizer
  add_finalizer-Keeps = search (frame_rules, try_finalizer-Keeps) depth 9
