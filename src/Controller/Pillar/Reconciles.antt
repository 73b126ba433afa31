-- ===== src/Controller/Pillar/Reconciles.antt =====
-- The order of refresh and highstate, in the day-2 runs and behind the acceptance.
use vcf_salt_operator.Prelude.{ℕ, String, Bool, true, false, ◌≡◌, refl, arith, ◌∷◌, [], ◌++◌}
use vcf_salt_operator.Prelude.{if◌then◌else◌, Option, none, some}
use vcf_salt_operator.Prelude.Int.{ℤ}
use vcf_salt_operator.Prelude.Dict.{Dict}
use vcf_salt_operator.Kube.{Vm, SaltKeyConfig}
use vcf_salt_operator.Raasconn.{Connection, DefaultRef}
use vcf_salt_operator.Controller.World.{World, Env, logged_in}
use vcf_salt_operator.Controller.Run.{
  M, noted, current_vm, try_write, add_finalizer, with_finalizer, ◌>>=◌,
}
use vcf_salt_operator.Controller.Run.Keeps.{Keeps, Keeps-try_write, Keeps-on_cache, end}
use vcf_salt_operator.Controller.Pillar.{
  PillarFirst, PillarFirst-stable, arrives, fresh, in_pillar_phase,
}
use vcf_salt_operator.Controller.Pillar.Steps.{
  pillar_rules, note-Keeps, master_last_seen-Keeps, master_silence-Keeps, run_ping-Keeps,
  run_refresh_pillar-Keeps, run_dispatch_highstate-UsesFresh, run_poll_highstate-Keeps,
  refresh_pillar-bind, dispatch_highstate-bind, UsesFresh,
}
use vcf_salt_operator.Controller.Chain.{run_dispatch_highstate}
use vcf_salt_operator.Controller.IntentHash.{adopt_legacy_intent_hash}
use vcf_salt_operator.Controller.Cache.{
  cached_client, store_client, new_client, salt_client_from_config,
}
use vcf_salt_operator.Controller.Reconvergence.{
  handled, restart_first_chain, day2_pillar_failed, day2_dispatch_failed, day2_dispatched,
  day2_dispatch, run_day2, reset_chain, converge, enforce, decide, reconverge, check_reconvergence,
  delay_left, first_phase, in_phase, reconcile_post_accept,
}

pub arrives-append :
    (a b : Dict String) → arrives a ≡ false → arrives b ≡ false → arrives (a ++ b) ≡ false
arrives-append [] b ha hb = hb
arrives-append ((k, v) ∷ a) b ha hb = ground (arith, arrives-append a b)

pub handled-arrives : (token : String) (a : Dict String) → arrives (handled token a) ≡ false
unfolding handled
handled-arrives token a = ground arith

-- What follows a read of the machine may use that it was read from the world.
current_vm-bind :
    {B : Type 0} (f : Vm → M B)
    → ((w : World) → PillarFirst w → PillarFirst (end (f w.vm w)))
    → Keeps PillarFirst (current_vm >>= f)
unfolding ◌>>=◌
current_vm-bind f k = record { at = λ w h. k w h }

-- The phase behind a refresh means that the pillar is fresh.
phase-fresh :
    (w : World) → in_pillar_phase w.vm.annotations ≡ true → PillarFirst w → fresh w.trace ≡ true
phase-fresh w p h = ground arith

-- `m` keeps the order at one world.
record KeptAt {B : Type 0} (m : M B) (w : World) : Type 0 where
  at : PillarFirst (end (m w))

KeptAt-of_Keeps :
    {B : Type 0} {m : M B} (w : World) → PillarFirst w → Keeps PillarFirst m → KeptAt m w
KeptAt-of_Keeps w h k = record { at = k.at w h }

-- A branch may use its test.
KeptAt-if :
    {B : Type 0} (b : Bool) (m n : M B) (w : World)
    → (b ≡ true → KeptAt m w)
    → KeptAt n w
    → KeptAt (if b then m else n) w
KeptAt-if true m n w p q = p refl
KeptAt-if false m n w p q = q

module _ (env : Env) where
  restart_first_chain-Keeps :
      (token : String) (r : ℤ) → Keeps PillarFirst (restart_first_chain env token r)
  unfolding restart_first_chain
  restart_first_chain-Keeps token r =
      search (pillar_rules, arrives-append, handled-arrives) depth 12

  day2_pillar_failed-Keeps :
      (c : Connection) (markers : Dict String) (before : String) (started : ℕ)
      → arrives markers ≡ false
      → Keeps PillarFirst (day2_pillar_failed env c markers before started)
  unfolding day2_pillar_failed
  day2_pillar_failed-Keeps c markers before started m =
      search (pillar_rules, arrives-append, master_silence-Keeps) depth 12

  day2_dispatch_failed-Keeps :
      (markers : Dict String)
      → arrives markers ≡ false
      → Keeps PillarFirst (day2_dispatch_failed env markers)
  unfolding day2_dispatch_failed
  day2_dispatch_failed-Keeps markers m = search (pillar_rules, arrives-append) depth 12

  day2_dispatched-Keeps :
      (markers : Dict String) (jid : String) (r : ℤ)
      → arrives markers ≡ false
      → Keeps PillarFirst (day2_dispatched env markers jid r)
  unfolding day2_dispatched
  day2_dispatched-Keeps markers jid r m = search (pillar_rules, arrives-append) depth 12

  day2_dispatch-UsesFresh :
      (c : Connection) (id : String) (markers : Dict String) (r : ℤ)
      → arrives markers ≡ false
      → UsesFresh (day2_dispatch env c id markers r)
  unfolding day2_dispatch
  day2_dispatch-UsesFresh c id markers r m =
      search
        (pillar_rules, dispatch_highstate-bind, day2_dispatched-Keeps, day2_dispatch_failed-Keeps)
        depth 8

  run_day2-Keeps :
      (c : Connection) (id : String) (markers : Dict String) (r : ℤ)
      → arrives markers ≡ false
      → Keeps PillarFirst (run_day2 env c id markers r)
  unfolding run_day2
  run_day2-Keeps c id markers r m =
      search
        (
          pillar_rules, master_last_seen-Keeps, refresh_pillar-bind, day2_dispatch-UsesFresh,
          day2_pillar_failed-Keeps,
        )
        depth 9

  converge-Keeps :
      (c : Connection) (id token : String) (a : Dict String) (r : ℤ)
      → Keeps PillarFirst (converge env c id token a r)
  unfolding converge reset_chain
  converge-Keeps c id token a r =
      search (pillar_rules, arrives-append, handled-arrives, run_day2-Keeps) depth 12

  enforce-Keeps :
      (c : Connection) (cfg : SaltKeyConfig) (id : String) (vm : Vm) (r : ℤ)
      → Keeps PillarFirst (enforce env c cfg id vm r)
  unfolding enforce
  enforce-Keeps c cfg id vm r = search (pillar_rules, converge-Keeps) depth 12

  decide-Keeps :
      (c : Connection) (cfg : SaltKeyConfig) (id : String) (vm : Vm) (r : ℤ)
      → Keeps PillarFirst (decide env c cfg id vm r)
  unfolding decide
  decide-Keeps c cfg id vm r = search (pillar_rules, converge-Keeps, enforce-Keeps)

  adopt_legacy_intent_hash-Keeps :
      (stored : String) → Keeps PillarFirst (adopt_legacy_intent_hash env stored)
  unfolding adopt_legacy_intent_hash
  adopt_legacy_intent_hash-Keeps stored = search pillar_rules depth 9

  check_reconvergence-Keeps :
      (c : Connection) (cfg : SaltKeyConfig) (id : String) (r : ℤ)
      → Keeps PillarFirst (check_reconvergence env c cfg id r)
  unfolding check_reconvergence reconverge
  check_reconvergence-Keeps c cfg id r =
      search (pillar_rules, adopt_legacy_intent_hash-Keeps, restart_first_chain-Keeps, decide-Keeps)
        depth 12

  delay_left-Keeps : (o : Option ℕ) → Keeps PillarFirst (delay_left env o)
  delay_left-Keeps none = search pillar_rules
  delay_left-Keeps (some t) = search pillar_rules depth 7

  first_phase-Keeps :
      (c : Connection) (id : String) (r : ℤ) → Keeps PillarFirst (first_phase env c id r)
  unfolding first_phase
  first_phase-Keeps c id r = search (pillar_rules, delay_left-Keeps, run_ping-Keeps) depth 9

  dispatch-KeptAt :
      (c : Connection) (id : String) (r : ℤ) (w : World)
      → PillarFirst w
      → in_pillar_phase w.vm.annotations ≡ true
      → KeptAt (run_dispatch_highstate env c id r) w
  dispatch-KeptAt c id r w h p = record {
    at = (run_dispatch_highstate-UsesFresh env c id r).at w h (phase-fresh w p h);
  }

  in_phase-KeptAt :
      (c : Connection) (cfg : SaltKeyConfig) (id : String) (r : ℤ) (w : World)
      → PillarFirst w
      → KeptAt (in_phase env c cfg id w.vm r) w
  unfolding in_phase
  in_phase-KeptAt c cfg id r w h =
      search
        (
          KeptAt-if, KeptAt-of_Keeps, dispatch-KeptAt, first_phase-Keeps, run_refresh_pillar-Keeps,
          run_poll_highstate-Keeps, check_reconvergence-Keeps,
        )
        depth 8

  in_phase-PillarFirst :
      (c : Connection) (cfg : SaltKeyConfig) (id : String) (r : ℤ) (w : World)
      → PillarFirst w
      → PillarFirst (end (in_phase env c cfg id w.vm r w))
  in_phase-PillarFirst c cfg id r w h = (in_phase-KeptAt c cfg id r w h).at

  pub reconcile_post_accept-Keeps :
      (c : Connection) (cfg : SaltKeyConfig) (id : String) (r : ℤ)
      → Keeps PillarFirst (reconcile_post_accept env c cfg id r)
  unfolding reconcile_post_accept
  reconcile_post_accept-Keeps c cfg id r =
      search (pillar_rules, current_vm-bind, in_phase-PillarFirst)

  cached_client-Keeps : (cfg : SaltKeyConfig) → Keeps PillarFirst (cached_client env cfg)
  unfolding cached_client
  cached_client-Keeps cfg = search (pillar_rules, Keeps-on_cache, PillarFirst-stable)

  store_client-Keeps :
      (cfg : SaltKeyConfig) (c : Connection) → Keeps PillarFirst (store_client env cfg c)
  unfolding store_client
  store_client-Keeps cfg c = search (pillar_rules, Keeps-on_cache, PillarFirst-stable)

  logged_in-PillarFirst : (w : World) → PillarFirst w → PillarFirst (noted logged_in w)
  logged_in-PillarFirst w h = ground arith

  new_client-Keeps :
      (cfg : SaltKeyConfig) (d : DefaultRef) → Keeps PillarFirst (new_client env cfg d)
  unfolding new_client
  new_client-Keeps cfg d = search (pillar_rules, note-Keeps, logged_in-PillarFirst) depth 12

  pub salt_client_from_config-Keeps :
      (cfg : SaltKeyConfig) (d : DefaultRef) → Keeps PillarFirst (salt_client_from_config env cfg d)
  unfolding salt_client_from_config
  salt_client_from_config-Keeps cfg d =
      search (pillar_rules, cached_client-Keeps, store_client-Keeps, new_client-Keeps) depth 9

  try_finalizer-Keeps : Keeps PillarFirst (try_write env (with_finalizer env))
  try_finalizer-Keeps =
      Keeps-try_write PillarFirst-stable env (with_finalizer env) (λ w h. ground arith)

  pub add_finalizer-Keeps : Keeps PillarFirst (add_finalizer env)
  unfolding add_finalizer
  add_finalizer-Keeps = search (pillar_rules, try_finalizer-Keeps) depth 9
