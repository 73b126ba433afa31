-- ===== src/Controller/Phases/Day2.antt =====
-- The phases of a machine behind its first chain: a run that starts again, and the runs of day two.
use vcf_salt_operator.Prelude.{
  ℕ, String, true, false, ◌≡◌, refl, arith, List, [], ◌∷◌, ◌++◌, if◌then◌else◌, Bool-cases, inl,
  inr,
}
use vcf_salt_operator.Prelude.Int.{ℤ}
use vcf_salt_operator.Prelude.Lists.{contains}
use vcf_salt_operator.Prelude.Dict.{Dict}
use vcf_salt_operator.Kube.{Vm, SaltKeyConfig}
use vcf_salt_operator.Raasconn.{Connection}
use vcf_salt_operator.Controller.World.{World, Env}
use vcf_salt_operator.Controller.Run.{finished, ◌>>=◌}
use vcf_salt_operator.Controller.Run.Keeps.{Keeps, end}
use vcf_salt_operator.Controller.IntentHash.{adopt_legacy_intent_hash}
use vcf_salt_operator.Controller.Reconvergence.{
  handled, is_failed, restart_first_chain, day2_pillar_failed, day2_dispatch_failed,
  day2_dispatched, day2_dispatch, run_day2, reset_chain, converge, enforce, decide, reconverge,
  check_reconvergence,
}
use vcf_salt_operator.Controller.Phases.{InPhases, writes_in, phase_rules}
use vcf_salt_operator.Controller.Phases.Steps.{
  master_silence-InPhases, master_last_seen-InPhases, refresh_pillar-InPhases,
  dispatch_highstate-InPhases,
}

writes_in-append :
    (phases : List String) (a b : Dict String)
    → writes_in phases a ≡ true
    → writes_in phases b ≡ true
    → writes_in phases (a ++ b) ≡ true
writes_in-append phases [] b ha hb = hb
writes_in-append phases ((k, v) ∷ a) b ha hb = ground (arith, writes_in-append phases a b)

-- The markers of the triggers are no phases.
handled-writes_in :
    (phases : List String) (token : String) (a : Dict String)
    → writes_in phases (handled token a) ≡ true
unfolding handled
handled-writes_in phases token a = ground arith

-- What the annotations that a reconcile read leave open: a restart, or a run of day two.
pub record Allows (phases : List String) (a : Dict String) : Type 0 where
  pub restart : is_failed a ≡ true → contains phases "" ≡ true
  pub dispatched : is_failed a ≡ false → contains phases "HighstateDispatched" ≡ true
  pub pillar_failed : is_failed a ≡ false → contains phases "Failed/PillarRefresh" ≡ true
  pub dispatch_failed : is_failed a ≡ false → contains phases "Failed/HighstateDispatch" ≡ true

module _ (env : Env) {phases : List String} where
  restart_first_chain-InPhases :
      (token : String) (r : ℤ)
      → contains phases "" ≡ true
      → Keeps (InPhases phases) (restart_first_chain env token r)
  unfolding restart_first_chain
  restart_first_chain-InPhases token r h =
      search (phase_rules, writes_in-append, handled-writes_in) depth 12

  reset_chain-InPhases :
      (token : String) (a : Dict String) (r : ℤ)
      → contains phases "" ≡ true
      → Keeps (InPhases phases) (reset_chain env token a r)
  unfolding reset_chain
  reset_chain-InPhases token a r h =
      search (phase_rules, writes_in-append, handled-writes_in) depth 12

  day2_pillar_failed-InPhases :
      (c : Connection) (markers : Dict String) (before : String) (started : ℕ)
      → writes_in phases markers ≡ true
      → contains phases "Failed/PillarRefresh" ≡ true
      → Keeps (InPhases phases) (day2_pillar_failed env c markers before started)
  unfolding day2_pillar_failed
  day2_pillar_failed-InPhases c markers before started m h =
      search (phase_rules, writes_in-append, master_silence-InPhases) depth 12

  day2_dispatch-InPhases :
      (c : Connection) (id : String) (markers : Dict String) (r : ℤ)
      → writes_in phases markers ≡ true
      → contains phases "HighstateDispatched" ≡ true
      → contains phases "Failed/HighstateDispatch" ≡ true
      → Keeps (InPhases phases) (day2_dispatch env c id markers r)
  unfolding day2_dispatch day2_dispatched day2_dispatch_failed
  day2_dispatch-InPhases c id markers r m h h' =
      search (phase_rules, writes_in-append, dispatch_highstate-InPhases) depth 14

  run_day2-InPhases :
      (c : Connection) (id : String) (markers : Dict String) (r : ℤ)
      → writes_in phases markers ≡ true
      → contains phases "HighstateDispatched" ≡ true
      → contains phases "Failed/PillarRefresh" ≡ true
      → contains phases "Failed/HighstateDispatch" ≡ true
      → Keeps (InPhases phases) (run_day2 env c id markers r)
  unfolding run_day2
  run_day2-InPhases c id markers r m h h' h'' =
      search
        (
          phase_rules, master_last_seen-InPhases, refresh_pillar-InPhases, day2_dispatch-InPhases,
          day2_pillar_failed-InPhases,
        )
        depth 9

  adopt_legacy_intent_hash-InPhases :
      (stored : String) → Keeps (InPhases phases) (adopt_legacy_intent_hash env stored)
  unfolding adopt_legacy_intent_hash
  adopt_legacy_intent_hash-InPhases stored = search phase_rules depth 9

  converge-InPhases :
      (c : Connection) (id token : String) (a : Dict String) (r : ℤ)
      → Allows phases a
      → Keeps (InPhases phases) (converge env c id token a r)
  unfolding converge
  converge-InPhases c id token a r k = elim (Bool-cases (is_failed a)) [
    | inl y ↦ rw y (reset_chain-InPhases token a r (k.restart y))
    | inr n ↦ rw n (
        run_day2-InPhases c id _ r
          (writes_in-append phases (handled token a) _ (handled-writes_in phases token a) refl)
          (k.dispatched n) (k.pillar_failed n) (k.dispatch_failed n))
  ]

  enforce-InPhases :
      (c : Connection) (cfg : SaltKeyConfig) (id : String) (vm : Vm) (r : ℤ)
      → Allows phases vm.annotations
      → Keeps (InPhases phases) (enforce env c cfg id vm r)
  unfolding enforce
  enforce-InPhases c cfg id vm r k = search (phase_rules, converge-InPhases) depth 12

  decide-InPhases :
      (c : Connection) (cfg : SaltKeyConfig) (id : String) (vm : Vm) (r : ℤ)
      → Allows phases vm.annotations
      → Keeps (InPhases phases) (decide env c cfg id vm r)
  unfolding decide
  decide-InPhases c cfg id vm r k =
      search (phase_rules, converge-InPhases, enforce-InPhases) depth 9

  restarted :
      (token : String) (a : Dict String) (r : ℤ)
      → Allows phases a
      → Keeps (InPhases phases) (if is_failed a then restart_first_chain env token r else finished)
  restarted token a r k = elim (Bool-cases (is_failed a)) [
    | inl y ↦ rw y (restart_first_chain-InPhases token r (k.restart y))
    | inr n ↦ rw n (search phase_rules)
  ]

  reconverge-InPhases :
      (c : Connection) (cfg : SaltKeyConfig) (id : String) (vm : Vm) (r : ℤ)
      → Allows phases vm.annotations
      → Keeps (InPhases phases) (reconverge env c cfg id vm r)
  unfolding reconverge
  reconverge-InPhases c cfg id vm r k =
      search (phase_rules, adopt_legacy_intent_hash-InPhases, decide-InPhases, restarted) depth 9

  pub check_reconvergence-InPhases :
      (c : Connection) (cfg : SaltKeyConfig) (id : String) (r : ℤ) (w : World)
      → Allows phases w.vm.annotations
      → InPhases phases w
      → InPhases phases (end (check_reconvergence env c cfg id r w))
  unfolding check_reconvergence ◌>>=◌
  check_reconvergence-InPhases c cfg id r w k h = (reconverge-InPhases c cfg id w.vm r k).at w h
