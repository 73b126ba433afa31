-- ===== src/Tests/Chains.antt =====
-- The first chain of a machine, to its end.
use vcf_salt_operator.Prelude.{◌≡◌, refl, arith, true, [], ◌∷◌}
use vcf_salt_operator.Prelude.Int.{pos}
use vcf_salt_operator.Prelude.Dict.{get}
use vcf_salt_operator.Controller.Names.{annotation_ready}
use vcf_salt_operator.Controller.World.{World, JidResult}
use vcf_salt_operator.Controller.Reconvergence.Progress.{
  AnswersWell, IsSettled, phase, after, reconcile_post_accept_reaches_ready,
}
use vcf_salt_operator.Controller.Phases.{PhaseStep}
use vcf_salt_operator.Controller.Phases.Refinement.{reconcile_post_accept-PhaseStep}
use vcf_salt_operator.Controller.Phases.Runs.{Run, Passed, here, reconciled, Run-ready}
use vcf_salt_operator.Tests.Fixtures.{env, config, connection, world}

abbrev success : JidResult
success = record { retcode = pos 0; success = true; failed_state_ids = [] }

answers_well : AnswersWell env connection "web01" "20260101" success
answers_well = record {
  writes = λ t. refl;
  pings = λ t. refl;
  refreshes = λ t. refl;
  dispatches = λ t. refl;
  completes = λ t. refl;
}

is_settled : IsSettled env 1000
is_settled t = omega arith

abbrev fresh : World
fresh = world (("salt.vcf.io/accepted-at", "t0") ∷ [])

abbrev chained : World
chained = after env connection config "web01" (pos 5) (
    after env connection config "web01" (pos 5) (
      after env connection config "web01" (pos 5)
        (after env connection config "web01" (pos 5) fresh)))

reconcile_post_accept_reaches_ready_example :
    (phase chained ≡ "Ready") × (get annotation_ready chained.vm.annotations ≡ "true")
reconcile_post_accept_reaches_ready_example =
    reconcile_post_accept_reaches_ready env connection config "web01" (pos 5) "20260101" success
      1000 fresh answers_well refl refl refl refl refl is_settled refl

reconcile_post_accept-PhaseStep_example :
    PhaseStep (phase fresh) (phase (after env connection config "web01" (pos 5) fresh))
reconcile_post_accept-PhaseStep_example =
    reconcile_post_accept-PhaseStep env connection config "web01" (pos 5) fresh refl

abbrev pinged : World
pinged = after env connection config "web01" (pos 5) fresh

abbrev refreshed : World
refreshed = after env connection config "web01" (pos 5) pinged

abbrev dispatched : World
dispatched = after env connection config "web01" (pos 5) refreshed

to_ready : Run fresh chained
to_ready =
    reconciled {u = dispatched} env connection config "web01" (pos 5)
      (reconciled {u = refreshed} env connection config "web01" (pos 5)
        (reconciled {u = pinged} env connection config "web01" (pos 5)
          (reconciled {u = fresh} env connection config "web01" (pos 5) here refl) refl)
        refl)
      refl

Run-ready_example :
    Passed fresh ("HighstateDispatched" ∷ ("PillarRefreshed" ∷ ("Pinged" ∷ ("" ∷ [])))) chained
Run-ready_example =
    let ready =
      reconcile_post_accept_reaches_ready env connection config "web01" (pos 5) "20260101" success
        1000 fresh answers_well refl refl refl refl refl is_settled refl in
    Run-ready refl to_ready (ready.0)
