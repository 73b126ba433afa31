-- ===== src/Controller/Phases.antt =====
-- virtualmachine_controller.go: the phases of a machine whose key is accepted, as a machine of their
-- own.
pub mod Steps
pub mod Day2
pub mod Refinement
pub mod Runs
use vcf_salt_operator.Prelude.{
  ℕ, String, Bool, true, false, ◌≡◌, refl, arith, List, [], ◌∷◌, str_eq, if◌then◌else◌, eq_iff,
  eq_refl,
}
use vcf_salt_operator.Prelude.Lists.{contains}
use vcf_salt_operator.Prelude.Dict.{Dict, get, copy_into}
use vcf_salt_operator.Controller.Names.{annotation_salt_status}
use vcf_salt_operator.Controller.World.{World, Env, EventType}
use vcf_salt_operator.Controller.Run.{
  M, ask, record_event, patch_annotations, write, with_annotations, ◌>>=◌,
}
use vcf_salt_operator.Controller.Run.Keeps.{
  Keeps, IsStable, keeps_rules, Keeps-ask, Keeps-record_event, Keeps-try_write, Keeps-bind,
  Keeps-of_error,
}

-- The phases that end a chain with a failure.
abbrev pub failed_phases : List String
failed_phases =
    "Failed/Ping" ∷ "Failed/PillarRefresh" ∷ "Failed/HighstateDispatch" ∷ "Failed/Highstate" ∷ []

-- The phases that the operator writes.
abbrev pub known_phases : List String
known_phases = "" ∷ "Pinged" ∷ "PillarRefreshed" ∷ "HighstateDispatched" ∷ "Ready" ∷ failed_phases

-- What one reconcile may do to the phase of a machine whose key is accepted: the first chain, a run
-- that starts the chain again after a failure, and the runs of day two.
pub data PhaseStep : String → String → Type 0 where
  stays : (p : String) → PhaseStep p p
  ping_answered : PhaseStep "" "Pinged"
  ping_given_up : PhaseStep "" "Failed/Ping"
  pillar_refreshed_to : PhaseStep "Pinged" "PillarRefreshed"
  pillar_given_up : PhaseStep "Pinged" "Failed/PillarRefresh"
  highstate_sent : PhaseStep "PillarRefreshed" "HighstateDispatched"
  highstate_refused : PhaseStep "PillarRefreshed" "Failed/HighstateDispatch"
  highstate_done : PhaseStep "HighstateDispatched" "Ready"
  highstate_lost : PhaseStep "HighstateDispatched" "Failed/Highstate"
  begins_again : (p : String) → contains failed_phases p ≡ true → PhaseStep p ""
  day2_sent : PhaseStep "Ready" "HighstateDispatched"
  day2_pillar_lost : PhaseStep "Ready" "Failed/PillarRefresh"
  day2_refused : PhaseStep "Ready" "Failed/HighstateDispatch"

-- The phase is one of a list.
pub record InPhases (phases : List String) (w : World) : Type 0 where
  pub phase_in : contains phases (get annotation_salt_status w.vm.annotations) ≡ true

pub InPhases-stable : (phases : List String) → IsStable (InPhases phases)
InPhases-stable phases = record {
  tick = λ w h. record { phase_in = h.phase_in };
  on_event = λ k r w h. record { phase_in = h.phase_in };
  on_entries = λ e w h. record { phase_in = h.phase_in };
}

-- Whether a patch writes no other phase.
abbrev pub writes_in : List String → Dict String → Bool
writes_in phases [] = true
writes_in phases ((k, v) ∷ a) =
    if str_eq k annotation_salt_status then contains phases v else writes_in phases a

copied_in :
    (phases : List String) (a m : Dict String)
    → writes_in phases a ≡ true
    → contains phases (get annotation_salt_status m) ≡ true
    → contains phases (get annotation_salt_status (copy_into a m)) ≡ true
copied_in phases [] m h p = p
copied_in phases ((k, v) ∷ a) m h p = ground (arith, copied_in phases a m)

module _ {phases : List String} where
  pub ask-InPhases : {A : Type 0} (f : ℕ → A) → Keeps (InPhases phases) (ask f)
  ask-InPhases f = Keeps-ask (InPhases-stable phases) f

  pub record_event-InPhases :
      (k : EventType) (r : String) → Keeps (InPhases phases) (record_event k r)
  record_event-InPhases k r = Keeps-record_event (InPhases-stable phases) k r

  pub patch_annotations-InPhases :
      (env : Env) (a : Dict String)
      → writes_in phases a ≡ true
      → Keeps (InPhases phases) (patch_annotations env a)
  unfolding patch_annotations write
  patch_annotations-InPhases env a e =
      Keeps-bind _ _
        (Keeps-try_write (InPhases-stable phases) env _
          (λ w h. record { phase_in = copied_in phases a w.vm.annotations e (h.phase_in) }))
        (λ o. Keeps-of_error o)

pub ruleset phase_rules =
    (keeps_rules, ask-InPhases, record_event-InPhases, patch_annotations-InPhases, refl)
