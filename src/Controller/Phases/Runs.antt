-- ===== src/Controller/Phases/Runs.antt =====
-- Sequences of reconciles of an accepted machine, and the phases that it passes through.
use vcf_salt_operator.Prelude.{String, true, ◌≡◌, refl, subst, List, [], ◌∷◌, str_eq}
use vcf_salt_operator.Prelude.{if◌then◌else◌}
use vcf_salt_operator.Prelude.Int.{ℤ}
use vcf_salt_operator.Prelude.Lists.{contains}
use vcf_salt_operator.Kube.{SaltKeyConfig}
use vcf_salt_operator.Raasconn.{Connection}
use vcf_salt_operator.Controller.World.{World, Env}
use vcf_salt_operator.Controller.Run.Keeps.{end}
use vcf_salt_operator.Controller.Reconvergence.{reconcile_post_accept}
use vcf_salt_operator.Controller.Reconvergence.Progress.{phase}
use vcf_salt_operator.Controller.Phases.{
  PhaseStep, stays, ping_answered, ping_given_up, pillar_refreshed_to, pillar_given_up,
  highstate_sent, highstate_refused, highstate_done, highstate_lost, begins_again, day2_sent,
  day2_pillar_lost, day2_refused, known_phases,
}
use vcf_salt_operator.Controller.Phases.Refinement.{reconcile_post_accept-PhaseStep}

-- What comes from a world by reconciles, whatever their calls answer, and by what others do in
-- between, who leave the phase of the machine to the operator.
pub data Run (w : World) : World → Type 0 where
  here : Run w w
  reconciled :
      {u v : World} (env : Env) (c : Connection) (cfg : SaltKeyConfig) (id : String) (r : ℤ)
      → Run w u
      → v ≡ end (reconcile_post_accept env c cfg id r u)
      → Run w v
  edited : {u v : World} → Run w u → phase v ≡ phase u → Run w v

-- A run through machines in the phases of a list, the last one first.
pub data Passed (w : World) : List String → World → Type 0 where
  ran : {v : World} → Run w v → Passed w [] v
  through :
      {ps : List String} {u v : World} (p : String)
      → Passed w ps u
      → phase u ≡ p
      → Run u v
      → Passed w (p ∷ ps) v

-- The phases before a phase of the chain.
abbrev pub earlier : String → List String
earlier p =
    if str_eq p "Pinged"
    then "" ∷ []
    else if str_eq p "PillarRefreshed"
    then "Pinged" ∷ ("" ∷ [])
    else if str_eq p "HighstateDispatched"
    then "PillarRefreshed" ∷ ("Pinged" ∷ ("" ∷ []))
    else if str_eq p "Ready"
    then "HighstateDispatched" ∷ ("PillarRefreshed" ∷ ("Pinged" ∷ ("" ∷ [])))
    else []

Run-append : {w u v : World} → Run w u → Run u v → Run w v
Run-append r here = r
Run-append r (reconciled env c cfg id d s e) = reconciled env c cfg id d (Run-append r s) e
Run-append r (edited s e) = edited (Run-append r s) e

Run-Passed : {w v : World} {ps : List String} → Passed w ps v → Run w v
Run-Passed (ran r) = r
Run-Passed (through p q e r) = Run-append (Run-Passed q) r

Passed-append : {w u v : World} {ps : List String} → Passed w ps u → Run u v → Passed w ps v
Passed-append (ran r) s = ran (Run-append r s)
Passed-append (through p q e r) s = through p q e (Run-append r s)

Passed-tail : {w v : World} {p : String} {ps : List String} → Passed w (p ∷ ps) v → Passed w ps v
Passed-tail (through p q e r) = Passed-append q r

-- One step of the machine of the phases, behind a run.
Passed-step :
    {w u v : World} {p q : String}
    → PhaseStep p q
    → phase u ≡ p
    → Passed w (earlier p) u
    → Run u v
    → Passed w (earlier q) v
Passed-step (stays p) e h r = Passed-append h r
Passed-step ping_answered e h r = through "" h e r
Passed-step ping_given_up e h r = ran (Run-append (Run-Passed h) r)
Passed-step pillar_refreshed_to e h r = through "Pinged" h e r
Passed-step pillar_given_up e h r = ran (Run-append (Run-Passed h) r)
Passed-step highstate_sent e h r = through "PillarRefreshed" h e r
Passed-step highstate_refused e h r = ran (Run-append (Run-Passed h) r)
Passed-step highstate_done e h r = through "HighstateDispatched" h e r
Passed-step highstate_lost e h r = ran (Run-append (Run-Passed h) r)
Passed-step (begins_again p f) e h r = ran (Run-append (Run-Passed h) r)
Passed-step day2_sent e h r = Passed-tail (Passed-append h r)
Passed-step day2_pillar_lost e h r = ran (Run-append (Run-Passed h) r)
Passed-step day2_refused e h r = ran (Run-append (Run-Passed h) r)

PhaseStep-known :
    {p q : String} → PhaseStep p q → contains known_phases p ≡ true → contains known_phases q ≡ true
PhaseStep-known (stays p) h = h
PhaseStep-known ping_answered h = refl
PhaseStep-known ping_given_up h = refl
PhaseStep-known pillar_refreshed_to h = refl
PhaseStep-known pillar_given_up h = refl
PhaseStep-known highstate_sent h = refl
PhaseStep-known highstate_refused h = refl
PhaseStep-known highstate_done h = refl
PhaseStep-known highstate_lost h = refl
PhaseStep-known (begins_again p f) h = refl
PhaseStep-known day2_sent h = refl
PhaseStep-known day2_pillar_lost h = refl
PhaseStep-known day2_refused h = refl

-- A machine in a known phase, behind a run through the phases before it.
record Arrived (w v : World) : Type 0 where
  known : contains known_phases (phase v) ≡ true
  passed : Passed w (earlier (phase v)) v

arrived : {w v : World} → phase w ≡ "" → Run w v → Arrived w v
arrived s here = record { known = rw s refl; passed = rw s (ran here) }
arrived s (reconciled {u} {v} env c cfg id r h e) =
    let before = arrived s h in
    let step : PhaseStep (phase u) (phase v) =
      rw e (reconcile_post_accept-PhaseStep env c cfg id r u before.known) in
    record {
      known = PhaseStep-known step before.known;
      passed = Passed-step step refl before.passed (reconciled env c cfg id r here e);
    }
arrived s (edited {u} {v} h e) =
    let before = arrived s h in
    record {
      known = rw e before.known;
      passed = Passed-append {u = u} (rw e before.passed) (edited here e);
    }

-- Over any sequence of reconciles, whatever their calls answer, and of changes by others that leave
-- the phase alone, an accepted machine that starts in the first phase is Ready only behind a run
-- through the phases Pinged, PillarRefreshed and HighstateDispatched, in this order.
pub Run-ready :
    {w v : World}
    → phase w ≡ ""
    → Run w v
    → phase v ≡ "Ready"
    → Passed w ("HighstateDispatched" ∷ ("PillarRefreshed" ∷ ("Pinged" ∷ ("" ∷ [])))) v
Run-ready {w} {v} s r e = subst (λ p. Passed w (earlier p) v) e ((arrived s r).passed)
