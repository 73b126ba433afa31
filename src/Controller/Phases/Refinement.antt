-- ===== src/Controller/Phases/Refinement.antt =====
-- The reconciles of an accepted machine, and the machine of its phases.
use vcf_salt_operator.Prelude.{
  String, Bool, true, false, ◌≡◌, refl, sym, subst, arith, List, [], ◌∷◌, str_eq, eq_iff, eq_refl,
  inl, inr, Bool-cases,
}
use vcf_salt_operator.Prelude.Int.{ℤ}
use vcf_salt_operator.Prelude.Lists.{contains, All}
use vcf_salt_operator.Prelude.Dict.{get}
use text.Mathlib.Text.{starts_with}
use vcf_salt_operator.Kube.{SaltKeyConfig}
use vcf_salt_operator.Raasconn.{Connection}
use vcf_salt_operator.Controller.Names.{annotation_highstate_jid}
use vcf_salt_operator.Controller.World.{World, Env}
use vcf_salt_operator.Controller.Run.{◌>>=◌}
use vcf_salt_operator.Controller.Run.Keeps.{end}
use vcf_salt_operator.Controller.Reconvergence.{
  in_phase, reconcile_post_accept, is_failed, check_reconvergence,
}
use vcf_salt_operator.Controller.Reconvergence.Progress.{phase}
use vcf_salt_operator.Controller.Phases.{
  PhaseStep, stays, ping_answered, ping_given_up, pillar_refreshed_to, pillar_given_up,
  highstate_sent, highstate_refused, highstate_done, highstate_lost, begins_again, day2_sent,
  day2_pillar_lost, day2_refused, known_phases, failed_phases, InPhases,
}
use vcf_salt_operator.Controller.Phases.Steps.{
  first_phase-InPhases, run_refresh_pillar-InPhases, run_dispatch_highstate-InPhases,
  run_poll_highstate-InPhases,
}
use vcf_salt_operator.Controller.Phases.Day2.{check_reconvergence-InPhases}

-- What holds of each text of a list holds of each that is in it.
pub contains-All :
    (P : String → Type 0) (ps : List String) (q : String) → contains ps q ≡ true → All P ps → P q
contains-All P [] q h k = absurd (ground arith)
contains-All P (p ∷ ps) q h k = elim (Bool-cases (str_eq p q)) [
  | inl y ↦ subst P ((eq_iff p q).0 y) (k.0)
  | inr n ↦ contains-All P ps q (ground arith) (k.1)
]

module _ (env : Env) (c : Connection) (cfg : SaltKeyConfig) (id : String) (r : ℤ) (w : World) where
  -- What the phase of the machine is, when a reconcile begins, leads to a step.
  abbrev Steps : String → Type 0
  Steps p = p ≡ phase w → PhaseStep p (phase (end (reconcile_post_accept env c cfg id r w)))

  -- A reconcile with no minion ID changes nothing.
  post_accept_in :
      (phases : List String)
      → InPhases phases w
      → InPhases phases (end (in_phase env c cfg id w.vm r w))
      → InPhases phases (end (reconcile_post_accept env c cfg id r w))
  unfolding reconcile_post_accept ◌>>=◌
  post_accept_in phases h k = elim (Bool-cases (str_eq id "")) [ inl y ↦ rw y h | inr n ↦ rw n k ]

  -- The next phases of a phase, each with its step.
  leads :
      (p : String) (next : List String)
      → All (PhaseStep p) next
      → p ≡ phase w
      → (InPhases (p ∷ next) w → InPhases (p ∷ next) (end (in_phase env c cfg id w.vm r w)))
      → PhaseStep p (phase (end (reconcile_post_accept env c cfg id r w)))
  leads p next s e k =
      let here : InPhases (p ∷ next) w = record {
        phase_in = rw (sym e) (ground (arith, eq_refl p));
      } in
      let there = post_accept_in (p ∷ next) here (k here) in
      contains-All (PhaseStep p) (p ∷ next) _ (there.phase_in) (stays p, s)

  from_start : Steps ""
  unfolding in_phase
  from_start e =
      leads "" ("Pinged" ∷ "Failed/Ping" ∷ []) (ping_answered, (ping_given_up, tt)) e
        λ h. rw (sym e) ((first_phase-InPhases env c id r).at w h)

  from_pinged : Steps "Pinged"
  unfolding in_phase
  from_pinged e =
      leads "Pinged" ("PillarRefreshed" ∷ "Failed/PillarRefresh" ∷ [])
        (pillar_refreshed_to, (pillar_given_up, tt)) e
        λ h. rw (sym e) ((run_refresh_pillar-InPhases env c id r).at w h)

  from_refreshed : Steps "PillarRefreshed"
  unfolding in_phase
  from_refreshed e =
      leads "PillarRefreshed" ("HighstateDispatched" ∷ "Failed/HighstateDispatch" ∷ [])
        (highstate_sent, (highstate_refused, tt)) e
        λ h. rw (sym e) ((run_dispatch_highstate-InPhases env c id r).at w h)

  from_dispatched : Steps "HighstateDispatched"
  unfolding in_phase
  from_dispatched e =
      leads "HighstateDispatched" ("Ready" ∷ "Failed/Highstate" ∷ [])
        (highstate_done, (highstate_lost, tt)) e
        λ h.
          let jid = get annotation_highstate_jid w.vm.annotations in
          rw (sym e) ((run_poll_highstate-InPhases env c id jid r).at w h)

  known_failed :
      (p : String) (b : Bool)
      → p ≡ phase w
      → starts_with p "Failed/" ≡ b
      → is_failed w.vm.annotations ≡ b
  known_failed p b e h = subst (λ q. starts_with q "Failed/" ≡ b) e h

  from_ready : Steps "Ready"
  unfolding in_phase
  from_ready e =
      let ready : is_failed w.vm.annotations ≡ false = known_failed "Ready" false e refl in
      leads "Ready"
        ("HighstateDispatched" ∷ "Failed/PillarRefresh" ∷ "Failed/HighstateDispatch" ∷ [])
        (day2_sent, (day2_pillar_lost, (day2_refused, tt))) e
        λ h. rw (sym e) (
          check_reconvergence-InPhases env c cfg id r w
            (record {
              restart = λ y. absurd (ground (arith, ready));
              dispatched = λ n. refl;
              pillar_failed = λ n. refl;
              dispatch_failed = λ n. refl;
            })
            h)

  from_failed :
      (p : String)
      → contains failed_phases p ≡ true
      → starts_with p "Failed/" ≡ true
      → (p ≡ phase w → in_phase env c cfg id w.vm r ≡ check_reconvergence env c cfg id r)
      → Steps p
  from_failed p f s i e =
      let failed : is_failed w.vm.annotations ≡ true = known_failed p true e s in
      leads p ("" ∷ []) (begins_again p f, tt) e
        λ h. rw (i e) (
          check_reconvergence-InPhases env c cfg id r w
            (record {
              restart = λ y. ground (arith, eq_refl "");
              dispatched = λ n. absurd (ground (arith, failed));
              pillar_failed = λ n. absurd (ground (arith, failed));
              dispatch_failed = λ n. absurd (ground (arith, failed));
            })
            h)

  Steps-known : All Steps known_phases
  unfolding in_phase
  Steps-known =
      (from_start, (from_pinged, (from_refreshed, (from_dispatched, (from_ready, steps_failed)))))
    where
      steps_failed : All Steps failed_phases
      steps_failed = (
        from_failed "Failed/Ping" refl refl (λ e. rw (sym e) refl),
        (
          from_failed "Failed/PillarRefresh" refl refl (λ e. rw (sym e) refl),
          (
            from_failed "Failed/HighstateDispatch" refl refl (λ e. rw (sym e) refl),
            (from_failed "Failed/Highstate" refl refl (λ e. rw (sym e) refl), tt),
          ),
        ),
      )

-- Whatever the calls answer, a reconcile of a machine in a phase that the operator writes makes one
-- step of the machine of its phases: in the first chain it stays in its phase, goes on to the next
-- one, or ends as failed in it; behind a failure it stays or begins the chain again; and behind a
-- chain that is done it stays, or a run of day two dispatches a highstate or fails.
pub reconcile_post_accept-PhaseStep :
    (env : Env) (c : Connection) (cfg : SaltKeyConfig) (id : String) (r : ℤ) (w : World)
    → contains known_phases (phase w) ≡ true
    → PhaseStep (phase w) (phase (end (reconcile_post_accept env c cfg id r w)))
reconcile_post_accept-PhaseStep env c cfg id r w h =
    contains-All (Steps env c cfg id r w) known_phases (phase w) h (Steps-known env c cfg id r w)
      refl
