-- ===== src/Enrolment/Rounds.antt =====
-- Reconciles of a namespace whose calls all succeed, one after another.
use vcf_salt_operator.Prelude.{
  ℕ, zero, suc, ◌+◌, ◌≤◌, ◌<◌, String, Bool, true, false, not, ◌&&◌, ◌||◌, ◌≡◌, refl, arith, List,
  [], ◌∷◌, subst, sym, str_eq, eq_refl, Bool-cases, inl, inr, ◌⊎◌, Option, some, none, ltb,
  if◌then◌else◌,
}
use vcf_salt_operator.Prelude.Lists.{In, length}
use vcf_salt_operator.Kube.{SaltKeyConfig}
use vcf_salt_operator.Controller.Names.{managed_by_operator}
use vcf_salt_operator.Controller.Reconcile.{is_enrolled}
use vcf_salt_operator.Enrolment.{
  leave, keep, Answers, Enrolment, Namespace, own_config, own_from, reconcile, enrolled_config,
  without, matches, Left,
}
use vcf_salt_operator.Enrolment.Settles.{own_from-In}

-- Every call succeeds.
abbrev pub succeeding : Answers
succeeding = record { get_error = none; list_error = none; write_error = none }

-- The configurations that so many reconciles leave.
pub rounds : Enrolment → Namespace → ℕ → List SaltKeyConfig → List SaltKeyConfig
rounds e ns zero cfgs = cfgs
rounds e ns (suc n) cfgs = rounds e ns n (Left.configs (reconcile succeeding e ns cfgs))

abbrev pub none_own : List SaltKeyConfig → Bool
none_own [] = true
none_own (c ∷ cfgs) = not (is_enrolled c) && none_own cfgs

-- A configuration of the operator and no other, with the acceptance of the enrolment if it has one.
abbrev pub single_own : Enrolment → List SaltKeyConfig → Bool
single_own e [] = false
single_own e (c ∷ []) =
    is_enrolled c && (str_eq e.key_acceptance "" || str_eq c.spec.key_acceptance e.key_acceptance)
single_own e (c ∷ (d ∷ cfgs)) = false

-- An enrolled namespace has one configuration of the operator and no other, or some that are not the
-- operator's and none that is; a namespace that is not enrolled has none of the operator's.
abbrev pub settled : Enrolment → Namespace → List SaltKeyConfig → Bool
settled e ns cfgs =
    if matches e ns
    then single_own e cfgs || (none_own cfgs && ltb 0 (length cfgs))
    else none_own cfgs

abbrev owned : List SaltKeyConfig → ℕ
owned [] = 0
owned (c ∷ cfgs) = (if is_enrolled c then 1 else 0) + owned cfgs

own_from-none :
    (cfgs : List SaltKeyConfig) (f : Option SaltKeyConfig)
    → none_own cfgs ≡ true
    → own_from f cfgs ≡ f
own_from-none [] f h = refl
own_from-none (c ∷ cfgs) f h =
    let other : is_enrolled c ≡ false = ground arith in
    rw other (own_from-none cfgs f (ground arith))

none_from-own : (cfgs : List SaltKeyConfig) (c : SaltKeyConfig) → own_from (some c) cfgs ≡ none → ⊥
none_from-own [] c h = ground arith
none_from-own (d ∷ cfgs) c h = elim (Bool-cases (is_enrolled d)) [
  | inl y ↦ none_from-own cfgs d (rw y at h)
  | inr n ↦ none_from-own cfgs c (rw n at h)
]

none_own-own_from : (cfgs : List SaltKeyConfig) → own_from none cfgs ≡ none → none_own cfgs ≡ true
none_own-own_from [] h = refl
none_own-own_from (c ∷ cfgs) h = elim (Bool-cases (is_enrolled c)) [
  | inl y ↦ absurd (none_from-own cfgs c (rw y at h))
  | inr n ↦ rw n (none_own-own_from cfgs (rw n at h))
]

-- A deletion by name takes away one of the operator's at least.
owned-without : (name : String) (cfgs : List SaltKeyConfig) → owned (without name cfgs) ≤ owned cfgs
owned-without name [] = omega arith
owned-without name (c ∷ cfgs) = ground (arith, owned-without name cfgs)

owned-deleted :
    (own : SaltKeyConfig) (cfgs : List SaltKeyConfig)
    → In own cfgs
    → is_enrolled own ≡ true
    → owned (without own.name cfgs) < owned cfgs
owned-deleted own [] i h = elim i [ ]
owned-deleted own (c ∷ cfgs) (inl e) h =
    subst (λ x. owned (without own.name (x ∷ cfgs)) < owned (x ∷ cfgs)) e
      (rw (eq_refl own.name, h) (ground (arith, owned-without own.name cfgs)))
owned-deleted own (c ∷ cfgs) (inr i) h = ground (arith, owned-deleted own cfgs i h)

own_config-deleted :
    (own : SaltKeyConfig) (cfgs : List SaltKeyConfig)
    → own_config cfgs ≡ some own
    → owned (without own.name cfgs) < owned cfgs
unfolding own_config
own_config-deleted own cfgs h = elim (own_from-In none cfgs h) [
  | inl x ↦ absurd (ground arith)
  | inr (i, m) ↦ owned-deleted own cfgs i m
]

module _ (e : Enrolment) (ns : Namespace) where
  -- Whether a namespace is settled, or has fewer of the operator's configurations than before.
  abbrev Progress : List SaltKeyConfig → List SaltKeyConfig → Type 0
  Progress cfgs next = (settled e ns next ≡ true) ⊎ (owned next < owned cfgs)

  leave-Progress :
      (cfgs : List SaltKeyConfig) (own : Option SaltKeyConfig)
      → own_config cfgs ≡ own
      → matches e ns ≡ false
      → Progress cfgs (leave succeeding e own cfgs).configs
  unfolding own_config
  leave-Progress cfgs none h m = inl (rw (m) (none_own-own_from cfgs h))
  leave-Progress cfgs (some own) h m = inr (own_config-deleted own cfgs h)

  patched_single :
      (c own : SaltKeyConfig)
      → is_enrolled c ≡ true
      → c ≡ own
      → single_own e ((keep succeeding e ns (some own) (c ∷ [])).configs) ≡ true
  patched_single c own h s =
      subst (λ x. single_own e ((keep succeeding e ns (some x) (c ∷ [])).configs) ≡ true) s
        (ground (arith, eq_refl c.name, eq_refl e.key_acceptance))

  keep-Progress :
      (cfgs : List SaltKeyConfig) (own : Option SaltKeyConfig)
      → own_config cfgs ≡ own
      → matches e ns ≡ true
      → Progress cfgs (keep succeeding e ns own cfgs).configs
  unfolding own_config enrolled_config
  keep-Progress [] none h m =
      inl (ground (arith, eq_refl e.key_acceptance, eq_refl managed_by_operator))
  keep-Progress (c ∷ cfgs) none h m = inl (ground (arith, none_own-own_from (c ∷ cfgs) h))
  keep-Progress [] (some own) h m = absurd (ground arith)
  keep-Progress (c ∷ []) (some own) h m = elim (own_from-In none (c ∷ []) h) [
    | inl x ↦ absurd (ground arith)
    | inr (inl s, made) ↦ inl (
        rw m
          (ground (arith, patched_single c own (subst (λ x. is_enrolled x ≡ true) s made) (sym s))))
    | inr (inr x, made) ↦ elim x [ ]
  ]
  keep-Progress (c ∷ (d ∷ cfgs)) (some own) h m =
      inr (ground (arith, own_config-deleted own (c ∷ (d ∷ cfgs)) h))

  module _ (stays : ns.deleting ≡ false) where
    reconcile-keep :
        (cfgs : List SaltKeyConfig)
        → matches e ns ≡ true
        → (keep succeeding e ns (own_config cfgs) cfgs).configs
          ≡ (reconcile succeeding e ns cfgs).configs
    unfolding reconcile
    reconcile-keep cfgs m = ground arith

    reconcile-leave :
        (cfgs : List SaltKeyConfig)
        → matches e ns ≡ false
        → (leave succeeding e (own_config cfgs) cfgs).configs
          ≡ (reconcile succeeding e ns cfgs).configs
    unfolding reconcile
    reconcile-leave cfgs n = ground arith

    reconcile-Progress :
        (cfgs : List SaltKeyConfig) → Progress cfgs (reconcile succeeding e ns cfgs).configs
    reconcile-Progress cfgs = elim (Bool-cases (matches e ns)) [
      | inl m ↦
          subst (Progress cfgs) (reconcile-keep cfgs m)
            (keep-Progress cfgs (own_config cfgs) refl m)
      | inr n ↦
          subst (Progress cfgs) (reconcile-leave cfgs n)
            (leave-Progress cfgs (own_config cfgs) refl n)
    ]

    single_own-stays :
        (cfgs : List SaltKeyConfig)
        → single_own e cfgs ≡ true
        → (keep succeeding e ns (own_config cfgs) cfgs).configs ≡ cfgs
    unfolding own_config
    single_own-stays [] h = absurd (ground arith)
    single_own-stays (c ∷ []) h = ground arith
    single_own-stays (c ∷ (d ∷ cfgs)) h = absurd (ground arith)

    none_own-stays :
        (cfgs : List SaltKeyConfig)
        → none_own cfgs ≡ true
        → ltb 0 (length cfgs) ≡ true
        → (keep succeeding e ns (own_config cfgs) cfgs).configs ≡ cfgs
    unfolding own_config
    none_own-stays cfgs h l = rw (own_from-none cfgs none h, l) refl

    -- A settled namespace stays as it is.
    settled-stays :
        (cfgs : List SaltKeyConfig)
        → settled e ns cfgs ≡ true
        → (reconcile succeeding e ns cfgs).configs ≡ cfgs
    unfolding reconcile own_config
    settled-stays cfgs h =
        ground (arith, single_own-stays cfgs, none_own-stays cfgs, own_from-none cfgs none)

    rounds-stays :
        (n : ℕ) (cfgs : List SaltKeyConfig) → settled e ns cfgs ≡ true → rounds e ns n cfgs ≡ cfgs
    unfolding rounds
    rounds-stays zero cfgs h = refl
    rounds-stays (suc n) cfgs h = rw (settled-stays cfgs h) (rounds-stays n cfgs h)

    rounds_settle :
        (n : ℕ) (cfgs : List SaltKeyConfig)
        → owned cfgs < n
        → settled e ns (rounds e ns n cfgs) ≡ true
    unfolding rounds
    rounds_settle zero cfgs h = absurd (omega arith)
    rounds_settle (suc n) cfgs h = elim (reconcile-Progress cfgs) [
      | inl s ↦ rw (rounds-stays n _ s) s
      | inr less ↦ rounds_settle n _ (omega (arith, less, h))
    ]

owned_bound : (cfgs : List SaltKeyConfig) → owned cfgs ≤ length cfgs
owned_bound [] = omega arith
owned_bound (c ∷ cfgs) = ground (arith, owned_bound cfgs)

-- Where every call succeeds, a namespace that is not being deleted is settled after one reconcile
-- more than it has configurations, and every further one leaves it as it is: if it is enrolled, with
-- one configuration of the operator alone, which has the key acceptance of the enrolment where that
-- is set, or with some that are not the operator's and none that is; else with none of the
-- operator's.
pub rounds-settled :
    (e : Enrolment) (ns : Namespace) (more : ℕ) (cfgs : List SaltKeyConfig)
    → ns.deleting ≡ false
    → let final = rounds e ns (suc (length cfgs)) cfgs in
      (settled e ns final ≡ true) × (rounds e ns more final ≡ final)
rounds-settled e ns more cfgs stays =
    let done =
      rounds_settle e ns stays (suc (length cfgs)) cfgs (ground (arith, owned_bound cfgs)) in
    (done, rounds-stays e ns stays more _ done)
