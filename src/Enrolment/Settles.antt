-- ===== src/Enrolment/Settles.antt =====
-- What reconciles of a namespace lead to.
use vcf_salt_operator.Prelude.{
  String, Bool, true, false, not, ◌&&◌, ◌||◌, ◌≡◌, refl, arith, List, [], ◌∷◌, map,
}
use vcf_salt_operator.Prelude.{
  subst, sym, some-injective, str_eq, eq_iff, eq_refl, Bool-cases, inl, inr, ◌⊎◌, Option, some,
  none,
}
use vcf_salt_operator.Prelude.Lists.{any, In, filter}
use vcf_salt_operator.Kube.{SaltKeyConfig}
use vcf_salt_operator.Kube.Error.{Error}
use vcf_salt_operator.Controller.Reconcile.{is_enrolled}
use vcf_salt_operator.Enrolment.{
  with_acceptance, delete_config, patch_acceptance, create_config, leave, keep, Answers, Enrolment,
  Namespace, own_config, own_from, reconcile, enrolled_config, without, release_each,
  release_enrolled,
}

-- The configurations that the operator did not make.
abbrev pub users : List SaltKeyConfig → List SaltKeyConfig
users cfgs = filter (λ cfg. not (is_enrolled cfg)) cfgs

-- No two configurations have the same name.
abbrev pub distinct : List SaltKeyConfig → Bool
distinct [] = true
distinct (cfg ∷ cfgs) = not (any (λ c. str_eq c.name cfg.name) cfgs) && distinct cfgs

-- Whether each configuration of a name is the operator's.
abbrev owns : String → List SaltKeyConfig → Bool
owns name [] = true
owns name (cfg ∷ cfgs) = (not (str_eq cfg.name name) || is_enrolled cfg) && owns name cfgs

-- The configuration that is found is one of the list and carries the label.
pub own_from-In :
    (found : Option SaltKeyConfig) (cfgs : List SaltKeyConfig) {own : SaltKeyConfig}
    → own_from found cfgs ≡ some own
    → (found ≡ some own) ⊎ (In own cfgs × (is_enrolled own ≡ true))
own_from-In found [] e = inl e
own_from-In found (cfg ∷ cfgs) e = elim (Bool-cases (is_enrolled cfg)) [
  | inl made ↦ elim (own_from-In (some cfg) cfgs (rw made at e)) [
    | inl same ↦ inr (
      inl (sym (some-injective _ _ same)),
      subst (λ c. is_enrolled c ≡ true) (some-injective _ _ same) made,
    )
    | inr (i, m) ↦ inr (inr i, m)
  ]
  | inr other ↦ elim (own_from-In found cfgs (rw other at e)) [
    | inl same ↦ inl same
    | inr (i, m) ↦ inr (inr i, m)
  ]
]

absent-owns :
    (name : String) (cfgs : List SaltKeyConfig)
    → any (λ c. str_eq c.name name) cfgs ≡ false
    → owns name cfgs ≡ true
absent-owns name [] h = refl
absent-owns name (c ∷ cfgs) h = ground (arith, absent-owns name cfgs)

In-named :
    (own : SaltKeyConfig) (cfgs : List SaltKeyConfig)
    → In own cfgs
    → any (λ c. str_eq c.name own.name) cfgs ≡ true
In-named own [] i = elim i [ ]
In-named own (c ∷ cfgs) (inl e) =
    subst (λ x. any (λ c. str_eq c.name own.name) (x ∷ cfgs) ≡ true) e (rw (eq_refl own.name) refl)
In-named own (c ∷ cfgs) (inr i) = ground (arith, In-named own cfgs i)

In-owns :
    (own : SaltKeyConfig) (cfgs : List SaltKeyConfig)
    → distinct cfgs ≡ true
    → In own cfgs
    → is_enrolled own ≡ true
    → owns own.name cfgs ≡ true
In-owns own [] u i h = elim i [ ]
In-owns own (c ∷ cfgs) u (inl e) h =
    let tail : owns c.name cfgs ≡ true = absent-owns c.name cfgs (ground arith) in
    subst (λ x. owns x.name (c ∷ cfgs) ≡ true) (sym e)
      (rw tail (rw (subst (λ x. is_enrolled x ≡ true) e h) (ground arith)))
In-owns own (c ∷ cfgs) u (inr i) h =
    ground (arith, In-owns own cfgs (ground arith) i h, In-named own cfgs i, eq_iff c.name own.name)

-- A change of the operator's configurations touches no other.
users-without :
    (name : String) (cfgs : List SaltKeyConfig)
    → owns name cfgs ≡ true
    → users (without name cfgs) ≡ users cfgs
users-without name [] h = refl
users-without name (c ∷ cfgs) h = ground (arith, users-without name cfgs)

users-with_acceptance :
    (name acceptance : String) (cfgs : List SaltKeyConfig)
    → owns name cfgs ≡ true
    → users (map (with_acceptance name acceptance) cfgs) ≡ users cfgs
users-with_acceptance name acceptance [] h = refl
users-with_acceptance name acceptance (c ∷ cfgs) h =
    let rest : users (map (with_acceptance name acceptance) cfgs) ≡ users cfgs =
      users-with_acceptance name acceptance cfgs (ground arith) in
    elim (Bool-cases (str_eq c.name name)) [ inl same ↦ ground arith | inr differs ↦ ground arith ]

-- What the changes of a reconcile need of the operator's configuration.
own_config-owns :
    (cfgs : List SaltKeyConfig)
    → distinct cfgs ≡ true
    → (own : SaltKeyConfig) → own_config cfgs ≡ some own
    → owns own.name cfgs ≡ true
unfolding own_config
own_config-owns cfgs u own e = elim (own_from-In none cfgs e) [
  | inl absurd ↦ ground arith
  | inr (i, m) ↦ In-owns own cfgs u i m
]

delete_config-users :
    (answer : Option Error) (own : SaltKeyConfig) (cfgs : List SaltKeyConfig)
    → owns own.name cfgs ≡ true
    → users (delete_config answer own cfgs).configs ≡ users cfgs
delete_config-users none own cfgs h = users-without own.name cfgs h
delete_config-users (some e) own cfgs h = ground arith

patch_acceptance-users :
    (answer : Option Error) (acceptance : String) (own : SaltKeyConfig) (cfgs : List SaltKeyConfig)
    → owns own.name cfgs ≡ true
    → users (patch_acceptance answer acceptance own cfgs).configs ≡ users cfgs
patch_acceptance-users none acceptance own cfgs h = users-with_acceptance own.name acceptance cfgs h
patch_acceptance-users (some e) acceptance own cfgs h = refl

create_config-users :
    (answer : Option Error) (e : Enrolment) (ns : Namespace) (cfgs : List SaltKeyConfig)
    → users (create_config answer (enrolled_config e ns) cfgs).configs ≡ users cfgs
unfolding enrolled_config
create_config-users none e ns cfgs = refl
create_config-users (some x) e ns cfgs = ground arith

module _ (a : Answers) (e : Enrolment) (ns : Namespace) where
  leave-users :
      (own : Option SaltKeyConfig) (cfgs : List SaltKeyConfig)
      → ((c : SaltKeyConfig) → own ≡ some c → owns c.name cfgs ≡ true)
      → users (leave a e own cfgs).configs ≡ users cfgs
  leave-users none cfgs h = refl
  leave-users (some own) cfgs h = delete_config-users a.write_error own cfgs (h own refl)

  keep-users :
      (own : Option SaltKeyConfig) (cfgs : List SaltKeyConfig)
      → ((c : SaltKeyConfig) → own ≡ some c → owns c.name cfgs ≡ true)
      → users (keep a e ns own cfgs).configs ≡ users cfgs
  keep-users none cfgs h = ground (arith, create_config-users a.write_error e ns cfgs)
  keep-users (some own) cfgs h = ground (
    arith,
    delete_config-users a.write_error own cfgs (h own refl),
    patch_acceptance-users a.write_error e.key_acceptance own cfgs (h own refl),
  )

  -- A reconcile of a namespace leaves the configurations that are not the operator's as they are,
  -- in their order, whatever its calls answer.
  pub reconcile-users :
      (cfgs : List SaltKeyConfig)
      → distinct cfgs ≡ true
      → users (reconcile a e ns cfgs).configs ≡ users cfgs
  unfolding reconcile
  reconcile-users cfgs u = ground (
    arith,
    leave-users (own_config cfgs) cfgs (own_config-owns cfgs u),
    keep-users (own_config cfgs) cfgs (own_config-owns cfgs u),
  )

module _ (delete_error : SaltKeyConfig → Option Error) where
  release_each-users :
      (cfgs : List SaltKeyConfig) → users (release_each delete_error cfgs).configs ≡ users cfgs
  unfolding release_each
  release_each-users [] = refl
  release_each-users (c ∷ cfgs) = ground (arith, release_each-users cfgs)

  release_each_complete :
      (cfgs : List SaltKeyConfig)
      → (release_each delete_error cfgs).error ≡ none
      → (release_each delete_error cfgs).configs ≡ users cfgs
  unfolding release_each
  release_each_complete [] e = refl
  release_each_complete (c ∷ cfgs) e = ground (arith, release_each_complete cfgs)

  -- The release leaves the configurations that are not the operator's as they are, whatever the
  -- list and the deletions answer.
  pub release_enrolled-users :
      (list_error : Option Error) (cfgs : List SaltKeyConfig)
      → users (release_enrolled delete_error list_error cfgs).configs ≡ users cfgs
  unfolding release_enrolled
  release_enrolled-users none cfgs = release_each-users cfgs
  release_enrolled-users (some x) cfgs = refl

  -- A release that ends without an error leaves none of the operator's configurations.
  pub release_enrolled_complete :
      (list_error : Option Error) (cfgs : List SaltKeyConfig)
      → (release_enrolled delete_error list_error cfgs).error ≡ none
      → (release_enrolled delete_error list_error cfgs).configs ≡ users cfgs
  unfolding release_enrolled
  release_enrolled_complete none cfgs e = release_each_complete cfgs e
  release_enrolled_complete (some x) cfgs e = ground arith
