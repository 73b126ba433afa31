-- ===== src/Controller/Preseed/Safety.antt =====
-- What generates a key, and what a cleared key is.
use vcf_salt_operator.Prelude.{
  ℕ, suc, Bool, true, false, ◌≡◌, refl, subst, str_eq, arith, List, [], ◌∷◌,
}
use vcf_salt_operator.Prelude.{none, some, Bool-cases, Option-cases, inl, inr, ◌⊎◌}
use vcf_salt_operator.Prelude.Int.{ℤ}
use vcf_salt_operator.Prelude.Lists.{find?, In}
use vcf_salt_operator.Prelude.Dict.{get}
use vcf_salt_operator.Kube.{Vm}
use vcf_salt_operator.Kube.Error.{Error, ok, err}
use vcf_salt_operator.Raasconn.{Connection}
use vcf_salt_operator.Controller.Names.{bootstrap_key_cleared}
use vcf_salt_operator.Controller.World.{World, Env, Bootstrap, Effect, key_generated}
use vcf_salt_operator.Controller.Run.{◌>>=◌, patch_annotations, write}
use vcf_salt_operator.Controller.Run.Keeps.{end}
use vcf_salt_operator.Controller.Preseed.{
  run_preseed_key, minion_id_owner, refuse_minion_id, is_other_owner, clear_preseed_key,
  clear_bootstrap_key, holds_preseeded_key,
}

-- How many keys were generated.
abbrev pub generated : List Effect → ℕ
generated [] = 0
generated (key_generated id force ∷ t) = suc (generated t)
generated (_ ∷ t) = generated t

-- A bootstrap Secret without its keys.
abbrev pub IsCleared : Bootstrap → Type 0
IsCleared b = (b.minion_pem ≡ bootstrap_key_cleared) × (b.minion_pub ≡ bootstrap_key_cleared)

-- Another machine that is annotated with the name of this one as its minion ID.
abbrev pub Holds : Vm → Vm → Type 0
Holds vm holder =
    (str_eq holder.uid vm.uid ≡ false)
    × (str_eq (get "salt.vcf.io/minion-id" holder.annotations) vm.name ≡ true)

-- A test that an element passes finds one.
find?-In :
    {A : Type 0} (p : A → Bool) (l : List A) (x : A)
    → In x l
    → p x ≡ true
    → (y : A) × (find? p l ≡ some y)
find?-In p [] x i h = absurd i
find?-In p (y ∷ l) x (inl e) h = (y, rw (subst (λ z. p z ≡ true) e h) refl)
find?-In p (y ∷ l) x (inr i) h = elim (Bool-cases (p y)) [
  | inl passes ↦ (y, rw passes refl)
  | inr fails ↦ let (z, found) = find?-In p l x i h in (z, rw fails found)
]

module _ (env : Env) where
  Holds-is_other_owner :
      (vm holder : Vm) → Holds vm holder → is_other_owner env vm vm.name holder ≡ true
  Holds-is_other_owner vm holder (u, i) = rw (u, i) refl

  -- Whatever the holder that is found, no key is generated.
  refused_by_first :
      (c : Connection) (r : ℤ) (w : World) (vms : List Vm) (first : Vm)
      → env.list_vms w.tick ≡ ok vms
      → find? (is_other_owner env w.vm w.vm.name) vms ≡ some first
      → generated (end (run_preseed_key env c r w)).trace ≡ generated w.trace
  unfolding run_preseed_key minion_id_owner refuse_minion_id patch_annotations write ◌>>=◌
  refused_by_first c r w vms first l f = elim (Bool-cases first.deleting) [
    | inl going ↦ rw (l, f, going, end) refl
    | inr stays ↦ elim (Option-cases (env.write_error (suc w.tick))) [
      | inl accepted ↦ rw (l, f, stays, accepted, end) refl
      | inr (e, refused) ↦ rw (l, f, stays, refused, end) refl
    ]
  ]

  -- While a machine with another UID is annotated with the name of this one as its minion ID, or the
  -- machines cannot be listed, no key is generated.
  pub run_preseed_key-owned :
      (c : Connection) (requeue_after : ℤ) (w : World)
      → ((e : Error) × (env.list_vms w.tick ≡ err e))
        ⊎ ((vms : List Vm) × ((holder : Vm) × (env.list_vms w.tick ≡ ok vms)
              × (In holder vms × Holds w.vm holder)))
      → generated (end (run_preseed_key env c requeue_after w)).trace ≡ generated w.trace
  unfolding run_preseed_key minion_id_owner refuse_minion_id patch_annotations write ◌>>=◌
  run_preseed_key-owned c r w (inl (e, l)) = rw (l, end) refl
  run_preseed_key-owned c r w (inr (vms, (holder, l, (i, h)))) =
      let (first, found) =
        find?-In (is_other_owner env w.vm w.vm.name) vms holder i
          (Holds-is_other_owner w.vm holder h) in
      refused_by_first c r w vms first l found

  -- Where both its writes succeed, a clearing leaves no key in the Secret, and a machine that is
  -- marked as cleared.
  pub clear_preseed_key-clears :
      (w : World) (b : Bootstrap)
      → holds_preseeded_key env w.vm.annotations ≡ true
      → w.secret ≡ some b
      → env.write_error w.tick ≡ none
      → env.write_error (suc w.tick) ≡ none
      → let v = end (clear_preseed_key env w) in
        ((b' : Bootstrap) × ((v.secret ≡ some b') × IsCleared b'))
        × (holds_preseeded_key env v.vm.annotations ≡ false)
  unfolding clear_preseed_key clear_bootstrap_key patch_annotations write ◌>>=◌
  clear_preseed_key-clears w b h s p q =
      rw (h, p, end) (rw (q, end) (rw s ((_, (refl, (refl, refl))), ground arith)))
