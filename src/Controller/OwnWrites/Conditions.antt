-- ===== src/Controller/OwnWrites/Conditions.antt =====
-- The conditions of a machine that the filter compares.
use vcf_salt_operator.Prelude.{
  String, true, false, ◌≡◌, ◌↔◌, refl, sym, ◌∙◌, subst, ap, arith, List, [], ◌∷◌, Option, none,
  some, eq_iff, Bool-cases, inl, inr,
}
use vcf_salt_operator.Controller.OwnWrites.{StatusCondition, is_backup, without_backup}
use vcf_salt_operator.Controller.Names.{vm_backup_condition}

-- Two lists with the same conditions in the same order, but for those of the backup.
pub data SameConditions : List StatusCondition → List StatusCondition → Type 0 where
  both_empty : SameConditions [] []
  same_next :
      {cs ds : List StatusCondition} (c : StatusCondition)
      → SameConditions cs ds
      → SameConditions (c ∷ cs) (c ∷ ds)
  backup_left :
      {cs ds : List StatusCondition} (c : StatusCondition)
      → c.kind ≡ some "VirtualMachineBackupUpToDate"
      → SameConditions cs ds
      → SameConditions (c ∷ cs) ds
  backup_right :
      {cs ds : List StatusCondition} (d : StatusCondition)
      → d.kind ≡ some "VirtualMachineBackupUpToDate"
      → SameConditions cs ds
      → SameConditions cs (d ∷ ds)

is_backup-of : (k : Option String) → k ≡ some "VirtualMachineBackupUpToDate" → is_backup k ≡ true
is_backup-of k e = rw e refl

backup_of : (k : Option String) → is_backup k ≡ true → k ≡ some "VirtualMachineBackupUpToDate"
backup_of none h = absurd (ground arith)
backup_of (some s) h = ap (λ x. some x) ((eq_iff s vm_backup_condition).0 h)

without-next :
    (c : StatusCondition) (cs ds : List StatusCondition)
    → without_backup cs ≡ without_backup ds
    → without_backup (c ∷ cs) ≡ without_backup (c ∷ ds)
unfolding without_backup
without-next c cs ds h = ground arith

without-skip :
    (c : StatusCondition) (cs : List StatusCondition)
    → is_backup c.kind ≡ true
    → without_backup (c ∷ cs) ≡ without_backup cs
unfolding without_backup
without-skip c cs h = ground arith

without-same :
    {cs ds : List StatusCondition} → SameConditions cs ds → without_backup cs ≡ without_backup ds
without-same both_empty = refl
without-same (same_next {cs} {ds} c s) = without-next c cs ds (without-same s)
without-same (backup_left {cs} c e s) = without-skip c cs (is_backup-of c.kind e) ∙ without-same s
without-same (backup_right {ds = ds} d e s) =
    without-same s ∙ sym (without-skip d ds (is_backup-of d.kind e))

without-stay :
    (c : StatusCondition) (cs : List StatusCondition)
    → is_backup c.kind ≡ false
    → without_backup (c ∷ cs) ≡ c ∷ without_backup cs
unfolding without_backup
without-stay c cs h = ground arith

same_head : (c d : StatusCondition) (cs ds : List StatusCondition) → c ∷ cs ≡ d ∷ ds → c ≡ d
same_head c d cs ds e = ground arith

same_tail : (c d : StatusCondition) (cs ds : List StatusCondition) → c ∷ cs ≡ d ∷ ds → cs ≡ ds
same_tail c d cs ds e = ground arith

no_head : (c : StatusCondition) (cs : List StatusCondition) → c ∷ cs ≡ [] → ⊥
no_head c cs e = ground arith

without-empty : without_backup [] ≡ []
unfolding without_backup
without-empty = refl

all_backup : (ds : List StatusCondition) → without_backup ds ≡ [] → SameConditions [] ds
all_backup [] h = both_empty
all_backup (d ∷ ds) h = elim (Bool-cases (is_backup d.kind)) [
  | inl y ↦ backup_right d (backup_of d.kind y) (all_backup ds (sym (without-skip d ds y) ∙ h))
  | inr n ↦ absurd (no_head d _ (sym (without-stay d ds n) ∙ h))
]

-- A condition that is compared stands behind those of the backup on the other side.
find_right :
    (c : StatusCondition) (cs ds : List StatusCondition)
    → ((es : List StatusCondition) → without_backup cs ≡ without_backup es → SameConditions cs es)
    → c ∷ without_backup cs ≡ without_backup ds
    → SameConditions (c ∷ cs) ds
find_right c cs [] k h = absurd (no_head c _ (h ∙ without-empty))
find_right c cs (d ∷ ds) k h = elim (Bool-cases (is_backup d.kind)) [
  | inl y ↦ backup_right d (backup_of d.kind y) (find_right c cs ds k (h ∙ without-skip d ds y))
  | inr n ↦
      let e = h ∙ without-stay d ds n in
      subst (λ x. SameConditions (c ∷ cs) (x ∷ ds)) (same_head c d _ _ e)
        (same_next c (k ds (same_tail c d _ _ e)))
]

same-without :
    (cs ds : List StatusCondition) → without_backup cs ≡ without_backup ds → SameConditions cs ds
same-without [] ds h = all_backup ds (sym h ∙ without-empty)
same-without (c ∷ cs) ds h = elim (Bool-cases (is_backup c.kind)) [
  | inl y ↦ backup_left c (backup_of c.kind y) (same-without cs ds (sym (without-skip c cs y) ∙ h))
  | inr n ↦ find_right c cs ds (same-without cs) (sym (without-stay c cs n) ∙ h)
]

pub SameConditions-iff :
    (cs ds : List StatusCondition) → (without_backup cs ≡ without_backup ds) ↔ SameConditions cs ds
SameConditions-iff cs ds = (same-without cs ds, λ s. without-same s)
