-- ===== src/Controller/OwnWrites/Keys.antt =====
-- The annotations of a machine that the filter leaves out, key by key.
use vcf_salt_operator.Prelude.{
  String, Bool, false, not, ◌&&◌, ◌||◌, ◌≡◌, refl, sym, subst, arith, List, [], ◌∷◌, ◌++◌, str_eq,
  eq_iff, Bool-cases, inl, inr,
}
use vcf_salt_operator.Prelude.Lists.{contains}
use vcf_salt_operator.Controller.Names.{
  annotation_retry_request, non_intent_annotations, vm_backup_version_annotation,
  vm_conversion_annotation,
}
use vcf_salt_operator.Controller.OwnWrites.{is_own_write}

-- The annotations that the operator and the platform write.
abbrev pub written_by_operator : List String
written_by_operator =
    "salt.vcf.io/key-status" ∷ "salt.vcf.io/minion-id" ∷ "salt.vcf.io/match-method"
    ∷ "salt.vcf.io/salt-status" ∷ "salt.vcf.io/ready" ∷ "salt.vcf.io/highstate-jid"
    ∷ "salt.vcf.io/highstate-status" ∷ "salt.vcf.io/highstate-time" ∷ "salt.vcf.io/roles-hash"
    ∷ "salt.vcf.io/accepted-at" ∷ "salt.vcf.io/key-cleared" ∷ "salt.vcf.io/highstate-failed-count"
    ∷ "salt.vcf.io/highstate-failed-states" ∷ "salt.vcf.io/retry-handled"
    ∷ "salt.vcf.io/bulk-retry-handled" ∷ []

abbrev pub written_by_platform : List String
written_by_platform =
    "vmoperator.vmware.com/backup-version" ∷ "vmoperator.vmware.com/conversion" ∷ []

abbrev pub is_written : String → Bool
is_written k = contains written_by_operator k || contains written_by_platform k

str_eq_comm : (a b : String) → str_eq a b ≡ str_eq b a
str_eq_comm a b = ground (arith, eq_iff a b, eq_iff b a)

contains-join :
    (l m : List String) (k : String) → contains (l ++ m) k ≡ (contains l k || contains m k)
contains-join [] m k = refl
contains-join (x ∷ l) m k = ground (arith, contains-join l m k)

non_intent-join :
    (k : String)
    → contains non_intent_annotations k
      ≡ (contains written_by_operator k || contains (annotation_retry_request ∷ []) k)
non_intent-join k = contains-join written_by_operator (annotation_retry_request ∷ []) k

written_bools :
    (n o r r' x x' y y' : Bool)
    → n ≡ (o || (r' || false))
    → r ≡ false
    → r ≡ r'
    → x ≡ x'
    → y ≡ y'
    → ((n && not r) || (x || y)) ≡ (o || (x' || (y' || false)))
written_bools n o r r' x x' y y' h i j k l = ground arith

retry_unwritten : is_own_write annotation_retry_request ≡ is_written annotation_retry_request
unfolding is_own_write
retry_unwritten = refl

other_written :
    (k : String) → str_eq k annotation_retry_request ≡ false → is_own_write k ≡ is_written k
unfolding is_own_write
other_written k n =
    written_bools _ (contains written_by_operator k) _ _ _ _ _ _ (non_intent-join k) n
      (str_eq_comm k annotation_retry_request) (str_eq_comm k vm_backup_version_annotation)
      (str_eq_comm k vm_conversion_annotation)

pub is_own_write_written : (k : String) → is_own_write k ≡ is_written k
is_own_write_written k = elim (Bool-cases (str_eq k annotation_retry_request)) [
  | inl y ↦
      subst (λ j. is_own_write j ≡ is_written j) (sym ((eq_iff k annotation_retry_request).0 y))
        retry_unwritten
  | inr n ↦ other_written k n
]
