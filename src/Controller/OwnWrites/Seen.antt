-- ===== src/Controller/OwnWrites/Seen.antt =====
-- The filter of updates and the annotations of a tenant.
use vcf_salt_operator.Prelude.{
  String, Bool, true, false, not, ◌&&◌, ◌||◌, ◌≡◌, refl, sym, ◌∙◌, inl, inr, ◌⊎◌, arith, some,
  str_eq, eq_iff,
}
use vcf_salt_operator.Prelude.{◌≢◌, ◌⊎◌, subst}
use vcf_salt_operator.Prelude.Dict.{Dict, get}
use text.Mathlib.Text.{starts_with}
use vcf_salt_operator.Controller.Names.{
  intent_prefix, annotation_retry_request, vm_backup_version_annotation, vm_conversion_annotation,
}
use vcf_salt_operator.Controller.World.{Env}
use vcf_salt_operator.Controller.IntentHash.{is_intent, compute_intent_hash}
use vcf_salt_operator.Controller.IntentHash.Order.{SameIntents, compute_intent_hash-SameIntents}
use vcf_salt_operator.Controller.OwnWrites.{
  Document, is_own_write, own_writes_only, reconciles_update,
}
use vcf_salt_operator.Controller.OwnWrites.Keys.{is_own_write_written}
use vcf_salt_operator.Controller.OwnWrites.Ignored.{IsDeepEqual, SameIntent, own_writes_only_iff}

seen :
    (eq : Document → Document → Bool) (a b : Document)
    → (own_writes_only eq a b ≡ true → ⊥)
    → reconciles_update eq a b ≡ true
unfolding reconciles_update
seen eq a b h = ground arith

intent_own_bools :
    (p c r x y : Bool)
    → (p && not c) ≡ true
    → x ≡ false
    → y ≡ false
    → ((c && not r) || (x || y)) ≡ false
intent_own_bools p c r x y h hx hy = ground arith

-- A key with the prefix of the intent is no key without it.
other_prefix :
    (k j : String) (b : Bool)
    → str_eq k j ≡ b
    → starts_with k intent_prefix ≡ true
    → starts_with j intent_prefix ≡ false
    → str_eq k j ≡ false
other_prefix k j false e h n = e
other_prefix k j true e h n =
    absurd
      (true_false (sym (subst (λ i. starts_with i intent_prefix ≡ true) ((eq_iff k j).0 e) h) ∙ n))
  where
    true_false : true ≡ false → ⊥
    true_false x = ground arith

left_true : (p q : Bool) → (p && q) ≡ true → p ≡ true
left_true p q h = ground arith

pub is_intent-own : (k : String) → is_intent k ≡ true → is_own_write k ≡ false
unfolding is_intent is_own_write
is_intent-own k h =
    let starts = left_true (starts_with k intent_prefix) _ h in
    intent_own_bools (starts_with k intent_prefix) _ _ _ _ h
      (other_prefix k vm_backup_version_annotation _ refl starts refl)
      (other_prefix k vm_conversion_annotation _ refl starts refl)

retry_request-own : is_own_write annotation_retry_request ≡ false
unfolding is_own_write
retry_request-own = refl

-- An ignored update leaves the annotations that the intent hash covers as they were.
ignored-SameIntents :
    (eq : Document → Document → Bool) (a b : Document) (m n : Dict String)
    → IsDeepEqual eq
    → a.annotations ≡ some m
    → b.annotations ≡ some n
    → own_writes_only eq a b ≡ true
    → SameIntents m n
ignored-SameIntents eq a b m n deep am bn h = record {
  same_keys = λ k i. (unchanged k (sym (is_own_write_written k) ∙ is_intent-own k i)).0;
  same_values = λ k i. (unchanged k (sym (is_own_write_written k) ∙ is_intent-own k i)).1;
}
  where
    unchanged : SameIntent m n
    unchanged = rw (am, bn) at ((own_writes_only_iff eq a b deep).0 h).annotations

-- The request for a retry stays as it was in an ignored update.
ignored-retry_request :
    (eq : Document → Document → Bool) (a b : Document) (m n : Dict String)
    → IsDeepEqual eq
    → a.annotations ≡ some m
    → b.annotations ≡ some n
    → own_writes_only eq a b ≡ true
    → get annotation_retry_request m ≡ get annotation_retry_request n
ignored-retry_request eq a b m n deep am bn h =
    (unchanged annotation_retry_request
      (sym (is_own_write_written annotation_retry_request) ∙ retry_request-own)).1
  where
    unchanged : SameIntent m n
    unchanged = rw (am, bn) at ((own_writes_only_iff eq a b deep).0 h).annotations

-- Where the comparison of two documents is the one of their contents, an update of a machine with
-- annotations before and after it that changes its intent hash, or the request for a retry, starts a
-- reconcile.
pub trigger_change_seen :
    (env : Env) (eq : Document → Document → Bool) (a b : Document) (m n : Dict String)
    → IsDeepEqual eq
    → a.annotations ≡ some m
    → b.annotations ≡ some n
    → (compute_intent_hash env m ≢ compute_intent_hash env n)
      ⊎ (get annotation_retry_request m ≢ get annotation_retry_request n)
    → reconciles_update eq a b ≡ true
trigger_change_seen env eq a b m n deep am bn (inl d) =
    seen eq a b
      λ h. d (compute_intent_hash-SameIntents env m n (ignored-SameIntents eq a b m n deep am bn h))
trigger_change_seen env eq a b m n deep am bn (inr d) =
    seen eq a b λ h. d (ignored-retry_request eq a b m n deep am bn h)
