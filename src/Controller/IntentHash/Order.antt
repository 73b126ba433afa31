-- ===== src/Controller/IntentHash/Order.antt =====
-- The hash, and the order in which the loop meets the annotations.
use mathlib.Core.Path.{ap₂}
use vcf_salt_operator.Prelude.{
  String, Bool, true, false, ◌&&◌, ◌||◌, List, [], ◌∷◌, arith, ◌≡◌, refl, str_eq, eq_iff, eq_refl,
}
use vcf_salt_operator.Prelude.Lists.{contains}
use vcf_salt_operator.Prelude.Dict.{Dict, get, has_key}
use vcf_salt_operator.Prelude.Texts.{before, before_trans, before_total, before_irrefl}
use vcf_salt_operator.Controller.World.{Env}
use vcf_salt_operator.Controller.IntentHash.{
  is_intent, intent_keys, insert_key, intent_text, compute_intent_hash,
}
use vcf_salt_operator.Controller.IntentHash.Stability.{all_intent, intent_keys-all_intent}

-- The text comes before all of a list.
abbrev before_all : String → List String → Bool
before_all k [] = true
before_all k (j ∷ ks) = before k j && before_all k ks

abbrev ascending : List String → Bool
ascending [] = true
ascending (k ∷ ks) = before_all k ks && ascending ks

before_all_trans :
    (k j : String) (ks : List String)
    → before k j ≡ true
    → before_all j ks ≡ true
    → before_all k ks ≡ true
before_all_trans k j [] h a = refl
before_all_trans k j (i ∷ ks) h a = ground (arith, before_trans k j i, before_all_trans k j ks)

before_all-contains :
    (k j : String) (ks : List String)
    → before_all k ks ≡ true
    → contains ks j ≡ true
    → before k j ≡ true
before_all-contains k j [] a h = absurd (ground arith)
before_all-contains k j (i ∷ ks) a h = ground (arith, eq_iff i j, before_all-contains k j ks)

before_all-head : (k : String) (ks : List String) → before_all k ks ≡ true → contains ks k ≡ false
before_all-head k ks a = ground (arith, before_irrefl k, before_all-contains k k ks)

before_all-insert_key :
    (k j : String) (ks : List String)
    → before k j ≡ true
    → before_all k ks ≡ true
    → before_all k (insert_key j ks) ≡ true
unfolding insert_key
before_all-insert_key k j [] h a = ground arith
before_all-insert_key k j (i ∷ ks) h a = ground (arith, before_all-insert_key k j ks)

insert_key-ascending :
    (k : String) (ks : List String) → ascending ks ≡ true → ascending (insert_key k ks) ≡ true
unfolding insert_key
insert_key-ascending k [] h = refl
insert_key-ascending k (j ∷ ks) h = ground (
  arith,
  before_total k j,
  before_all_trans k j ks,
  before_all-insert_key j k ks,
  insert_key-ascending k ks,
)

contains-insert_key :
    (k j : String) (ks : List String) → contains (insert_key k ks) j ≡ (str_eq k j || contains ks j)
unfolding insert_key
contains-insert_key k j [] = refl
contains-insert_key k j (i ∷ ks) =
    ground (arith, eq_iff k i, eq_iff k j, eq_iff i j, contains-insert_key k j ks)

intent_keys-ascending : (m : Dict String) → ascending (intent_keys m) ≡ true
unfolding intent_keys
intent_keys-ascending [] = refl
intent_keys-ascending ((k, v) ∷ m) =
    ground (arith, intent_keys-ascending m, insert_key-ascending k (intent_keys m))

pub contains-intent_keys :
    (j : String) (m : Dict String) → contains (intent_keys m) j ≡ (is_intent j && has_key j m)
unfolding intent_keys
contains-intent_keys j [] = ground arith
contains-intent_keys j ((k, v) ∷ m) =
    ground (arith, eq_iff k j, contains-intent_keys j m, contains-insert_key k j (intent_keys m))

-- Two ascending lists with the same texts are one list.
heads_eq :
    (a b : String) (xs ys : List String)
    → ascending (a ∷ xs) ≡ true
    → ascending (b ∷ ys) ≡ true
    → ((j : String) → contains (a ∷ xs) j ≡ contains (b ∷ ys) j)
    → a ≡ b
heads_eq a b xs ys s t h = ground (
  arith,
  h a,
  h b,
  eq_iff a b,
  eq_iff b a,
  eq_refl a,
  eq_refl b,
  before_all-contains b a ys,
  before_all-contains a b xs,
  before_trans a b a,
  before_irrefl a,
)

ascending_unique :
    (ks ls : List String)
    → ascending ks ≡ true
    → ascending ls ≡ true
    → ((j : String) → contains ks j ≡ contains ls j)
    → ks ≡ ls
ascending_unique [] [] s t h = refl
ascending_unique [] (b ∷ ys) s t h = absurd (ground (arith, h b, eq_refl b))
ascending_unique (a ∷ xs) [] s t h = absurd (ground (arith, h a, eq_refl a))
ascending_unique (a ∷ xs) (b ∷ ys) s t h =
    let e = heads_eq a b xs ys s t h in
    ap₂ ◌∷◌ e (
      ascending_unique xs ys (ground arith) (ground arith) λ j.
        ground (arith, e, h j, eq_iff a j, eq_iff b j, before_all-head a xs, before_all-head b ys))

-- Two maps in which each annotation of a tenant is there or missing, and has its value, alike.
pub record SameIntents (m n : Dict String) : Type 0 where
  pub same_keys : (k : String) → is_intent k ≡ true → has_key k m ≡ has_key k n
  pub same_values : (k : String) → is_intent k ≡ true → get k m ≡ get k n

intent_keys-SameIntents : (m n : Dict String) → SameIntents m n → intent_keys m ≡ intent_keys n
intent_keys-SameIntents m n s =
    ascending_unique (intent_keys m) (intent_keys n) (intent_keys-ascending m)
      (intent_keys-ascending n)
      λ j. ground (arith, contains-intent_keys j m, contains-intent_keys j n, s.same_keys j)

intent_text-SameIntents :
    (ks : List String) (m n : Dict String)
    → SameIntents m n
    → all_intent ks ≡ true
    → intent_text ks m ≡ intent_text ks n
unfolding intent_text
intent_text-SameIntents [] m n s a = refl
intent_text-SameIntents (k ∷ ks) m n s a =
    ground (arith, s.same_values k, intent_text-SameIntents ks m n s)

-- The hash depends on the annotations of a tenant only, on which there are and on their values: not
-- on the order in which the loop meets them, nor on the other annotations.
pub compute_intent_hash-SameIntents :
    (env : Env) (m n : Dict String)
    → SameIntents m n
    → compute_intent_hash env m ≡ compute_intent_hash env n
unfolding compute_intent_hash
compute_intent_hash-SameIntents env m n s =
    rw
      (
        intent_keys-SameIntents m n s,
        intent_text-SameIntents (intent_keys n) m n s (intent_keys-all_intent n),
      )
      refl
