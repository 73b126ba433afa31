-- ===== src/Controller/IntentHash/Faithful.antt =====
-- The text that is hashed, read back.
use text.Mathlib.TextLemmas.{append_cancel_left, append_assoc}
use vcf_salt_operator.Controller.Names.{intent_hash_version}
use vcf_salt_operator.Controller.IntentHash.Order.{
  SameIntents, contains-intent_keys, compute_intent_hash-SameIntents,
}
use Prim.Native.Char.{Char}
use Prim.Native.String.{char_at}
use vcf_salt_operator.Prelude.{
  String, ◌<>◌, Bool, true, ◌&&◌, List, [], ◌∷◌, arith, ◌≡◌, ◌↔◌, refl, sym, ◌∙◌, ap, str_eq,
  eq_iff, eq_refl, Bool-cases, inl, inr, false,
}
use vcf_salt_operator.Prelude.Lists.{contains}
use vcf_salt_operator.Prelude.Dict.{Dict, get, has_key}
use vcf_salt_operator.Prelude.Texts.{before, before_irrefl}
use vcf_salt_operator.Prelude.Lines.{lacks, split_at, separated_not-empty}
use vcf_salt_operator.Controller.World.{Env}
use vcf_salt_operator.Controller.IntentHash.{
  is_intent, intent_keys, insert_key, intent_text, compute_intent_hash,
}

abbrev equals_sign : Char
equals_sign = char_at "=" 0

abbrev line_break : Char
line_break = char_at "\n" 0

-- No key of a list holds the character "=", and no value of one a line break.
abbrev pub are_lines : List String → Dict String → Bool
are_lines [] m = true
are_lines (k ∷ ks) m = (lacks equals_sign k && lacks line_break (get k m)) && are_lines ks m

-- The keys and their values, line by line.
abbrev SameLines : List String → List String → Dict String → Dict String → Type 0
SameLines [] [] m n = Unit
SameLines (k ∷ ks) (l ∷ ls) m n = (k ≡ l) × ((get k m ≡ get l n) × SameLines ks ls m n)
SameLines _ _ m n = ⊥

intent_text-SameLines :
    (ks ls : List String) (m n : Dict String)
    → are_lines ks m ≡ true
    → are_lines ls n ≡ true
    → intent_text ks m ≡ intent_text ls n
    → SameLines ks ls m n
unfolding intent_text
intent_text-SameLines [] [] m n a b e = tt
intent_text-SameLines [] (l ∷ ls) m n a b e = separated_not-empty "=" l _ equals_sign refl e
intent_text-SameLines (k ∷ ks) [] m n a b e = separated_not-empty "=" k _ equals_sign refl (sym e)
intent_text-SameLines (k ∷ ks) (l ∷ ls) m n a b e =
    let (head, rest) = split_at "=" k l _ _ equals_sign refl (ground arith) (ground arith) e in
    let (value, tail) =
      split_at "\n" (get k m) (get l n) _ _ line_break refl (ground arith) (ground arith) rest in
    (head, (value, intent_text-SameLines ks ls m n (ground arith) (ground arith) tail))

SameLines-keys : (ks ls : List String) (m n : Dict String) → SameLines ks ls m n → ks ≡ ls
SameLines-keys [] [] m n s = refl
SameLines-keys (k ∷ ks) (l ∷ ls) m n s = ground (arith, SameLines-keys ks ls m n (s.1.1), s.0)
SameLines-keys [] (l ∷ ls) m n s = absurd s
SameLines-keys (k ∷ ks) [] m n s = absurd s

SameLines-values :
    (ks ls : List String) (m n : Dict String) (j : String)
    → SameLines ks ls m n
    → contains ks j ≡ true
    → get j m ≡ get j n
SameLines-values [] [] m n j s h = absurd (ground arith)
SameLines-values (k ∷ ks) (l ∷ ls) m n j s h = elim (Bool-cases (str_eq k j)) [
  | inl y ↦
      let here : k ≡ j = (eq_iff k j).0 y in
      ap (λ x. get x m) (sym here) ∙ s.1.0 ∙ ap (λ x. get x n) (sym (s.0) ∙ here)
  | inr o ↦ SameLines-values ks ls m n j (s.1.1) (ground arith)
]
SameLines-values [] (l ∷ ls) m n j s h = absurd s
SameLines-values (k ∷ ks) [] m n j s h = absurd s

get-missing : (k : String) (m : Dict String) → has_key k m ≡ false → get k m ≡ ""
get-missing k [] h = refl
get-missing k ((j, v) ∷ m) h = ground (arith, get-missing k m)

SameLines-SameIntents :
    (m n : Dict String) → SameLines (intent_keys m) (intent_keys n) m n → SameIntents m n
SameLines-SameIntents m n s = record {
  same_keys = λ k i. keys k i;
  same_values = λ k i. elim (Bool-cases (has_key k m)) [
    | inl y ↦
        SameLines-values (intent_keys m) (intent_keys n) m n k s
          (ground (arith, contains-intent_keys k m))
    | inr o ↦ get-missing k m o ∙ sym (get-missing k n (sym (keys k i) ∙ o))
  ];
}
  where
    keys : (k : String) → is_intent k ≡ true → has_key k m ≡ has_key k n
    keys k i =
        let e : contains (intent_keys m) k ≡ contains (intent_keys n) k =
          ap (λ ks. contains ks k) (SameLines-keys (intent_keys m) (intent_keys n) m n s) in
        ground (arith, contains-intent_keys k m, contains-intent_keys k n)

append_cancel : (p s t : String) → p <> s ≡ p <> t → s ≡ t
append_cancel p s t e = append_cancel_left p s t e

-- Where no key holds the character "=", no value a line break, and the digest tells the two texts
-- apart, the hashes of two maps are equal exactly if they have the same annotations of a tenant with
-- the same values, in whatever order.
pub compute_intent_hash_iff :
    (env : Env) (m n : Dict String)
    → are_lines (intent_keys m) m ≡ true
    → are_lines (intent_keys n) n ≡ true
    → (env.sha256_hex8 (intent_text (intent_keys m) m)
          ≡ env.sha256_hex8 (intent_text (intent_keys n) n)
        → intent_text (intent_keys m) m ≡ intent_text (intent_keys n) n)
    → (compute_intent_hash env m ≡ compute_intent_hash env n) ↔ SameIntents m n
unfolding compute_intent_hash
compute_intent_hash_iff env m n a b distinct = (
  λ e. SameLines-SameIntents m n (
      intent_text-SameLines (intent_keys m) (intent_keys n) m n a b
        (distinct (append_cancel intent_hash_version _ _ e))),
  compute_intent_hash-SameIntents env m n,
)

-- A value with a line break reads like two annotations: of two keys of a tenant, the second of which
-- sorts behind the first, an annotation of the first alone whose value goes on with a line for the
-- second has the hash of the two annotations, whatever the digest.
pub compute_intent_hash_ambiguous :
    (env : Env) (k j v u : String)
    → is_intent k ≡ true
    → is_intent j ≡ true
    → before k j ≡ true
    → compute_intent_hash env ((k, v <> ("\n" <> (j <> ("=" <> u)))) ∷ [])
      ≡ compute_intent_hash env ((k, v) ∷ (j, u) ∷ [])
unfolding compute_intent_hash intent_keys intent_text insert_key
compute_intent_hash_ambiguous env k j v u i h b =
    let differ : str_eq k j ≡ false = ground (arith, eq_iff k j, before_irrefl j) in
    rw (i, h, differ, b, eq_refl k, eq_refl j) (simp (append_assoc, differ) refl)
