-- ===== src/Controller/OwnWrites/Ignored.antt =====
-- The filter of updates, and what it leaves out of the comparison.
use vcf_salt_operator.Prelude.{
  String, Bool, true, false, not, ◌&&◌, ◌≡◌, ◌↔◌, refl, ap, sym, ◌∙◌, Bool-cases, inl, inr, arith,
  [], ◌∷◌, Option, none, some, eq_iff,
}
use vcf_salt_operator.Prelude.Lists.{filter}
use vcf_salt_operator.Prelude.Dict.{Dict, get, has_key, copy_into}
use vcf_salt_operator.Controller.OwnWrites.Keys.{is_written, is_own_write_written}
use vcf_salt_operator.Controller.OwnWrites.Conditions.{SameConditions, SameConditions-iff}
use vcf_salt_operator.Controller.OwnWrites.{
  Document, is_own_write, without_own_annotations, without_own_writes, own_writes_only,
  reconciles_update,
}

-- Two maps with the same bindings.
pub record SameBindings (a b : Dict String) : Type 0 where
  pub same_keys : (k : String) → has_key k a ≡ has_key k b
  pub same_values : (k : String) → get k a ≡ get k b

abbrev pub SameAnnotations : Option (Dict String) → Option (Dict String) → Type 0
SameAnnotations none none = Unit
SameAnnotations (some a) (some b) = SameBindings a b
SameAnnotations _ _ = ⊥

-- Two documents with the same contents.
pub record Same (a b : Document) : Type 0 where
  pub resource_version : a.resource_version ≡ b.resource_version
  pub managed_fields : a.managed_fields ≡ b.managed_fields
  pub annotations : SameAnnotations a.annotations b.annotations
  pub conditions : a.conditions ≡ b.conditions
  pub rest : a.rest ≡ b.rest

-- What `DeepEqual` tests.
abbrev pub IsDeepEqual : (Document → Document → Bool) → Type 0
IsDeepEqual eq = (a b : Document) → (eq a b ≡ true) ↔ Same a b

kept : Dict String → Dict String
kept m = filter (λ (k, _). not (is_own_write k)) m

get-kept : (k : String) (m : Dict String) → is_own_write k ≡ false → get k (kept m) ≡ get k m
unfolding kept
get-kept k [] h = refl
get-kept k ((j, v) ∷ m) h = ground (arith, eq_iff j k, get-kept k m)

has_key-kept :
    (k : String) (m : Dict String) → is_own_write k ≡ false → has_key k (kept m) ≡ has_key k m
unfolding kept
has_key-kept k [] h = refl
has_key-kept k ((j, v) ∷ m) h = ground (arith, eq_iff j k, has_key-kept k m)

get-kept_own : (k : String) (m : Dict String) → is_own_write k ≡ true → get k (kept m) ≡ ""
unfolding kept
get-kept_own k [] h = refl
get-kept_own k ((j, v) ∷ m) h = ground (arith, eq_iff j k, get-kept_own k m)

has_key-kept_own :
    (k : String) (m : Dict String) → is_own_write k ≡ true → has_key k (kept m) ≡ false
unfolding kept
has_key-kept_own k [] h = refl
has_key-kept_own k ((j, v) ∷ m) h = ground (arith, eq_iff j k, has_key-kept_own k m)

-- Two maps with the same bindings of the keys that are not the operator's or the platform's.
abbrev pub SameIntent : Dict String → Dict String → Type 0
SameIntent a b =
    (k : String) → is_written k ≡ false → (has_key k a ≡ has_key k b) × (get k a ≡ get k b)

abbrev pub SameIntents : Option (Dict String) → Option (Dict String) → Type 0
SameIntents none none = Unit
SameIntents (some a) (some b) = SameIntent a b
SameIntents _ _ = ⊥

-- Nothing that a tenant or the platform says of the machine has changed.
pub record Unchanged (a b : Document) : Type 0 where
  pub annotations : SameIntents a.annotations b.annotations
  pub conditions : SameConditions a.conditions b.conditions
  pub rest : a.rest ≡ b.rest

kept-SameIntent : (a b : Dict String) → SameBindings (kept a) (kept b) → SameIntent a b
kept-SameIntent a b h k n = (
  sym (has_key-kept k a (is_own_write_written k ∙ n))
      ∙ h.same_keys k
      ∙ has_key-kept k b (is_own_write_written k ∙ n),
  sym (get-kept k a (is_own_write_written k ∙ n))
      ∙ h.same_values k
      ∙ get-kept k b (is_own_write_written k ∙ n),
)

same_key :
    (a b : Dict String) → SameIntent a b → (k : String) → has_key k (kept a) ≡ has_key k (kept b)
same_key a b h k = elim (Bool-cases (is_own_write k)) [
  | inl y ↦ has_key-kept_own k a y ∙ sym (has_key-kept_own k b y)
  | inr n ↦
      has_key-kept k a n ∙ (h k (sym (is_own_write_written k) ∙ n)).0 ∙ sym (has_key-kept k b n)
]

same_value : (a b : Dict String) → SameIntent a b → (k : String) → get k (kept a) ≡ get k (kept b)
same_value a b h k = elim (Bool-cases (is_own_write k)) [
  | inl y ↦ get-kept_own k a y ∙ sym (get-kept_own k b y)
  | inr n ↦ get-kept k a n ∙ (h k (sym (is_own_write_written k) ∙ n)).1 ∙ sym (get-kept k b n)
]

SameIntents-iff :
    (a b : Option (Dict String))
    → SameAnnotations (without_own_annotations a) (without_own_annotations b) ↔ SameIntents a b
unfolding kept
SameIntents-iff none none = (λ h. h, λ h. h)
SameIntents-iff none (some b) = (λ h. h, λ h. h)
SameIntents-iff (some a) none = (λ h. h, λ h. h)
SameIntents-iff (some a) (some b) = (
  kept-SameIntent a b,
  λ h. record { same_keys = same_key a b h; same_values = same_value a b h },
)

-- An update is ignored exactly if nothing changed but the resource version, the managed fields, the
-- annotations that the operator and the platform write, and the condition of the backup.
pub own_writes_only_iff :
    (eq : Document → Document → Bool) (a b : Document)
    → IsDeepEqual eq
    → (own_writes_only eq a b ≡ true) ↔ Unchanged a b
unfolding own_writes_only without_own_writes
own_writes_only_iff eq a b deep = (
  λ h.
      (let same = (deep _ _).0 h in
        record {
          annotations = (SameIntents-iff a.annotations b.annotations).0 (same.annotations);
          conditions = (SameConditions-iff a.conditions b.conditions).0 (same.conditions);
          rest = same.rest;
        }),
  λ u. (deep _ _).1 (record {
    resource_version = refl;
    managed_fields = refl;
    annotations = (SameIntents-iff a.annotations b.annotations).1 (u.annotations);
    conditions = (SameConditions-iff a.conditions b.conditions).1 (u.conditions);
    rest = u.rest;
  }),
)

-- Whether each key of a map is one of the operator's or the platform's.
abbrev pub all_own : Dict String → Bool
all_own [] = true
all_own ((k, v) ∷ a) = is_own_write k && all_own a

has_key-own_copy :
    (k : String) (a m : Dict String)
    → all_own a ≡ true
    → is_own_write k ≡ false
    → has_key k m ≡ has_key k (copy_into a m)
has_key-own_copy k [] m h n = refl
has_key-own_copy k ((j, v) ∷ a) m h n = ground (arith, eq_iff j k, has_key-own_copy k a m)

get-own_copy :
    (k : String) (a m : Dict String)
    → all_own a ≡ true
    → is_own_write k ≡ false
    → get k m ≡ get k (copy_into a m)
get-own_copy k [] m h n = refl
get-own_copy k ((j, v) ∷ a) m h n = ground (arith, eq_iff j k, get-own_copy k a m)

-- A write of annotations that are all the operator's own starts no reconcile, whatever it does to
-- the resource version and the managed fields.
pub own_writes_ignored :
    (eq : Document → Document → Bool) (d : Document) (m a : Dict String)
    (version fields : Option String)
    → IsDeepEqual eq
    → d.annotations ≡ some m
    → all_own a ≡ true
    → reconciles_update eq d (record d {
      resource_version = version;
      managed_fields = fields;
      annotations = some (copy_into a m);
    })
      ≡ false
unfolding reconciles_update
own_writes_ignored eq d m a version fields deep here own = ap not (
    (own_writes_only_iff eq _ _ deep).1 (record {
      annotations = rw here λ k n. (
        has_key-own_copy k a m own (is_own_write_written k ∙ n),
        get-own_copy k a m own (is_own_write_written k ∙ n),
      );
      conditions = (SameConditions-iff d.conditions d.conditions).0 refl;
      rest = refl;
    }))
