-- ===== src/Tests/Documents.antt =====
-- A comparison of documents, by their contents.
use vcf_salt_operator.Prelude.{
  String, Bool, true, false, ◌&&◌, ◌≡◌, ◌↔◌, refl, ap, sym, subst, ◌∙◌, arith, List, [], ◌∷◌,
  Option, none, some, some-injective, str_eq, eq_iff, eq_refl,
}
use vcf_salt_operator.Prelude.Dict.{Dict, get, has_key}
use vcf_salt_operator.Controller.OwnWrites.{StatusCondition, Document}
use vcf_salt_operator.Controller.OwnWrites.Ignored.{SameBindings, SameAnnotations, IsDeepEqual}

-- The bindings of the first map are those of the two others.
agrees : Dict String → Dict String → Dict String → Bool
agrees [] a b = true
agrees ((k, v) ∷ l) a b = (has_key k b && str_eq (get k a) (get k b)) && agrees l a b

same_bindings : Dict String → Dict String → Bool
same_bindings a b = agrees a a b && agrees b b a

same_text : Option String → Option String → Bool
same_text none none = true
same_text (some s) (some t) = str_eq s t
same_text _ _ = false

same_annotations : Option (Dict String) → Option (Dict String) → Bool
same_annotations none none = true
same_annotations (some a) (some b) = same_bindings a b
same_annotations _ _ = false

same_conditions : List StatusCondition → List StatusCondition → Bool
same_conditions [] [] = true
same_conditions (c ∷ cs) (d ∷ ds) =
    let rest = same_conditions cs ds in
    (same_text c.kind d.kind && str_eq c.contents d.contents) && rest
same_conditions _ _ = false

pub same_documents : Document → Document → Bool
same_documents a b =
    (same_text a.resource_version b.resource_version && same_text a.managed_fields b.managed_fields)
    && ((same_annotations a.annotations b.annotations && same_conditions a.conditions b.conditions)
        && str_eq a.rest b.rest)

agrees-has :
    (k : String) (l a b : Dict String)
    → agrees l a b ≡ true
    → has_key k l ≡ true
    → has_key k b ≡ true
unfolding agrees
agrees-has k [] a b h i = ground arith
agrees-has k ((j, v) ∷ l) a b h i = ground (arith, eq_iff j k, agrees-has k l a b)

agrees-get :
    (k : String) (l a b : Dict String)
    → agrees l a b ≡ true
    → has_key k l ≡ true
    → get k a ≡ get k b
unfolding agrees
agrees-get k [] a b h i = ground arith
agrees-get k ((j, v) ∷ l) a b h i =
    ground (arith, eq_iff j k, eq_iff (get j a) (get j b), agrees-get k l a b)

missing : (k : String) (a : Dict String) → has_key k a ≡ false → get k a ≡ ""
missing k [] h = refl
missing k ((j, v) ∷ a) h = ground (arith, missing k a)

agrees-of :
    (l a b : Dict String)
    → ((k : String) → has_key k l ≡ true → has_key k b ≡ true)
    → ((k : String) → get k a ≡ get k b)
    → agrees l a b ≡ true
unfolding agrees
agrees-of [] a b h g = refl
agrees-of ((k, v) ∷ l) a b h g = ground (
  arith,
  eq_refl k,
  h k,
  g k,
  eq_iff (get k a) (get k b),
  agrees-of l a b (λ j i. h j (in_tail j i)) g,
)
  where
    in_tail : (j : String) → has_key j l ≡ true → has_key j ((k, v) ∷ l) ≡ true
    in_tail j i = ground arith

same_key : (a b : Dict String) (k : String) → same_bindings a b ≡ true → has_key k a ≡ has_key k b
unfolding same_bindings
same_key a b k h = ground (arith, agrees-has k a a b, agrees-has k b b a)

same_value : (a b : Dict String) (k : String) → same_bindings a b ≡ true → get k a ≡ get k b
unfolding same_bindings
same_value a b k h =
    ground
      (arith, agrees-has k a a b, agrees-has k b b a, agrees-get k a a b, missing k a, missing k b)

same_bindings_iff : (a b : Dict String) → (same_bindings a b ≡ true) ↔ SameBindings a b
unfolding same_bindings
same_bindings_iff a b = (
  λ h. record { same_keys = λ k. same_key a b k h; same_values = λ k. same_value a b k h },
  λ s.
      both _ _ (agrees-of a a b (λ k i. sym (s.same_keys k) ∙ i) s.same_values)
        (agrees-of b b a (λ k i. s.same_keys k ∙ i) λ k. sym (s.same_values k)),
)
  where
    both : (x y : Bool) → x ≡ true → y ≡ true → (x && y) ≡ true
    both x y e f = ground arith

same_text_iff : (a b : Option String) → (same_text a b ≡ true) ↔ (a ≡ b)
unfolding same_text
same_text_iff none none = (λ h. refl, λ h. refl)
same_text_iff none (some b) = (λ h. absurd (ground arith), λ h. absurd (ground arith))
same_text_iff (some a) none = (λ h. absurd (ground arith), λ h. absurd (ground arith))
same_text_iff (some a) (some b) =
    (λ h. ap (λ x. some x) ((eq_iff a b).0 h), λ e. (eq_iff a b).1 (some-injective a b e))

same_annotations_iff :
    (a b : Option (Dict String)) → (same_annotations a b ≡ true) ↔ SameAnnotations a b
unfolding same_annotations
same_annotations_iff none none = (λ h. tt, λ h. refl)
same_annotations_iff none (some b) = (λ h. absurd (ground arith), λ h. absurd h)
same_annotations_iff (some a) none = (λ h. absurd (ground arith), λ h. absurd h)
same_annotations_iff (some a) (some b) = same_bindings_iff a b

same_conditions-of : (cs : List StatusCondition) → same_conditions cs cs ≡ true
unfolding same_conditions
same_conditions-of [] = refl
same_conditions-of (c ∷ cs) =
    ground (arith, same_conditions-of cs, (same_text_iff c.kind c.kind).1 refl, eq_refl c.contents)

same_conditions-to : (cs ds : List StatusCondition) → same_conditions cs ds ≡ true → cs ≡ ds
unfolding same_conditions
same_conditions-to [] [] h = refl
same_conditions-to [] (d ∷ ds) h = absurd (ground arith)
same_conditions-to (c ∷ cs) [] h = absurd (ground arith)
same_conditions-to (c ∷ cs) (d ∷ ds) h =
    ground (
      arith,
      same_conditions-to cs ds,
      (same_text_iff c.kind d.kind).0,
      eq_iff c.contents d.contents,
    )

same_conditions_iff : (cs ds : List StatusCondition) → (same_conditions cs ds ≡ true) ↔ (cs ≡ ds)
same_conditions_iff cs ds = (
  same_conditions-to cs ds,
  λ e. subst (λ x. same_conditions cs x ≡ true) e (same_conditions-of cs),
)

five :
    (a b c d e : Bool)
    → a ≡ true
    → b ≡ true
    → c ≡ true
    → d ≡ true
    → e ≡ true
    → ((a && b) && ((c && d) && e)) ≡ true
five a b c d e p q r s t = ground arith

pub same_documents-IsDeepEqual : IsDeepEqual same_documents
unfolding same_documents
same_documents-IsDeepEqual a b = (
  λ h. record {
    resource_version = (same_text_iff _ _).0 (ground arith);
    managed_fields = (same_text_iff _ _).0 (ground arith);
    annotations = (same_annotations_iff _ _).0 (ground arith);
    conditions = (same_conditions_iff _ _).0 (ground arith);
    rest = (eq_iff _ _).0 (ground arith);
  },
  λ s.
      five _ _ _ _ _ ((same_text_iff _ _).1 s.resource_version)
        ((same_text_iff _ _).1 s.managed_fields)
        ((same_annotations_iff a.annotations b.annotations).1 s.annotations)
        ((same_conditions_iff _ _).1 s.conditions) ((eq_iff _ _).1 s.rest),
)
