-- ===== src/Prelude/Lists.antt =====
-- Lists measured by native numbers, Boolean searches in lists, and the code points of a text.
use Prim.Native.Char.{code}
use Prim.Native.String.{String}
use Prim.Native.Nat.{ℕ, suc}
use mathlib.Core.Path.{◌≡◌}
use mathlib.Core.Logic.{◌⊎◌}
use mathlib.Core.Bool.{Bool, true, false, ◌&&◌, ◌||◌}
use mathlib.Core.Option.{Option, none, some}
use mathlib.Core.List.{List, [], ◌∷◌}
use vcf_salt_operator.Prelude.Tests.{◌==◌, str_eq, if◌then◌else◌}

-- The code points of a text.
abbrev pub codes : String → List ℕ
codes String.[] = []
codes (String.◌∷◌ c s) = code c ∷ codes s

module _ {ℓ} {A : Type ℓ} where
  abbrev pub length : List A → ℕ
  length [] = 0
  length (x ∷ xs) = suc (length xs)

  -- `slices.ContainsFunc`
  abbrev pub any : (A → Bool) → List A → Bool
  any p [] = false
  any p (x ∷ xs) = p x || any p xs

  -- The first element that passes a test.
  abbrev pub find? : (A → Bool) → List A → Option A
  find? p [] = none
  find? p (x ∷ xs) = let rest = find? p xs in if p x then some x else rest

  abbrev pub filter : (A → Bool) → List A → List A
  filter p [] = []
  filter p (x ∷ xs) = let rest = filter p xs in if p x then x ∷ rest else rest

-- Membership and quantification, as types that compute on lists.
abbrev pub In : {A : Type 0} → A → List A → Type 0
In a [] = ⊥
In a (x ∷ xs) = (a ≡ x) ⊎ In a xs

abbrev pub All : {A : Type 0} → (A → Type 0) → List A → Type 0
All P [] = Unit {0}
All P (x ∷ xs) = P x × All P xs

-- `slices.Contains` on texts.
abbrev pub contains : List String → String → Bool
contains xs s = any (λ x. str_eq x s) xs

-- Equality of two lists of code points, rune by rune under a test.
abbrev pub eq_by : (ℕ → ℕ → Bool) → List ℕ → List ℕ → Bool
eq_by eq [] [] = true
eq_by eq (x ∷ xs) (y ∷ ys) = eq x y && eq_by eq xs ys
eq_by eq _ _ = false

abbrev pub text_eq : List ℕ → List ℕ → Bool
text_eq = eq_by (λ x y. x == y)

-- `strings.HasPrefix`, the prefix second.
abbrev pub has_prefix : List ℕ → List ℕ → Bool
has_prefix s [] = true
has_prefix [] (p ∷ ps) = false
has_prefix (x ∷ xs) (p ∷ ps) = x == p && has_prefix xs ps
