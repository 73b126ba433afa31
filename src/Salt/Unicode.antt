-- ===== src/Salt/Unicode.antt =====
-- The Unicode tables of Go's `unicode` package, which `strings.ToLower` and `strings.EqualFold`
-- apply rune by rune.
use vcf_salt_operator.Prelude.{ℕ, List, Bool, map}
use vcf_salt_operator.Prelude.Lists.{eq_by}

pub record Unicode : Type 0 where
  pub lower_rune : ℕ → ℕ
  pub fold_eq : ℕ → ℕ → Bool

-- `strings.ToLower`
abbrev pub to_lower : Unicode → List ℕ → List ℕ
to_lower u = map u.lower_rune

-- `strings.EqualFold`
abbrev pub equal_fold : Unicode → List ℕ → List ℕ → Bool
equal_fold u = eq_by u.fold_eq
