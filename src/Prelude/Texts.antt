-- ===== src/Prelude/Texts.antt =====
-- The order of texts, by the code points of their characters.
use Prim.Native.String.compare
use Prim.Native.String.{String, compare}
use mathlib.Core.Path.{◌≡◌}
use mathlib.Core.Bool.{Bool, true, false}
use native.Mathlib.Omega.{arith}
use text.Mathlib.Text.{is_lt, is_eq}

-- `s < t`
abbrev pub before : String → String → Bool
before s t = is_lt (compare s t)

pub before_trans : (s t u : String) → before s t ≡ true → before t u ≡ true → before s u ≡ true
before_trans String.[] String.[] u h k = absurd (ground (arith, compare.nil-nil))
before_trans String.[] (String.◌∷◌ d t) String.[] h k =
    absurd (ground (arith, compare.cons-nil d t))
before_trans String.[] (String.◌∷◌ d t) (String.◌∷◌ e u) h k = ground (arith, compare.nil-cons e u)
before_trans (String.◌∷◌ c s) String.[] u h k = absurd (ground (arith, compare.cons-nil c s))
before_trans (String.◌∷◌ c s) (String.◌∷◌ d t) String.[] h k =
    absurd (ground (arith, compare.cons-nil d t))
before_trans (String.◌∷◌ c s) (String.◌∷◌ d t) (String.◌∷◌ e u) h k = ground (
  arith,
  compare.cons-cons c d s t,
  compare.cons-cons d e t u,
  compare.cons-cons c e s u,
  before_trans s t u,
)

pub before_total :
    (s t : String) → is_eq (compare s t) ≡ false → before s t ≡ false → before t s ≡ true
before_total String.[] String.[] h k = absurd (ground (arith, compare.nil-nil))
before_total String.[] (String.◌∷◌ d t) h k = absurd (ground (arith, compare.nil-cons d t))
before_total (String.◌∷◌ c s) String.[] h k = ground (arith, compare.nil-cons c s)
before_total (String.◌∷◌ c s) (String.◌∷◌ d t) h k =
    ground (arith, compare.cons-cons c d s t, compare.cons-cons d c t s, before_total s t)

pub before_irrefl : (s : String) → before s s ≡ false
before_irrefl String.[] = ground (arith, compare.nil-nil)
before_irrefl (String.◌∷◌ c s) = ground (arith, compare.cons-cons c c s s, before_irrefl s)
