-- ===== src/Prelude/Lines.antt =====
-- Texts that hold no separator, joined by it.
use Prim.Native.Char.{Char, code}
use Prim.Native.String.append
use Prim.Native.String.{String, ◌++◌}
use mathlib.Core.Path.{◌≡◌, sym, ◌∙◌, ap}
use mathlib.Core.Logic.{◌≢◌}
use mathlib.Core.Bool.{Bool, true, false, not, ◌&&◌}
use native.Mathlib.Omega.{arith}
use vcf_salt_operator.Prelude.Tests.{◌==◌}

-- Whether a text holds no character with a code.
abbrev pub lacks : Char → String → Bool
lacks c String.[] = true
lacks c (String.◌∷◌ d s) = not (code d == code c) && lacks c s

-- Texts without the separator that stand before it can be told from what follows it.
pub before_separator :
    (c : Char) (s t a b : String)
    → lacks c s ≡ true
    → lacks c t ≡ true
    → s ++ String.◌∷◌ c a ≡ t ++ String.◌∷◌ c b
    → (s ≡ t) × (a ≡ b)
before_separator c String.[] String.[] a b hs ht e =
    ground (arith, append.nil (String.◌∷◌ c a), append.nil (String.◌∷◌ c b))
before_separator c String.[] (String.◌∷◌ y t) a b hs ht e =
    absurd (ground (arith, append.nil (String.◌∷◌ c a), append.cons y t (String.◌∷◌ c b)))
before_separator c (String.◌∷◌ x s) String.[] a b hs ht e =
    absurd (ground (arith, append.nil (String.◌∷◌ c b), append.cons x s (String.◌∷◌ c a)))
before_separator c (String.◌∷◌ x s) (String.◌∷◌ y t) a b hs ht e = ground (
  arith,
  append.cons x s (String.◌∷◌ c a),
  append.cons y t (String.◌∷◌ c b),
  before_separator c s t a b,
)

separator-append :
    (sep a : String) (c : Char) → sep ≡ String.◌∷◌ c String.[] → sep ++ a ≡ String.◌∷◌ c a
separator-append sep a c one =
    ap (λ x. x ++ a) one ∙ append.cons c String.[] a ∙ ap (String.◌∷◌ c) (append.nil a)

-- `sep` is one character that `k` and `l` lack: then they and what follows the separator agree.
pub split_at :
    (sep k l a b : String) (c : Char)
    → sep ≡ String.◌∷◌ c String.[]
    → lacks c k ≡ true
    → lacks c l ≡ true
    → k ++ (sep ++ a) ≡ l ++ (sep ++ b)
    → (k ≡ l) × (a ≡ b)
split_at sep k l a b c one hk hl e = before_separator c k l a b hk hl (
    ap (λ x. k ++ x) (sym (separator-append sep a c one))
    ∙ e
    ∙ ap (λ x. l ++ x) (separator-append sep b c one))

abbrev is_nil : String → Bool
is_nil String.[] = true
is_nil (String.◌∷◌ c s) = false

nil_not-cons : (c : Char) (s : String) → String.[] ≢ String.◌∷◌ c s
nil_not-cons c s e = let differs : true ≡ false = ap is_nil e in ground arith

-- A text with a separator in it is not empty.
pub separated_not-empty :
    (sep k a : String) (c : Char) → sep ≡ String.◌∷◌ c String.[] → "" ≢ k ++ (sep ++ a)
separated_not-empty sep String.[] a c one e =
    nil_not-cons c a (e ∙ append.nil (sep ++ a) ∙ separator-append sep a c one)
separated_not-empty sep (String.◌∷◌ x k) a c one e =
    nil_not-cons x (k ++ (sep ++ a)) (e ∙ append.cons x k (sep ++ a))
