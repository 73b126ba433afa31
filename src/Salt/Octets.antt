-- ===== src/Salt/Octets.antt =====
-- pkg/salt/matcher.go, `shiftFirstOctet`: an IPv4 address with its first octet moved to the end.
-- Texts are lists of code points.
pub mod Rotation
use vcf_salt_operator.Prelude.{ℕ, ◌+◌, ◌-◌, ◌*◌, List, [], ◌∷◌, ◌++◌, Bool, true, false, ◌&&◌, not}
use vcf_salt_operator.Prelude.{Option, none, some, ltb, leb, ◌==◌, if◌then◌else◌}
use vcf_salt_operator.Prelude.Int.{ℤ, pos, negsuc}
use vcf_salt_operator.Prelude.Lists.{length, All}

abbrev pub dot : ℕ
dot = b'.'

abbrev pub cons_head : ℕ → List (List ℕ) → List (List ℕ)
cons_head c [] = (c ∷ []) ∷ []
cons_head c (p ∷ ps) = (c ∷ p) ∷ ps

-- `strings.Split(s, ".")`
unfoldable pub split_dots : List ℕ → List (List ℕ)
split_dots [] = [] ∷ []
split_dots (c ∷ s) = let rest = split_dots s in if c == dot then [] ∷ rest else cons_head c rest

abbrev pub is_digit : ℕ → Bool
is_digit c = leb b'0' c && leb c b'9'

-- The digits of a number that is at most three characters long.
unfoldable pub digits_value : ℕ → List ℕ → Option ℕ
digits_value acc [] = some acc
digits_value acc (c ∷ s) =
    let rest = digits_value (acc * 10 + (c - b'0')) s in if is_digit c then rest else none

-- One digit at least.
unfoldable pub unsigned_value : List ℕ → Option ℕ
unfolding digits_value
unsigned_value [] = none
unsigned_value (c ∷ s) = digits_value 0 (c ∷ s)

abbrev pub negated : Option ℕ → Option ℤ
negated none = none
negated (some n) = some (if n == 0 then pos 0 else negsuc (n - 1))

abbrev pub plain_value : Option ℕ → Option ℤ
plain_value none = none
plain_value (some n) = some (pos n)

-- `strconv.Atoi`, below its overflow: an optional sign and at least one digit.
unfoldable pub atoi : List ℕ → Option ℤ
unfolding unsigned_value
atoi [] = none
atoi (c ∷ s) =
    if c == b'-'
    then negated (unsigned_value s)
    else if c == b'+'
    then plain_value (unsigned_value s)
    else plain_value (unsigned_value (c ∷ s))

abbrev pub in_octet : Option ℤ → Bool
in_octet none = false
in_octet (some (negsuc n)) = false
in_octet (some (pos n)) = leb n 255

-- The tests on one part.
unfoldable pub octet_ok : List ℕ → Bool
unfolding atoi
octet_ok p = not (length p == 0) && leb (length p) 3 && in_octet (atoi p)

-- The loop over the parts.
unfoldable pub octets_ok : List (List ℕ) → Bool
unfolding octet_ok
octets_ok [] = true
octets_ok (p ∷ ps) = octet_ok p && octets_ok ps

-- `fmt.Sprintf("%s.%s.%s.%s", a, b, c, d)`
abbrev pub dotted : List ℕ → List ℕ → List ℕ → List ℕ → List ℕ
dotted a b c d = a ++ (dot ∷ (b ++ (dot ∷ (c ++ (dot ∷ d)))))

unfoldable pub rotate_parts : List (List ℕ) → List ℕ
unfolding octets_ok
rotate_parts (a ∷ b ∷ c ∷ d ∷ []) = if octets_ok (a ∷ b ∷ c ∷ d ∷ []) then dotted b c d a else []
rotate_parts _ = []

-- The empty text stands for "no shifted address".
unfoldable pub shift_first_octet : List ℕ → List ℕ
unfolding split_dots rotate_parts
shift_first_octet [] = []
shift_first_octet (x ∷ xs) = rotate_parts (split_dots (x ∷ xs))
