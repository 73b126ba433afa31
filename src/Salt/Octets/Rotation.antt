-- ===== src/Salt/Octets/Rotation.antt =====
-- Splitting at dots, joining, and the shifts of an address.
use vcf_salt_operator.Prelude.{ℕ, List, [], ◌∷◌, ◌++◌, Bool, true, false, ◌≡◌, refl, ◌≢◌, arith}
use vcf_salt_operator.Prelude.{◌+◌, ◌*◌, ◌-◌, ◌==◌, ◌&&◌, not, ap, ◌∙◌, sym, some, none, Option}
use vcf_salt_operator.Salt.Octets.{dot, split_dots, octet_ok, dotted}
use vcf_salt_operator.Salt.Octets.{rotate_parts, shift_first_octet, digits_value, unsigned_value}
use vcf_salt_operator.Salt.Octets.{atoi, cons_head}

abbrev dot_free : List ℕ → Bool
dot_free [] = true
dot_free (c ∷ s) = not (c == dot) && dot_free s

abbrev is_value {ℓ} : {A : Type ℓ} → Option A → Bool
is_value none = false
is_value (some _) = true

digits_value-dot_free :
    (acc : ℕ) (s : List ℕ) → is_value (digits_value acc s) ≡ true → dot_free s ≡ true
unfolding digits_value
digits_value-dot_free acc [] h = refl
digits_value-dot_free acc (c ∷ s) h =
    ground (arith, digits_value-dot_free (acc * 10 + (c - b'0')) s)

unsigned_value-dot_free : (s : List ℕ) → is_value (unsigned_value s) ≡ true → dot_free s ≡ true
unfolding unsigned_value
unsigned_value-dot_free [] h = refl
unsigned_value-dot_free (c ∷ s) h = digits_value-dot_free 0 (c ∷ s) h

atoi-dot_free : (s : List ℕ) → is_value (atoi s) ≡ true → dot_free s ≡ true
unfolding atoi
atoi-dot_free [] h = refl
atoi-dot_free (c ∷ s) h = ground (arith, unsigned_value-dot_free s, unsigned_value-dot_free (c ∷ s))

octet_ok-dot_free : (p : List ℕ) → octet_ok p ≡ true → dot_free p ≡ true
unfolding octet_ok
octet_ok-dot_free p h = ground (arith, atoi-dot_free p)

split_dots-dot_free : (p : List ℕ) → dot_free p ≡ true → split_dots p ≡ p ∷ []
unfolding split_dots
split_dots-dot_free [] h = refl
split_dots-dot_free (c ∷ p) h = ground (arith, split_dots-dot_free p)

split_dots-append :
    (p s : List ℕ) → dot_free p ≡ true → split_dots (p ++ (dot ∷ s)) ≡ p ∷ split_dots s
unfolding split_dots
split_dots-append [] s h = refl
split_dots-append (c ∷ p) s h = ground (arith, split_dots-append p s)

-- Joins parts with dots.
abbrev join_dots : List (List ℕ) → List ℕ
join_dots [] = []
join_dots (p ∷ []) = p
join_dots (p ∷ (q ∷ ps)) = p ++ (dot ∷ join_dots (q ∷ ps))

join_dots-cons_head : (c : ℕ) (ps : List (List ℕ)) → join_dots (cons_head c ps) ≡ c ∷ join_dots ps
join_dots-cons_head c [] = refl
join_dots-cons_head c (p ∷ []) = refl
join_dots-cons_head c (p ∷ (q ∷ ps)) = refl

join_dots_after : (ps : List (List ℕ)) → ps ≢ [] → join_dots ([] ∷ ps) ≡ dot ∷ join_dots ps
join_dots_after [] h = absurd (h refl)
join_dots_after (p ∷ ps) h = refl

cons_head-ne-nil : (c : ℕ) (ps : List (List ℕ)) → cons_head c ps ≢ []
cons_head-ne-nil c [] h = cc
cons_head-ne-nil c (p ∷ ps) h = cc

split_dots-ne-nil : (s : List ℕ) → split_dots s ≢ []
unfolding split_dots
split_dots-ne-nil [] h = cc
split_dots-ne-nil (c ∷ s) h = ground (arith, cons_head-ne-nil c (split_dots s))

pub join_dots-split_dots : (s : List ℕ) → join_dots (split_dots s) ≡ s
unfolding split_dots
join_dots-split_dots [] = refl
join_dots-split_dots (c ∷ s) = ground (
  arith,
  join_dots-split_dots s,
  join_dots-cons_head c (split_dots s),
  join_dots_after (split_dots s) (split_dots-ne-nil s),
)

abbrev pub AreOctets : List ℕ → List ℕ → List ℕ → List ℕ → Type 0
AreOctets a b c d =
    (octet_ok a ≡ true) × (octet_ok b ≡ true) × (octet_ok c ≡ true) × (octet_ok d ≡ true)

split_dots-dotted :
    (a b c d : List ℕ) → AreOctets a b c d → split_dots (dotted a b c d) ≡ a ∷ b ∷ c ∷ d ∷ []
split_dots-dotted a b c d (ha, hb, hc, hd) = rw (
  split_dots-append a _ (octet_ok-dot_free a ha),
  split_dots-append b _ (octet_ok-dot_free b hb),
  split_dots-append c _ (octet_ok-dot_free c hc),
  split_dots-dot_free d (octet_ok-dot_free d hd),
)

rotate_parts-octets :
    (a b c d : List ℕ) → AreOctets a b c d → rotate_parts (a ∷ b ∷ c ∷ d ∷ []) ≡ dotted b c d a
unfolding rotate_parts
rotate_parts-octets a b c d h = ground arith

shift-rotate_parts : (s : List ℕ) → shift_first_octet s ≡ rotate_parts (split_dots s)
unfolding shift_first_octet
shift-rotate_parts [] = refl
shift-rotate_parts (x ∷ s) = refl

-- An address of four valid octets is shifted by moving its first octet to the end.
pub shift_first_octet-dotted :
    (a b c d : List ℕ) → AreOctets a b c d → shift_first_octet (dotted a b c d) ≡ dotted b c d a
shift_first_octet-dotted a b c d h =
    rw (shift-rotate_parts, split_dots-dotted a b c d h) (rotate_parts-octets a b c d h)

-- The four octets of a list of parts, where the shift accepts it.
abbrev Quad : List (List ℕ) → Type 0
Quad ps =
    (a : List ℕ) × (b : List ℕ) × (c : List ℕ) × (d : List ℕ) × (ps ≡ a ∷ b ∷ c ∷ d ∷ [])
    × AreOctets a b c d

rotate_parts-Quad : (ps : List (List ℕ)) → rotate_parts ps ≢ [] → Quad ps
unfolding rotate_parts
rotate_parts-Quad (a ∷ b ∷ c ∷ d ∷ []) h = (a, b, c, d, refl, ground arith)
rotate_parts-Quad _ h = absurd (h refl)

-- Only an address of four valid octets is shifted.
pub shift_first_octet_inv :
    (s : List ℕ)
    → shift_first_octet s ≢ []
    → (a : List ℕ) × (b : List ℕ) × (c : List ℕ) × (d : List ℕ) × (s ≡ dotted a b c d)
      × AreOctets a b c d
shift_first_octet_inv s h =
    let (a, b, c, d, e, ok) = rotate_parts-Quad (split_dots s) (rw (shift-rotate_parts s) at h) in
    (a, b, c, d, sym (join_dots-split_dots s) ∙ ap join_dots e, ok)

-- Four shifts of an address that can be shifted give the address again.
pub shift_first_octet_four :
    (s : List ℕ)
    → shift_first_octet s ≢ []
    → shift_first_octet (shift_first_octet (shift_first_octet (shift_first_octet s))) ≡ s
shift_first_octet_four s h =
    let (a, b, c, d, e, (ha, hb, hc, hd)) = shift_first_octet_inv s h in
    rw (
      e,
      shift_first_octet-dotted a b c d (ha, hb, hc, hd),
      shift_first_octet-dotted b c d a (hb, hc, hd, ha),
      shift_first_octet-dotted c d a b (hc, hd, ha, hb),
      shift_first_octet-dotted d a b c (hd, ha, hb, hc),
    )
