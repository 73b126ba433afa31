-- ===== src/Salt/Matcher/Priority.antt =====
-- Which key is taken, and by which strategy.
use vcf_salt_operator.Prelude.{List, [], ◌∷◌, Bool, true, false, ◌≡◌, ◌||◌, String, ℕ}
use vcf_salt_operator.Prelude.{Option, none, some, refl, Bool-cases, inl, inr, ◌⊎◌}
use vcf_salt_operator.Prelude.Lists.{codes, All}
use vcf_salt_operator.Salt.Unicode.{Unicode}
use vcf_salt_operator.Salt.Octets.{shift_first_octet}
use vcf_salt_operator.Salt.Matcher.{
  MatchMethod, by_name, by_ip, by_shifted_ip, by_prefix, no_match, MatchResult, matched,
  name_matches, ip_matches, shifted_matches, prefix_matches, match_name, match_ip, match_prefix,
  find_minion_id, or_else,
}

-- `k` is the first text of the list that passes the test.
pub data IsFirst (p : String → Bool) (k : String) : List String → Type 0 where
  here : {ks : List String} → p k ≡ true → IsFirst p k (k ∷ ks)
  later : {j : String} {ks : List String} → p j ≡ false → IsFirst p k ks → IsFirst p k (j ∷ ks)

-- No text of the list passes the test.
abbrev pub NonePass : (String → Bool) → List String → Type 0
NonePass p = All (λ k. p k ≡ false)

-- The result of a loop: the first key that passes, with a fact about the result, or none passes.
abbrev Scanned :
    (String → Bool) → (MatchResult → Type 0) → List String → Option MatchResult → Type 0
Scanned p Q keys none = NonePass p keys
Scanned p Q keys (some r) = IsFirst p r.minion_id keys × Q r

Scanned-later :
    (p : String → Bool) (Q : MatchResult → Type 0) (key : String) (keys : List String)
    (o : Option MatchResult)
    → p key ≡ false
    → Scanned p Q keys o
    → Scanned p Q (key ∷ keys) o
Scanned-later p Q key keys none f s = (f, s)
Scanned-later p Q key keys (some r) f (first, q) = (later f first, q)

module _ (u : Unicode) (vm_name vm_ip : String) where
  abbrev pub shifted_ip : List ℕ
  shifted_ip = shift_first_octet (codes vm_ip)

  abbrev pub address_matches : String → Bool
  address_matches key =
      ip_matches u vm_name vm_ip key || shifted_matches u vm_name vm_ip shifted_ip key

  -- What each method of a result says of the key and of the pending keys.
  abbrev pub Explains : MatchMethod → String → List String → Type 0
  Explains by_name id keys = IsFirst (name_matches u vm_name vm_ip) id keys
  Explains by_ip id keys =
      NonePass (name_matches u vm_name vm_ip) keys
      × IsFirst address_matches id keys
      × (ip_matches u vm_name vm_ip id ≡ true)
  Explains by_shifted_ip id keys =
      NonePass (name_matches u vm_name vm_ip) keys
      × IsFirst address_matches id keys
      × (ip_matches u vm_name vm_ip id ≡ false)
      × (shifted_matches u vm_name vm_ip shifted_ip id ≡ true)
  Explains by_prefix id keys =
      NonePass (name_matches u vm_name vm_ip) keys
      × NonePass address_matches keys
      × IsFirst (prefix_matches u vm_name vm_ip) id keys
  Explains no_match id keys =
      NonePass (name_matches u vm_name vm_ip) keys
      × NonePass address_matches keys
      × NonePass (prefix_matches u vm_name vm_ip) keys
      × (id ≡ "")

  match_name-Scanned :
      (keys : List String)
      → Scanned
          (name_matches u vm_name vm_ip)
          (λ r. r.method ≡ by_name)
          keys
          (match_name u vm_name vm_ip keys)
  unfolding match_name
  match_name-Scanned [] = tt
  match_name-Scanned (key ∷ keys) = elim (Bool-cases (name_matches u vm_name vm_ip key)) [
    | inl t ↦ rw t (here t, refl)
    | inr f ↦
        rw f (Scanned-later (name_matches u vm_name vm_ip) _ key keys _ f (match_name-Scanned keys))
  ]

  -- Which of the two address tests chose the key.
  abbrev ByAddress : MatchResult → Type 0
  ByAddress r =
      ((r.method ≡ by_ip) × (ip_matches u vm_name vm_ip r.minion_id ≡ true))
      ⊎ ((r.method ≡ by_shifted_ip)
          × (ip_matches u vm_name vm_ip r.minion_id ≡ false)
          × (shifted_matches u vm_name vm_ip shifted_ip r.minion_id ≡ true))

  match_ip-Scanned :
      (keys : List String)
      → Scanned address_matches ByAddress keys (match_ip u vm_name vm_ip shifted_ip keys)
  unfolding match_ip
  match_ip-Scanned [] = tt
  match_ip-Scanned (key ∷ keys) = elim (Bool-cases (ip_matches u vm_name vm_ip key)) [
    | inl t ↦ rw t (here (rw t), inl (refl, t))
    | inr f ↦ elim (Bool-cases (shifted_matches u vm_name vm_ip shifted_ip key)) [
      | inl t ↦ rw (f, t) (here (rw (f, t)), inr (refl, f, t))
      | inr g ↦
          rw (f, g)
            (Scanned-later address_matches ByAddress key keys _ (rw (f, g)) (match_ip-Scanned keys))
    ]
  ]

  match_prefix-Scanned :
      (keys : List String)
      → Scanned
          (prefix_matches u vm_name vm_ip)
          (λ r. r.method ≡ by_prefix)
          keys
          (match_prefix u vm_name vm_ip keys)
  unfolding match_prefix
  match_prefix-Scanned [] = tt
  match_prefix-Scanned (key ∷ keys) = elim (Bool-cases (prefix_matches u vm_name vm_ip key)) [
    | inl t ↦ rw t (here t, refl)
    | inr f ↦
        rw f (
          Scanned-later (prefix_matches u vm_name vm_ip) _ key keys _ f (match_prefix-Scanned keys))
  ]

  first_of_three :
      (keys : List String) (o p q : Option MatchResult)
      → Scanned (name_matches u vm_name vm_ip) (λ r. r.method ≡ by_name) keys o
      → Scanned address_matches ByAddress keys p
      → Scanned (prefix_matches u vm_name vm_ip) (λ r. r.method ≡ by_prefix) keys q
      → let r =
          or_else u vm_name vm_ip o
            (or_else u vm_name vm_ip p (or_else u vm_name vm_ip q (matched "" no_match))) in
        Explains r.method r.minion_id keys
  first_of_three keys (some r) p q (first, e) _ _ = rw e first
  first_of_three keys none (some r) q unnamed (first, inl (e, ip)) _ = rw e (unnamed, first, ip)
  first_of_three keys none (some r) q unnamed (first, inr (e, f, t)) _ = rw e (unnamed, first, f, t)
  first_of_three keys none none (some r) unnamed unaddressed (first, e) =
      rw e (unnamed, unaddressed, first)
  first_of_three keys none none none unnamed unaddressed unprefixed =
      (unnamed, unaddressed, unprefixed, refl)

  -- The method of the result says which strategy chose the key, and the strategies are tried in
  -- the order name, address, prefix over all pending keys. A key chosen by name is the first one
  -- whose name equals the machine's up to case; one chosen by address is the first that equals
  -- the machine's address or that address shifted, and no pending key has the name; one chosen
  -- by prefix is the first that begins with the name and a dot, and no key has the name or an
  -- address. The first key that is either address is taken, so a shifted one may stand before the
  -- address itself. Without a match no pending key passes any test, and the identifier is empty.
  pub find_minion_id-Explains :
      (pending : List String)
      → let r = find_minion_id u vm_name vm_ip pending in Explains r.method r.minion_id pending
  unfolding find_minion_id
  find_minion_id-Explains pending =
      first_of_three pending _ _ _ (match_name-Scanned pending) (match_ip-Scanned pending)
        (match_prefix-Scanned pending)
