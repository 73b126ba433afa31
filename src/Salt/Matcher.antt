-- ===== src/Salt/Matcher.antt =====
-- pkg/salt/matcher.go, `FindMinionID`: the pending key of a virtual machine.
pub mod Priority
use vcf_salt_operator.Prelude.{List, [], ◌∷◌, ◌++◌, Bool, true, false, not, ◌&&◌, ◌||◌, String}
use vcf_salt_operator.Prelude.{Option, none, some, str_eq, if◌then◌else◌, ℕ}
use vcf_salt_operator.Prelude.Lists.{codes, text_eq, has_prefix, find?}
use vcf_salt_operator.Salt.Unicode.{Unicode, to_lower, equal_fold}
use vcf_salt_operator.Salt.Octets.{shift_first_octet, dot}

pub data MatchMethod : Type 0 where
  by_name by_ip by_shifted_ip by_prefix no_match : MatchMethod

pub record MatchResult : Type 0 where
  pub minion_id : String
  pub method : MatchMethod

abbrev pub matched : String → MatchMethod → MatchResult
matched id m = record { minion_id = id; method = m }

abbrev pub is_empty : List ℕ → Bool
is_empty [] = true
is_empty (_ ∷ _) = false

-- The tests of the three loops on one key.
module _ (u : Unicode) (vm_name vm_ip : String) where
  abbrev pub name_matches : String → Bool
  name_matches key = equal_fold u (codes key) (codes vm_name)

  abbrev pub ip_matches : String → Bool
  ip_matches key = not (str_eq vm_ip "") && str_eq key vm_ip

  abbrev pub shifted_matches : List ℕ → String → Bool
  shifted_matches shifted key = not (is_empty shifted) && text_eq (codes key) shifted

  abbrev pub prefix_matches : String → Bool
  prefix_matches key =
      not (str_eq vm_name "")
      && has_prefix (to_lower u (codes key)) (to_lower u (codes vm_name) ++ (dot ∷ []))

  -- The first loop.
  pub match_name : List String → Option MatchResult
  match_name [] = none
  match_name (key ∷ keys) =
      let rest = match_name keys in if name_matches key then some (matched key by_name) else rest

  -- The second loop, with both tests on each key.
  pub match_ip : List ℕ → List String → Option MatchResult
  match_ip shifted [] = none
  match_ip shifted (key ∷ keys) =
      let rest = match_ip shifted keys in
      if ip_matches key
      then some (matched key by_ip)
      else if shifted_matches shifted key
      then some (matched key by_shifted_ip)
      else rest

  -- The third loop.
  pub match_prefix : List String → Option MatchResult
  match_prefix [] = none
  match_prefix (key ∷ keys) =
      let rest = match_prefix keys in
      if prefix_matches key then some (matched key by_prefix) else rest

  abbrev pub or_else : Option MatchResult → MatchResult → MatchResult
  or_else (some r) s = r
  or_else none s = s

  unfoldable pub find_minion_id : List String → MatchResult
  unfolding match_name match_ip match_prefix
  find_minion_id pending = or_else (match_name pending) (
      or_else (match_ip (shift_first_octet (codes vm_ip)) pending)
        (or_else (match_prefix pending) (matched "" no_match)))
