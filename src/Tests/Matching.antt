-- ===== src/Tests/Matching.antt =====
-- Keys and addresses.
use vcf_salt_operator.Prelude.{ℕ, String, List, [], ◌∷◌, ◌≡◌, refl}
use vcf_salt_operator.Prelude.Lists.{codes}
use vcf_salt_operator.Salt.Octets.{
  shift_first_octet, octet_ok, split_dots, rotate_parts, octets_ok, atoi, unsigned_value,
  digits_value,
}
use vcf_salt_operator.Salt.Matcher.{find_minion_id, matched, MatchResult, by_shifted_ip}
use vcf_salt_operator.Salt.Matcher.Priority.{Explains, find_minion_id-Explains}
use vcf_salt_operator.Tests.Fixtures.{ascii}

abbrev address : List ℕ
address = codes "10.1.2.3"

shift_runs : shift_first_octet address ≡ codes "1.2.3.10"
unfolding shift_first_octet split_dots rotate_parts octets_ok octet_ok atoi unsigned_value
    digits_value
shift_runs = refl

shift_refuses : shift_first_octet (codes "10.1.2.256") ≡ []
unfolding shift_first_octet split_dots rotate_parts octets_ok octet_ok atoi unsigned_value
    digits_value
shift_refuses = refl

abbrev pending : List String
pending = "db" ∷ "1.2.3.10" ∷ "web01.corp" ∷ []

match_runs : find_minion_id ascii "web01" "10.1.2.3" pending ≡ matched "1.2.3.10" by_shifted_ip
unfolding find_minion_id shift_first_octet split_dots rotate_parts octets_ok octet_ok atoi
    unsigned_value digits_value
match_runs = refl

find_minion_id-Explains_example :
    let r = find_minion_id ascii "web01" "10.1.2.3" pending in
    Explains ascii "web01" "10.1.2.3" (MatchResult.method r) (MatchResult.minion_id r) pending
find_minion_id-Explains_example = find_minion_id-Explains ascii "web01" "10.1.2.3" pending
