-- ===== src/Salt/Client/Listings.antt =====
-- pkg/salt/client.go, `extractMinions`: the names of a listing.
use vcf_salt_operator.Prelude.{String, not, List, [], ◌∷◌, str_eq}
use vcf_salt_operator.Prelude.Lists.{filter}
use vcf_salt_operator.Salt.Json.{Items, object, string, no_members, member, no_items, item}

-- The results of a listing, as the server writes them.
abbrev pub listed : List String → Items
listed [] = no_items
listed (id ∷ ids) = item (object (member "minion" (string id) no_members)) (listed ids)

abbrev pub named : List String → List String
named ids = filter (λ id. not (str_eq id "")) ids
