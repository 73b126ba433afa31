-- ===== src/CommaList.antt =====
-- cmd/main.go and cmd/scavenger/main.go, `splitList`: the items of a flag, between commas. The library's
-- `strings.TrimSpace` is a parameter.
use Prim.Native.Char.{Char}
use vcf_salt_operator.Prelude.{String, ◌<>◌, List, [], ◌∷◌, str_eq, if◌then◌else◌}

-- The pieces of a text between commas: the character belongs to the first.
abbrev pub before : Char → List String → List String
before ch [] = String.◌∷◌ ch "" ∷ []
before ch (p ∷ ps) = String.◌∷◌ ch p ∷ ps

abbrev pub split_commas : String → List String
split_commas String.[] = "" ∷ []
split_commas (String.◌∷◌ ch s) =
    let rest = split_commas s in if str_eq (String.◌∷◌ ch "") "," then "" ∷ rest else before ch rest

module _ (trim_space : String → String) where
  abbrev pub kept_items : List String → List String
  kept_items [] = []
  kept_items (item ∷ items) =
      let rest = kept_items items in
      if str_eq (trim_space item) "" then rest else trim_space item ∷ rest

  unfoldable pub split_list : String → List String
  split_list v = kept_items (split_commas v)

-- `strings.Join(items, ",")`
abbrev pub join_list : List String → String
join_list [] = ""
join_list (item ∷ []) = item
join_list (item ∷ (next ∷ items)) = item <> ("," <> join_list (next ∷ items))
