-- ===== src/Salt/Json.antt =====
-- The JSON documents that pkg/salt/client.go sends and reads, and Go's `encoding/json` as the client
-- uses it. The members of an object stand with the last one of the document first, so the first
-- one of a name counts.
use Prim.Native.String
use vcf_salt_operator.Prelude.{ℕ, suc, String, Bool, true, false, ◌&&◌, ◌||◌, List, [], ◌∷◌}
use vcf_salt_operator.Prelude.{Option, none, some, str_eq, if◌then◌else◌}
use vcf_salt_operator.Prelude.Int.{ℤ}
use vcf_salt_operator.Prelude.Lists.{codes, has_prefix}
use vcf_salt_operator.Salt.Unicode.{Unicode, equal_fold}
use text.Mathlib.Text.{is_lt}

-- A number stands for what a conversion of it to `int` gives.
mutual
  pub data Json : Type 0 where
    null : Json
    boolean : Bool → Json
    number : ℤ → Json
    string : String → Json
    array : Items → Json
    object : Members → Json

  pub data Items : Type 0 where
    no_items : Items
    item : Json → Items → Items

  pub data Members : Type 0 where
    no_members : Members
    member : String → Json → Members → Members

-- `m[k]` of a `map[string]any`.
abbrev pub get_member : String → Members → Option Json
get_member k no_members = none
get_member k (member j v m) = let rest = get_member k m in if str_eq j k then some v else rest

-- The value of a field of a struct: names are compared up to case, and a `null` changes nothing.
abbrev pub tagged : Unicode → String → Members → Json
tagged u k no_members = null
tagged u k (member j v m) =
    let rest = tagged u k m in if equal_fold u (codes j) (codes k) then v else rest

-- The reading of a value into a variable that is empty before: `none` is an error.
abbrev pub read_text : Json → Option String
read_text null = some ""
read_text (string s) = some s
read_text _ = none

abbrev pub read_bool : Json → Option Bool
read_bool null = some false
read_bool (boolean b) = some b
read_bool _ = none

abbrev pub read_members : Json → Option Members
read_members null = some no_members
read_members (object m) = some m
read_members _ = none

abbrev pub read_items : Json → Option Items
read_items null = some no_items
read_items (array xs) = some xs
read_items _ = none

abbrev pub read_texts : Items → Option (List String)
read_texts no_items = some []
read_texts (item v xs) = elim (read_text v) [
  | none ↦ none
  | some s ↦ elim (read_texts xs) [ none ↦ none | some ss ↦ some (s ∷ ss) ]
]

-- `v.(string)` and `v.(map[string]any)` of a value that may be missing.
abbrev pub as_text : Option Json → String
as_text (some (string s)) = s
as_text _ = ""

abbrev pub as_members : Option Json → Option Members
as_members (some (object m)) = some m
as_members _ = none

abbrev pub as_items : Option Json → Option Items
as_items (some (array xs)) = some xs
as_items _ = none

-- `ok && v != nil`
abbrev pub is_set : Option Json → Bool
is_set none = false
is_set (some null) = false
is_set (some _) = true

-- `len(m)`: how many names there are.
abbrev pub has_name : String → Members → Bool
has_name k no_members = false
has_name k (member j v m) = str_eq j k || has_name k m

abbrev pub size : Members → ℕ
size no_members = 0
size (member k v m) = let rest = size m in if has_name k m then rest else suc rest

-- `strings.Contains`
abbrev pub has_infix : List ℕ → List ℕ → Bool
has_infix [] p = has_prefix [] p
has_infix (x ∷ xs) p = has_prefix (x ∷ xs) p || has_infix xs p

-- `strings.TrimRight(s, "/")`
unfoldable pub trim_slashes : String → String
trim_slashes String.[] = ""
trim_slashes (String.◌∷◌ c s) =
    let rest = trim_slashes s in
    if str_eq rest "" && str_eq (String.◌∷◌ c "") "/" then "" else String.◌∷◌ c rest

-- `sort.Strings`
abbrev pub insert_sorted : String → List String → List String
insert_sorted s [] = s ∷ []
insert_sorted s (t ∷ ts) =
    let rest = insert_sorted s ts in if is_lt (String.compare t s) then t ∷ rest else s ∷ (t ∷ ts)

abbrev pub sort_texts : List String → List String
sort_texts [] = []
sort_texts (s ∷ ss) = insert_sorted s (sort_texts ss)
