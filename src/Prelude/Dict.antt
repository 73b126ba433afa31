-- ===== src/Prelude/Dict.antt =====
-- Go's `map[string]string`: a list of bindings, of which the first one of a key counts.
use Prim.Native.String.{String}
use mathlib.Core.Bool.{Bool, false, ◌||◌}
use mathlib.Core.List.{List, [], ◌∷◌, ◌++◌}
use vcf_salt_operator.Prelude.Tests.{str_eq, if◌then◌else◌}

abbrev pub Dict : Type 0 → Type 0
Dict V = List (String × V)

-- `m[k]` of a map to texts: the empty text if the key is missing.
abbrev pub get : String → Dict String → String
get k [] = ""
get k ((j, v) ∷ m) = if str_eq j k then v else get k m

abbrev pub has_key : {V : Type 0} → String → Dict V → Bool
has_key k [] = false
has_key k ((j, v) ∷ m) = str_eq j k || has_key k m

-- `maps.Copy(m, additions)`: the additions win.
abbrev pub copy_into : Dict String → Dict String → Dict String
copy_into additions m = additions ++ m
