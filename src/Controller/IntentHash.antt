-- ===== src/Controller/IntentHash.antt =====
-- virtualmachine_controller.go, `computeIntentHash`, `computeLegacyRolesHash` and
-- `adoptLegacyIntentHash`: the fingerprint of the annotations that a tenant sets.
pub mod Stability
pub mod Order
pub mod Faithful
use Prim.Native.String
use vcf_salt_operator.Prelude.{String, ◌<>◌, Bool, true, false, not, ◌&&◌, List, [], ◌∷◌, map}
use vcf_salt_operator.Prelude.{str_eq, if◌then◌else◌}
use vcf_salt_operator.Prelude.Lists.{contains}
use vcf_salt_operator.Prelude.Dict.{Dict, get}
use text.Mathlib.Text.{starts_with, is_lt}
use vcf_salt_operator.Controller.Names.{intent_prefix, non_intent_annotations, intent_hash_version}
use vcf_salt_operator.Controller.Names.{annotation_roles, annotation_roles_hash}
use vcf_salt_operator.Controller.World.{Env}
use vcf_salt_operator.Controller.Run.{M, return, ◌>>=◌, ◌>>◌, current_vm, patch_annotations}

-- The keys that the loop keeps.
unfoldable pub is_intent : String → Bool
is_intent k = starts_with k intent_prefix && not (contains non_intent_annotations k)

-- `sort.Strings` over keys that differ: a key that is there already is the same key again.
unfoldable pub insert_key : String → List String → List String
insert_key k [] = k ∷ []
insert_key k (j ∷ ks) =
    let rest = insert_key k ks in
    if str_eq k j then j ∷ ks else if is_lt (String.compare k j) then k ∷ (j ∷ ks) else j ∷ rest

-- The keys of the map that the loop keeps, sorted.
unfoldable pub intent_keys : Dict String → List String
intent_keys [] = []
intent_keys ((k, _) ∷ m) =
    let rest = intent_keys m in if is_intent k then insert_key k rest else rest

-- The text that is hashed: a line for each key.
unfoldable pub intent_text : List String → Dict String → String
intent_text [] m = ""
intent_text (k ∷ ks) m = k <> ("=" <> (get k m <> ("\n" <> intent_text ks m)))

module _ (env : Env) where
  unfoldable pub compute_intent_hash : Dict String → String
  compute_intent_hash m = intent_hash_version <> env.sha256_hex8 (intent_text (intent_keys m) m)

  unfoldable pub compute_legacy_roles_hash : String → String
  compute_legacy_roles_hash roles = env.sha256_hex8 roles

  -- Whether a hash of the old form was replaced, in which case the reconcile ends.
  unfoldable pub adopt_legacy_intent_hash : String → M Bool
  adopt_legacy_intent_hash stored = do
    vm ← current_vm
    (if (str_eq (compute_legacy_roles_hash (get annotation_roles vm.annotations)) stored)
        then (do
          patch_annotations env ((annotation_roles_hash, compute_intent_hash vm.annotations) ∷ [])
          return true)
        else (return false))
