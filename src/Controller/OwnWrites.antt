-- ===== src/Controller/OwnWrites.antt =====
-- virtualmachine_controller.go, `ownWritesOnly` and `withoutOwnWrites`: the filter of the updates of a
-- machine.
pub mod Conditions
pub mod Keys
pub mod Ignored
pub mod Seen
use vcf_salt_operator.Prelude.{
  List, [], ◌∷◌, String, Bool, true, false, not, ◌&&◌, ◌||◌, Option, none, some, str_eq,
  if◌then◌else◌,
}
use vcf_salt_operator.Prelude.Lists.{contains, filter}
use vcf_salt_operator.Prelude.Dict.{Dict}
use vcf_salt_operator.Controller.Names.{
  non_intent_annotations, annotation_retry_request, vm_backup_version_annotation,
  vm_conversion_annotation, vm_backup_condition,
}

-- A condition: its type, where it is a map with a text for one, and all that it holds.
pub record StatusCondition : Type 0 where
  pub kind : Option String
  pub contents : String

-- The document of a machine, by the parts that the filter tells apart. Annotations are none where
-- they are missing or not texts, conditions are empty where they are no list. The other parts, and
-- the contents of a condition, are texts that are equal for equal contents.
pub record Document : Type 0 where
  pub resource_version : Option String
  pub managed_fields : Option String
  pub annotations : Option (Dict String)
  pub conditions : List StatusCondition
  pub rest : String

-- The keys that are deleted before the comparison.
unfoldable pub is_own_write : String → Bool
is_own_write k =
    (contains non_intent_annotations k && not (str_eq k annotation_retry_request))
    || (str_eq k vm_backup_version_annotation || str_eq k vm_conversion_annotation)

abbrev pub without_own_annotations : Option (Dict String) → Option (Dict String)
without_own_annotations none = none
without_own_annotations (some m) = some (filter (λ (k, _). not (is_own_write k)) m)

-- `m["type"] == vmBackupCondition`
abbrev pub is_backup : Option String → Bool
is_backup none = false
is_backup (some kind) = str_eq kind vm_backup_condition

unfoldable pub without_backup : List StatusCondition → List StatusCondition
without_backup cs = filter (λ c. not (is_backup c.kind)) cs

-- `withoutOwnWrites`
unfoldable pub without_own_writes : Document → Document
without_own_writes d = record d {
  resource_version = none;
  managed_fields = none;
  annotations = without_own_annotations d.annotations;
  conditions = without_backup d.conditions;
}

-- `ownWritesOnly`, of two machines, with the library's `equality.Semantic.DeepEqual`.
unfoldable pub own_writes_only : (Document → Document → Bool) → Document → Document → Bool
own_writes_only deep_equal old_doc new_doc =
    deep_equal (without_own_writes old_doc) (without_own_writes new_doc)

-- The update filter of `SetupWithManager`: whether an update starts a reconcile.
unfoldable pub reconciles_update : (Document → Document → Bool) → Document → Document → Bool
reconciles_update deep_equal old_doc new_doc = not (own_writes_only deep_equal old_doc new_doc)
