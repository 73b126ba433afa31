-- ===== src/Tests/Updates.antt =====
-- Updates of a machine, by the operator and by a tenant.
use vcf_salt_operator.Prelude.{
  String, ◌<>◌, true, ◌≡◌, ◌≢◌, ◌↔◌, refl, eq_iff, inl, arith, [], ◌∷◌, none, some,
}
use vcf_salt_operator.Prelude.Dict.{Dict, copy_into}
use vcf_salt_operator.Controller.IntentHash.{
  is_intent, compute_intent_hash, intent_keys, insert_key, intent_text,
}
use vcf_salt_operator.Controller.IntentHash.Order.{SameIntents}
use vcf_salt_operator.Controller.IntentHash.Faithful.{
  compute_intent_hash_iff, compute_intent_hash_ambiguous,
}
use vcf_salt_operator.Controller.OwnWrites.{
  Document, is_own_write, own_writes_only, reconciles_update,
}
use vcf_salt_operator.Controller.OwnWrites.Ignored.{Unchanged, own_writes_only_iff}
use vcf_salt_operator.Controller.OwnWrites.Seen.{trigger_change_seen}
use vcf_salt_operator.Tests.Fixtures.{env}
use vcf_salt_operator.Tests.Documents.{same_documents, same_documents-IsDeepEqual}

abbrev pub managed : Dict String
managed = ("salt.vcf.io/managed", "true") ∷ ("salt.vcf.io/roles", "web") ∷ []

abbrev pinged : Dict String
pinged = ("salt.vcf.io/salt-status", "Pinged") ∷ []

abbrev pub document : Document
document = record {
  resource_version = some "1";
  managed_fields = none;
  annotations = some managed;
  conditions = record { kind = some "VirtualMachineBackupUpToDate"; contents = "True" } ∷ [];
  rest = "spec";
}

-- The same machine after a patch of its phase.
abbrev patched : Document
patched = record document {
  resource_version = some "2";
  annotations = some (copy_into pinged managed);
  conditions = [];
}

-- The same machine with another role.
abbrev edited : Document
edited = record document { annotations = some (("salt.vcf.io/roles", "db") ∷ managed) }

own_writes_only_iff_example :
    (own_writes_only same_documents document patched ≡ true) ↔ Unchanged document patched
own_writes_only_iff_example =
    own_writes_only_iff same_documents document patched same_documents-IsDeepEqual

is_own_phase : is_own_write "salt.vcf.io/salt-status" ≡ true
unfolding is_own_write
is_own_phase = refl

roles_intent : is_intent "salt.vcf.io/roles" ≡ true
unfolding is_intent
roles_intent = refl

hashes_differ :
    compute_intent_hash env managed
    ≢ compute_intent_hash env (("salt.vcf.io/roles", "db") ∷ managed)
unfolding compute_intent_hash intent_keys insert_key intent_text is_intent
hashes_differ e = ground (
  arith,
  (eq_iff (compute_intent_hash env managed)
        (compute_intent_hash env (("salt.vcf.io/roles", "db") ∷ managed))).1
      e,
)

trigger_change_seen_example : reconciles_update same_documents document edited ≡ true
trigger_change_seen_example =
    trigger_change_seen env same_documents document edited managed
      (("salt.vcf.io/roles", "db") ∷ managed) same_documents-IsDeepEqual refl refl
      (inl hashes_differ)

-- The same annotations in another order.
abbrev reordered : Dict String
reordered = ("salt.vcf.io/roles", "web") ∷ ("salt.vcf.io/managed", "true") ∷ []

compute_intent_hash_iff_example :
    (compute_intent_hash env managed ≡ compute_intent_hash env reordered)
    ↔ SameIntents managed reordered
unfolding intent_keys insert_key is_intent
compute_intent_hash_iff_example = compute_intent_hash_iff env managed reordered refl refl (λ e. e)

managed_intent : is_intent "salt.vcf.io/managed" ≡ true
unfolding is_intent
managed_intent = refl

compute_intent_hash_ambiguous_example :
    compute_intent_hash env
      (("salt.vcf.io/managed", "true" <> ("\n" <> ("salt.vcf.io/roles" <> ("=" <> "web")))) ∷ [])
    ≡ compute_intent_hash env (("salt.vcf.io/managed", "true") ∷ ("salt.vcf.io/roles", "web") ∷ [])
compute_intent_hash_ambiguous_example =
    compute_intent_hash_ambiguous env "salt.vcf.io/managed" "salt.vcf.io/roles" "true" "web"
      managed_intent roles_intent refl
