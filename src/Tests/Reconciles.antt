-- ===== src/Tests/Reconciles.antt =====
-- Whole reconciles of a machine.
use vcf_salt_operator.Prelude.{true, false, ◌≡◌, refl, [], ◌∷◌, inl, inr, none, some}
use vcf_salt_operator.Prelude.Lists.{contains, In}
use vcf_salt_operator.Prelude.Dict.{copy_into}
use vcf_salt_operator.Controller.Names.{salt_finalizer}
use vcf_salt_operator.Controller.World.{World, patched}
use vcf_salt_operator.Controller.Run.Keeps.{end}
use vcf_salt_operator.Controller.IntentHash.{compute_intent_hash}
use vcf_salt_operator.Raasconn.{
  resolve, resolve_namespace_secret, resolve_default, load, read_secret, configured,
}
use vcf_salt_operator.Controller.Run.{patch_annotations, add_finalizer, ◌>>=◌}
use vcf_salt_operator.Controller.Cache.{
  salt_client_from_config, cached_client, cache_get, new_client, store_client, cache_set,
}
use vcf_salt_operator.Controller.Preseed.{since_vsphere_create, creation_time, guest_signalled}
use vcf_salt_operator.Controller.Chain.{
  run_refresh_pillar, master_last_seen, refresh_pillar, pillar_succeeded,
}
use vcf_salt_operator.Controller.Reconvergence.{reconcile_post_accept, in_phase}
use vcf_salt_operator.Controller.Create.{reconcile_create, clear_used_key, accepted}
use vcf_salt_operator.Controller.Reconcile.{
  reconcile, reconcile_managed, reconcile_under, find_salt_key_config, choose_config,
  matches_vm_selector,
}
use vcf_salt_operator.Controller.OwnWrites.{reconciles_update}
use vcf_salt_operator.Controller.Frame.Intent.{reconcile-intent_hash}
use vcf_salt_operator.Controller.Frame.Updates.{reconcile-patches_ignored}
use vcf_salt_operator.Controller.Frame.Release.{reconcile-keeps_finalizer}
use vcf_salt_operator.Tests.Documents.{same_documents, same_documents-IsDeepEqual}
use vcf_salt_operator.Tests.Updates.{document, managed}
use vcf_salt_operator.Tests.Fixtures.{env, default_ref, world}

abbrev new_machine : World
new_machine = world (("salt.vcf.io/roles", "web") ∷ [])

-- The machine behind a phase that the reconcile takes up again.
abbrev pinged_machine : World
pinged_machine = world (
    ("salt.vcf.io/key-status", "Accepted")
    ∷ ("salt.vcf.io/minion-id", "web01")
    ∷ ("salt.vcf.io/salt-status", "Pinged")
    ∷ [])

abbrev final : World
final = end (reconcile env default_ref pinged_machine)

reconcile-intent_hash_example :
    compute_intent_hash env (end (reconcile env default_ref new_machine)).vm.annotations
    ≡ compute_intent_hash env new_machine.vm.annotations
reconcile-intent_hash_example = reconcile-intent_hash env default_ref new_machine

reconcile-keeps_finalizer_example :
    contains (end (reconcile env default_ref new_machine)).vm.finalizers salt_finalizer ≡ true
reconcile-keeps_finalizer_example = reconcile-keeps_finalizer env default_ref new_machine refl refl

is_patched : In (patched (("salt.vcf.io/salt-status", "PillarRefreshed") ∷ [])) final.trace
unfolding reconcile reconcile_managed find_salt_key_config choose_config reconcile_under
    matches_vm_selector reconcile_create since_vsphere_create creation_time clear_used_key
    guest_signalled accepted salt_client_from_config cached_client cache_get new_client store_client
    cache_set resolve resolve_namespace_secret resolve_default load read_secret configured
    reconcile_post_accept in_phase run_refresh_pillar master_last_seen refresh_pillar
    pillar_succeeded patch_annotations add_finalizer ◌>>=◌
is_patched = inr (inl refl)

reconcile-patches_ignored_example :
    reconciles_update same_documents document (record document {
      resource_version = some "2";
      managed_fields = none;
      annotations = some (copy_into (("salt.vcf.io/salt-status", "PillarRefreshed") ∷ []) managed);
    })
    ≡ false
reconcile-patches_ignored_example =
    reconcile-patches_ignored env default_ref same_documents pinged_machine
      (("salt.vcf.io/salt-status", "PillarRefreshed") ∷ []) document managed (some "2") none
      same_documents-IsDeepEqual refl is_patched refl
