-- ===== src/Controller/Chain/Settled.antt =====
-- The hash that a dispatch records.
use vcf_salt_operator.Prelude.{String, ◌≡◌, refl, sym, [], ◌∷◌, none}
use vcf_salt_operator.Prelude.Int.{ℤ}
use vcf_salt_operator.Prelude.Dict.{get}
use vcf_salt_operator.Raasconn.{Connection}
use vcf_salt_operator.Controller.Names.{
  annotation_salt_status, annotation_highstate_jid, annotation_highstate_status, annotation_ready,
  annotation_false, annotation_roles_hash, salt_status_highstate_dispatched,
}
use vcf_salt_operator.Controller.World.{World, Env}
use vcf_salt_operator.Controller.Run.{◌>>=◌, patch_annotations, write}
use vcf_salt_operator.Controller.Run.Keeps.{end}
use vcf_salt_operator.Controller.IntentHash.{is_intent, compute_intent_hash}
use vcf_salt_operator.Controller.IntentHash.Stability.{compute_intent_hash-copy_into}
use vcf_salt_operator.Controller.Chain.{dispatch_succeeded}

module _ (env : Env) (c : Connection) where
  -- The hash that the patch behind a dispatch records is the hash of the annotations that the
  -- patch leaves, so the patch itself asks for no new run.
  pub dispatch_succeeded-settled :
      (jid : String) (requeue_after : ℤ) (w : World)
      → env.write_error w.tick ≡ none
      → let v = end (dispatch_succeeded env c jid requeue_after w) in
        get annotation_roles_hash v.vm.annotations ≡ compute_intent_hash env v.vm.annotations
  unfolding dispatch_succeeded patch_annotations write ◌>>=◌ is_intent
  dispatch_succeeded-settled jid r w p =
      rw (p, end)
        (sym (
          compute_intent_hash-copy_into env
            ((annotation_salt_status, salt_status_highstate_dispatched)
              ∷ (annotation_highstate_jid, jid)
              ∷ (annotation_highstate_status, "InProgress")
              ∷ (annotation_ready, annotation_false)
              ∷ (annotation_roles_hash, compute_intent_hash env w.vm.annotations)
              ∷ [])
            w.vm.annotations refl))
