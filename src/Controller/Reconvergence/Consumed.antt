-- ===== src/Controller/Reconvergence/Consumed.antt =====
-- What becomes of the triggers of a run.
use vcf_salt_operator.Prelude.{String, [], ◌∷◌, ◌++◌}
use vcf_salt_operator.Prelude.Dict.{Dict}
use vcf_salt_operator.Controller.Names.{
  annotation_roles_hash, annotation_salt_status, annotation_ready, annotation_highstate_status,
  annotation_false,
}
use vcf_salt_operator.Controller.World.{World, Env}
use vcf_salt_operator.Controller.IntentHash.{compute_intent_hash}
use vcf_salt_operator.Controller.Reconvergence.{handled}

-- The annotations that a reset writes.
abbrev reset : Env → String → Dict String → Dict String
reset env token a =
    handled token a
    ++ ((annotation_salt_status, "")
        ∷ (annotation_ready, annotation_false)
        ∷ (annotation_highstate_status, "")
        ∷ (annotation_roles_hash, compute_intent_hash env a)
        ∷ [])
