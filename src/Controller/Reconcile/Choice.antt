-- ===== src/Controller/Reconcile/Choice.antt =====
-- Which configuration a machine is under.
use vcf_salt_operator.Prelude.{not, ◌&&◌, ◌≡◌, refl, arith, List, [], ◌∷◌}
use vcf_salt_operator.Prelude.{Option, none, some}
use vcf_salt_operator.Prelude.Lists.{find?}
use vcf_salt_operator.Kube.{SaltKeyConfig}
use vcf_salt_operator.Controller.World.{Env}
use vcf_salt_operator.Controller.Reconcile.{choose_config, is_ready, is_enrolled}

-- The first of two that is there.
abbrev pub or_else : Option SaltKeyConfig → Option SaltKeyConfig → Option SaltKeyConfig
or_else none second = second
or_else (some cfg) second = some cfg

module _ (env : Env) where
  choose_config-from :
      (found : Option SaltKeyConfig) (cfgs : List SaltKeyConfig)
      → choose_config env found cfgs
        ≡ or_else
            (find? (λ cfg. is_ready env cfg && not (is_enrolled cfg)) cfgs)
            (or_else found (find? (is_ready env) cfgs))
  unfolding choose_config
  choose_config-from none [] = refl
  choose_config-from (some e) [] = refl
  choose_config-from none (cfg ∷ cfgs) =
      ground (arith, choose_config-from none cfgs, choose_config-from (some cfg) cfgs)
  choose_config-from (some e) (cfg ∷ cfgs) = ground (arith, choose_config-from (some e) cfgs)

  -- A machine is under the first ready configuration that the operator did not make, else under
  -- the first ready one, else under none.
  pub choose_config-first :
      (cfgs : List SaltKeyConfig)
      → choose_config env none cfgs
        ≡ or_else
            (find? (λ cfg. is_ready env cfg && not (is_enrolled cfg)) cfgs)
            (find? (is_ready env) cfgs)
  choose_config-first cfgs = choose_config-from none cfgs
