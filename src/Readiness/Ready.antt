-- ===== src/Readiness/Ready.antt =====
-- What the Ready condition says.
use vcf_salt_operator.Prelude.{true, ◌≡◌, [], ◌∷◌}
use vcf_salt_operator.Kube.{SaltKeyConfig}
use vcf_salt_operator.Kube.Error.{ok}
use vcf_salt_operator.Raasconn.{Connection, DefaultRef, resolve}
use vcf_salt_operator.Readiness.{Answers, valid_durations, valid_selector}

module _ (a : Answers) (cfg : SaltKeyConfig) (d : DefaultRef) where
  -- What a configuration needs to be ready.
  abbrev pub IsUsable : Connection → Type 0
  IsUsable c =
      (valid_durations a (cfg.spec.accept_timeout ∷ cfg.spec.requeue_interval ∷ []) ≡ true)
      × (valid_selector a cfg.spec.vm_selector ≡ true)
      × (resolve a.unicode a.read_secret cfg d ≡ ok c)
