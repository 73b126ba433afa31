-- ===== src/Tests/Retries.antt =====
-- Runs after a failure.
use vcf_salt_operator.Prelude.{[], ◌∷◌}
use vcf_salt_operator.Controller.World.{World}
use vcf_salt_operator.Tests.Fixtures.{world}

abbrev retried : World
retried = world (
    ("salt.vcf.io/salt-status", "Failed/Highstate")
    ∷ ("salt.vcf.io/roles-hash", "v2:old")
    ∷ ("salt.vcf.io/retry-request", "r1")
    ∷ [])
