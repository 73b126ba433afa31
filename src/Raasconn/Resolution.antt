-- ===== src/Raasconn/Resolution.antt =====
-- What a resolved connection is, and which reads it depends on.
use vcf_salt_operator.Prelude.{String, true, false, ◌≡◌, arith, eq_iff, not, ◌||◌}
use vcf_salt_operator.Prelude.{Bool-cases, str_eq, if◌then◌else◌, inl, inr}
use vcf_salt_operator.Prelude.Dict.{Dict}
use vcf_salt_operator.Salt.Unicode.{Unicode}
use vcf_salt_operator.Kube.{SaltKeyConfig}
use vcf_salt_operator.Kube.Error.{Result, ok}
use vcf_salt_operator.Raasconn.{
  Connection, DefaultRef, is_set, load, resolve, resolve_default, resolve_namespace_secret,
  read_secret,
}

-- All four parts of a connection are there.
abbrev pub IsComplete : Connection → Type 0
IsComplete c =
    (is_set c.url ≡ true)
    × (is_set c.master_id ≡ true)
    × (is_set c.username ≡ true)
    × (is_set c.password ≡ true)

module _ (u : Unicode) (read : String → String → Result (Dict String)) where
  load-IsComplete : (d : DefaultRef) {c : Connection} → load u read d ≡ ok c → IsComplete c
  unfolding load
  load-IsComplete d h = ground arith

  resolve_namespace_secret-IsComplete :
      (cfg : SaltKeyConfig) {c : Connection}
      → resolve_namespace_secret u read cfg ≡ ok c
      → IsComplete c
  unfolding resolve_namespace_secret
  resolve_namespace_secret-IsComplete cfg h = ground arith

  -- What holds of a connection that the default gives.
  abbrev pub AgreesWithDefault : SaltKeyConfig → DefaultRef → Connection → Type 0
  AgreesWithDefault cfg d c =
      (load u read d ≡ ok c)
      × ((not (is_set cfg.spec.raas_url) || str_eq cfg.spec.raas_url c.url) ≡ true)
      × ((not (is_set cfg.spec.master_id) || str_eq cfg.spec.master_id c.master_id) ≡ true)
      × ((not cfg.spec.skip_tls_verify || c.skip_tls_verify) ≡ true)

  resolve_default-agrees :
      (cfg : SaltKeyConfig) (d : DefaultRef) {c : Connection}
      → resolve_default u read cfg d ≡ ok c
      → AgreesWithDefault cfg d c
  unfolding resolve_default
  resolve_default-agrees cfg d {c} h =
      ground (arith, eq_iff cfg.spec.raas_url c.url, eq_iff cfg.spec.master_id c.master_id)

  -- A connection that resolves has a URL, a master, a user name and a password, whichever way it
  -- was found.
  pub resolve-IsComplete :
      (cfg : SaltKeyConfig) (d : DefaultRef) {c : Connection}
      → resolve u read cfg d ≡ ok c
      → IsComplete c
  unfolding resolve
  resolve-IsComplete cfg d h = elim (Bool-cases (is_set cfg.spec.credentials_secret)) [
    | inl own ↦ resolve_namespace_secret-IsComplete cfg (rw own at h)
    | inr default ↦ load-IsComplete d (resolve_default-agrees cfg d (rw default at h)).0
  ]

  -- A configuration that names no Secret of its own gets the operator's default connection
  -- unchanged, or none: its URL and master, where it states them, equal the default's, and it
  -- cannot turn TLS verification off unless the default does.
  pub resolve-AgreesWithDefault :
      (cfg : SaltKeyConfig) (d : DefaultRef) {c : Connection}
      → is_set cfg.spec.credentials_secret ≡ false
      → resolve u read cfg d ≡ ok c
      → AgreesWithDefault cfg d c
  unfolding resolve
  resolve-AgreesWithDefault cfg d none_own h = resolve_default-agrees cfg d (rw none_own at h)

-- The Secret that a resolution reads: its namespace and name.
abbrev pub consulted : SaltKeyConfig → DefaultRef → String × String
consulted cfg d =
    if is_set cfg.spec.credentials_secret
    then (cfg.namespace, cfg.spec.credentials_secret)
    else (d.namespace, d.secret_name)

module _ (u : Unicode) (read read' : String → String → Result (Dict String)) where
  -- A resolution depends on one Secret only: the one that the configuration names, in its own
  -- namespace, or the operator's default. In particular a configuration with its own Secret
  -- never sees the default credentials, and none sees a Secret of another namespace.
  pub resolve-consulted :
      (cfg : SaltKeyConfig) (d : DefaultRef)
      → read (consulted cfg d).0 (consulted cfg d).1 ≡ read' (consulted cfg d).0 (consulted cfg d).1
      → resolve u read cfg d ≡ resolve u read' cfg d
  unfolding resolve resolve_namespace_secret resolve_default load read_secret
  resolve-consulted cfg d same = elim (Bool-cases (is_set cfg.spec.credentials_secret)) [
    | inl own ↦ rw own (rw (rw own at same))
    | inr default ↦ rw default (rw (rw default at same))
  ]
