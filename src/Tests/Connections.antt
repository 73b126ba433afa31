-- ===== src/Tests/Connections.antt =====
-- Connections, the Ready condition and the cache of clients.
use vcf_salt_operator.Prelude.{String, [], ◌∷◌, ◌≡◌, refl, false, none, some, if◌then◌else◌, str_eq}
use vcf_salt_operator.Prelude.Int.{pos}
use vcf_salt_operator.Prelude.Dict.{Dict}
use vcf_salt_operator.Kube.{SaltKeyConfig}
use vcf_salt_operator.Kube.Error.{Result, ok, err, not_found}
use vcf_salt_operator.Raasconn.{
  Connection, resolve, resolve_default, resolve_namespace_secret, load, read_secret, configured,
  namespace_secret,
}
use vcf_salt_operator.Raasconn.Resolution.{
  IsComplete, AgreesWithDefault, resolve-IsComplete, resolve-AgreesWithDefault,
}
use vcf_salt_operator.Readiness.{Answers, validate}
use vcf_salt_operator.Readiness.Ready.{IsUsable}
use vcf_salt_operator.Tests.Fixtures.{ascii, config, connection, default_ref, secrets, spec}

abbrev pub resolves : resolve ascii secrets config default_ref ≡ ok connection
unfolding resolve resolve_default load read_secret configured
resolves = refl

resolve-IsComplete_example : IsComplete connection
resolve-IsComplete_example = resolve-IsComplete ascii secrets config default_ref resolves

resolve-AgreesWithDefault_example : AgreesWithDefault ascii secrets config default_ref connection
resolve-AgreesWithDefault_example =
    resolve-AgreesWithDefault ascii secrets config default_ref refl resolves

-- A configuration that names a Secret of its own.
abbrev secret_config : SaltKeyConfig
secret_config = record config {
  spec = record spec { raas_url = "https://own"; master_id = "m2"; credentials_secret = "creds" };
}

abbrev own_connection : Connection
own_connection = record {
  url = "https://own";
  master_id = "m2";
  username = "u";
  password = "p";
  skip_tls_verify = false;
  source = namespace_secret;
}

-- The operator's Secret is there or not.

abbrev without_default : String → String → Result (Dict String)
without_default namespace name =
    if str_eq name "creds" then ok (("username", "u") ∷ ("password", "p") ∷ []) else err not_found

own_resolves : resolve ascii without_default secret_config default_ref ≡ ok own_connection
unfolding resolve resolve_namespace_secret read_secret
own_resolves = refl

abbrev answers : Answers
answers = record {
  unicode = ascii;
  parse_duration = λ s. some (pos 1);
  compile_selector = λ s. none;
  set_status_condition = λ c cs. c ∷ cs;
  get_error = none;
  read_secret = secrets;
  patch_error = none;
}

abbrev usable : IsUsable answers config default_ref connection
usable = (refl, refl, resolves)

abbrev is_ready : (validate answers config default_ref).status ≡ "True"
unfolding validate resolve resolve_default load read_secret configured
is_ready = refl
