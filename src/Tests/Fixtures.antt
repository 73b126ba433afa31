-- ===== src/Tests/Fixtures.antt =====
-- A world outside in which every call succeeds, and objects to run on.
use vcf_salt_operator.Prelude.{◌==◌, String, true, false, none, some, [], ◌∷◌}
use vcf_salt_operator.Prelude.{str_eq, if◌then◌else◌}
use vcf_salt_operator.Prelude.Int.{pos}
use vcf_salt_operator.Prelude.Dict.{Dict}
use vcf_salt_operator.Salt.Unicode.{Unicode}
use vcf_salt_operator.Kube.{Vm, Spec, SaltKeyConfig}
use vcf_salt_operator.Kube.Error.{Result, ok, err, not_found}
use vcf_salt_operator.Raasconn.{Connection, DefaultRef, default_connection}
use vcf_salt_operator.Controller.World.{World, Env}

abbrev pub ascii : Unicode
ascii = record { lower_rune = λ r. r; fold_eq = λ a b. a == b }

abbrev pub secret : Dict String
secret =
    ("url", "https://raas")
    ∷ ("masterID", "master")
    ∷ ("username", "root")
    ∷ ("password", "pw")
    ∷ []

abbrev pub secrets : String → String → Result (Dict String)
secrets namespace name = if str_eq name "raas" then ok secret else err not_found

abbrev pub default_ref : DefaultRef
default_ref = record { namespace = "operator"; secret_name = "raas" }

abbrev pub connection : Connection
connection = record {
  url = "https://raas";
  master_id = "master";
  username = "root";
  password = "pw";
  skip_tls_verify = false;
  source = default_connection;
}

abbrev pub spec : Spec
spec = record {
  raas_url = "";
  credentials_secret = "";
  key_acceptance = "discovery";
  accept_timeout = "";
  requeue_interval = "";
  master_id = "";
  skip_tls_verify = false;
  vm_selector = none;
  retry_token = "";
  enforcement_interval = "";
}

abbrev pub config : SaltKeyConfig
config = record {
  name = "salt-config";
  namespace = "prod";
  resource_version = "1";
  generation = 1;
  labels = [];
  spec = spec;
  conditions = [];
  observed_generation = 1;
}

abbrev pub env : Env
env = record {
  unicode = ascii;
  parse_time = λ s. if str_eq s "" then none else some 1000;
  format_time = λ n. "2026-01-01T00:00:00Z";
  parse_duration = λ s. some (pos 100000000000);
  itoa = λ n. "1";
  sha256_hex8 = λ s. s;
  sha256_u64 = λ s. 7;
  compile_selector = λ s. some (λ labels. true);
  is_status_condition_true = λ cs kind. true;
  now = λ t. 3000000000000;
  get_error = λ t. none;
  list_vms = λ t. ok [];
  list_configs = λ t ns. ok (config ∷ []);
  read_secret = λ t. secrets;
  write_error = λ t. none;
  login_error = λ t c. none;
  list_pending_keys = λ t c. ok ("web01.corp" ∷ []);
  accept_key_error = λ t c id. none;
  delete_key_error = λ t c id. some not_found;
  key_states = λ t c id. ok [];
  gen_accept_key = λ t c id force. ok (some (record { pub_key = "pub"; priv_key = "priv" }));
  master_public_key = λ t c. ok "PUBLIC KEY";
  master_last_seen = λ t c. ok "now";
  test_ping = λ t c id. ok true;
  refresh_pillar = λ t c id. ok true;
  dispatch_highstate = λ t c id. ok "20260101";
  poll_jid =
      λ t c id jid. ok (some (record { retcode = pos 0; success = true; failed_state_ids = [] }));
}

abbrev pub machine : Dict String → Vm
machine annotations = record {
  name = "web01";
  namespace = "prod";
  uid = "u1";
  annotations = ("salt.vcf.io/managed", "true") ∷ annotations;
  labels = [];
  finalizers = "salt.vcf.io/cleanup" ∷ [];
  deleting = false;
  phase = "Running";
  power_state = "";
  primary_ip = "10.1.2.3";
  guest_info = [];
  conditions = [];
}

abbrev pub world : Dict String → World
world annotations = record {
  vm = machine annotations;
  secret = none;
  cache = [];
  tick = 0;
  trace = [];
}
