-- ===== src/Startup/Options.antt =====
-- cmd/main.go, `main`: the flags of the servers, and the options of the manager that they give.
use vcf_salt_operator.Prelude.{String, Bool, true, false, not, List, [], ◌∷◌, str_eq, if◌then◌else◌}

-- Where the certificate of a server lies.
pub record CertFlags : Type 0 where
  pub path : String
  pub name : String
  pub key : String

pub record ServerFlags : Type 0 where
  pub metrics_addr : String
  pub probe_addr : String
  pub leader_elect : Bool
  pub secure_metrics : Bool
  pub enable_http2 : Bool
  pub metrics_cert : CertFlags
  pub webhook_cert : CertFlags

-- The servers of a start without flags.
abbrev pub default_server_flags : ServerFlags
default_server_flags = record {
  metrics_addr = "0";
  probe_addr = ":8081";
  leader_elect = false;
  secure_metrics = true;
  enable_http2 = false;
  metrics_cert = record { path = ""; name = "tls.crt"; key = "tls.key" };
  webhook_cert = record { path = ""; name = "tls.crt"; key = "tls.key" };
}

-- The part of a `tls.Config` that the start changes.
pub record TlsConfig : Type 0 where
  pub next_protos : List String

abbrev pub disable_http2 : TlsConfig → TlsConfig
disable_http2 c = record c { next_protos = "http/1.1" ∷ [] }

-- The changes of the configurations of both servers.
unfoldable pub tls_opts : ServerFlags → List (TlsConfig → TlsConfig)
tls_opts f = if not f.enable_http2 then disable_http2 ∷ [] else []

-- The watched certificate: empty texts where no path is given.
unfoldable pub watched : CertFlags → CertFlags
watched c = if not (str_eq c.path "") then c else record { path = ""; name = ""; key = "" }

pub record WebhookOptions : Type 0 where
  pub tls : List (TlsConfig → TlsConfig)
  pub cert : CertFlags

pub record MetricsOptions : Type 0 where
  pub bind_address : String
  pub secure_serving : Bool
  pub tls : List (TlsConfig → TlsConfig)
  -- Whether the filter of authentication and authorisation is set.
  pub filtered : Bool
  pub cert : CertFlags

pub record ManagerOptions : Type 0 where
  pub metrics : MetricsOptions
  pub webhook : WebhookOptions
  pub probe_address : String
  pub leader_election : Bool
  pub leader_election_id : String
  -- The kinds that the client reads past its cache.
  pub uncached : List String
  pub release_on_cancel : Bool

unfoldable pub webhook_options : ServerFlags → WebhookOptions
webhook_options f = record { tls = tls_opts f; cert = watched f.webhook_cert }

unfoldable pub metrics_options : ServerFlags → MetricsOptions
metrics_options f = record {
  bind_address = f.metrics_addr;
  secure_serving = f.secure_metrics;
  tls = tls_opts f;
  filtered = f.secure_metrics;
  cert = watched f.metrics_cert;
}

unfoldable pub manager_options : ServerFlags → ManagerOptions
manager_options f = record {
  metrics = metrics_options f;
  webhook = webhook_options f;
  probe_address = f.probe_addr;
  leader_election = f.leader_elect;
  leader_election_id = "21b3ab69.vcf.io";
  uncached = "Secret" ∷ [];
  release_on_cancel = true;
}
