-- ===== src/Operator/Options.antt =====
-- cmd/operator/main.go: the flags, and the options that are made from them.
pub mod Servers
use ark_asa_operator.Prelude.{
  Bool, true, false, ◌==◌, List_eq, ℕ_eq, if◌then◌else◌, List, [], ◌∷◌, ◌++◌, Option, none, some,
  Text, codes,
}

pub record Flags : Type 0 where
  pub metrics_addr : Text
  pub probe_addr : Text
  pub enable_leader_election : Bool
  pub secure_metrics : Bool
  pub webhook_cert_path : Text
  pub webhook_cert_name : Text
  pub webhook_cert_key : Text
  pub metrics_cert_path : Text
  pub metrics_cert_name : Text
  pub metrics_cert_key : Text
  pub enable_http2 : Bool

-- The defaults of the flags.
abbrev pub default_flags : Flags
default_flags = record {
  metrics_addr = codes "0";
  probe_addr = codes ":8081";
  enable_leader_election = false;
  secure_metrics = true;
  webhook_cert_path = [];
  webhook_cert_name = codes "tls.crt";
  webhook_cert_key = codes "tls.key";
  metrics_cert_path = [];
  metrics_cert_name = codes "tls.crt";
  metrics_cert_key = codes "tls.key";
  enable_http2 = false;
}

-- tls.Config, by the field that the program sets
pub record TlsConfig : Type 0 where
  pub next_protos : List Text

-- `disableHTTP2`
unfoldable pub disable_http2 : TlsConfig → TlsConfig
disable_http2 c = record c { next_protos = codes "http/1.1" ∷ [] }

-- `tlsOpts`: functions that change a TLS configuration.
unfoldable pub tls_opts : Flags → List (TlsConfig → TlsConfig)
unfolding disable_http2
tls_opts flags = if flags.enable_http2 then [] else disable_http2 ∷ []

-- webhook.Options
pub record WebhookOptions : Type 0 where
  pub tls_opts : List (TlsConfig → TlsConfig)
  pub cert_dir : Text
  pub cert_name : Text
  pub key_name : Text

unfoldable pub webhook_server_options : Flags → WebhookOptions
unfolding tls_opts
webhook_server_options flags =
    let options : WebhookOptions = record {
      tls_opts = tls_opts flags;
      cert_dir = [];
      cert_name = [];
      key_name = [];
    } in
    if flags.webhook_cert_path == [] then options else record options {
      cert_dir = flags.webhook_cert_path;
      cert_name = flags.webhook_cert_name;
      key_name = flags.webhook_cert_key;
    }

-- The one filter provider of controller-runtime that the program names.
pub data FilterProvider : Type 0 where
  with_authentication_and_authorization : FilterProvider

-- metricsserver.Options; a nil filter provider is `none`.
pub record MetricsOptions : Type 0 where
  pub bind_address : Text
  pub secure_serving : Bool
  pub tls_opts : List (TlsConfig → TlsConfig)
  pub filter_provider : Option FilterProvider
  pub cert_dir : Text
  pub cert_name : Text
  pub key_name : Text

unfoldable pub metrics_server_options : Flags → MetricsOptions
unfolding tls_opts
metrics_server_options flags =
    let options : MetricsOptions = record {
      bind_address = flags.metrics_addr;
      secure_serving = flags.secure_metrics;
      tls_opts = tls_opts flags;
      filter_provider = none;
      cert_dir = [];
      cert_name = [];
      key_name = [];
    } in
    let filtered =
      if flags.secure_metrics
      then record options {
        filter_provider = some FilterProvider.with_authentication_and_authorization;
      }
      else options in
    if flags.metrics_cert_path == [] then filtered else record filtered {
      cert_dir = flags.metrics_cert_path;
      cert_name = flags.metrics_cert_name;
      key_name = flags.metrics_cert_key;
    }

-- A kind of objects, by group, version and name.
pub record Kind : Type 0 where
  pub group : Text
  pub version : Text
  pub name : Text

-- `GroupVersion` of api/v1alpha1, with the name of a type in it.
abbrev pub ark_kind : Text → Kind
ark_kind name = record { group = codes "ark.watteel.com"; version = codes "v1alpha1"; name = name }

-- What `SchemeBuilder.Register` is called with.
abbrev pub registered_kinds : List Kind
registered_kinds = ark_kind (codes "ArkCluster") ∷ ark_kind (codes "ArkClusterList") ∷ []

-- ctrl.Options; the kinds of client-go's scheme are the library's.
pub record ManagerOptions : Type 0 where
  pub scheme : List Kind
  pub metrics : MetricsOptions
  pub webhook_server : WebhookOptions
  pub health_probe_bind_address : Text
  pub leader_election : Bool
  pub leader_election_id : Text

unfoldable pub manager_options : List Kind → Flags → ManagerOptions
unfolding webhook_server_options metrics_server_options
manager_options client_go_kinds flags = record {
  scheme = client_go_kinds ++ registered_kinds;
  metrics = metrics_server_options flags;
  webhook_server = webhook_server_options flags;
  health_probe_bind_address = flags.probe_addr;
  leader_election = flags.enable_leader_election;
  leader_election_id = codes "ark-asa-operator.ark.watteel.com";
}
