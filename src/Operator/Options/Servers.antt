-- ===== src/Operator/Options/Servers.antt =====
-- What the two servers of the process do with their options.
use ark_asa_operator.Prelude.{
  ◌≡◌, ◌↔◌, true, List_eq, ℕ_eq, if◌then◌else◌, List, [], ◌∷◌, some, codes, arith,
}
use ark_asa_operator.Operator.Options.{
  Flags, TlsConfig, disable_http2, tls_opts, webhook_server_options, FilterProvider,
  metrics_server_options, Kind, manager_options,
}

-- A server applies its functions to its TLS configuration in their order.
abbrev pub configured : List (TlsConfig → TlsConfig) → TlsConfig → TlsConfig
configured [] c = c
configured (f ∷ fs) c = configured fs (f c)

tls_opts_lem :
    (flags : Flags) (c : TlsConfig)
    → (configured (tls_opts flags) c).next_protos
      ≡ (if flags.enable_http2 then c.next_protos else codes "http/1.1" ∷ [])
unfolding tls_opts disable_http2
tls_opts_lem flags c = ground arith

webhook_tls : (flags : Flags) → (webhook_server_options flags).tls_opts ≡ tls_opts flags
unfolding webhook_server_options
webhook_tls flags = ground arith

metrics_tls : (flags : Flags) → (metrics_server_options flags).tls_opts ≡ tls_opts flags
unfolding metrics_server_options
metrics_tls flags = ground arith

metrics_filter :
    (flags : Flags)
    → ((metrics_server_options flags).filter_provider
        ≡ some FilterProvider.with_authentication_and_authorization)
      ↔ ((metrics_server_options flags).secure_serving ≡ true)
unfolding metrics_server_options
metrics_filter flags = ground arith

-- Whatever TLS configuration the webhook server or the metrics server starts from, after it has applied
-- the functions of its options in their order it offers HTTP/1.1 only, unless HTTP/2 is enabled; then
-- its protocols are as they were. The metrics server filters requests by authentication and
-- authorization exactly if it serves over TLS.
pub manager_options-servers :
    (kinds : List Kind) (flags : Flags) (c : TlsConfig)
    → let options = manager_options kinds flags in
      let protos = if flags.enable_http2 then c.next_protos else codes "http/1.1" ∷ [] in
      ((configured options.webhook_server.tls_opts c).next_protos ≡ protos)
      × ((configured options.metrics.tls_opts c).next_protos ≡ protos)
      × ((options.metrics.filter_provider
            ≡ some FilterProvider.with_authentication_and_authorization)
          ↔ (options.metrics.secure_serving ≡ true))
unfolding manager_options
manager_options-servers kinds flags c = (
  rw (webhook_tls flags) (tls_opts_lem flags c),
  rw (metrics_tls flags) (tls_opts_lem flags c),
  metrics_filter flags,
)
