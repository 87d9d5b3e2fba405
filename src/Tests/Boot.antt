-- ===== src/Tests/Boot.antt =====
-- The start of the process, and the objects that it builds.
use ark_asa_operator.Prelude.{
  ◌≡◌, refl, ◌↔◌, true, false, ◌∷◌, [], some, map, ℕ, codes, List_eq, ℕ_eq, list_beq,
}
use ark_asa_operator.Api.{ArkCluster}
use ark_asa_operator.Kube.{Error, ok, err, Service}
use ark_asa_operator.Ark.Slug.{map_slug}
use ark_asa_operator.Reconcile.Pod.{PodInput, build_server_pod}
use ark_asa_operator.Reconcile.Service.{set_service}
use ark_asa_operator.Controller.Pods.{hash_of, is_live}
use ark_asa_operator.Controller.Pods.Built.{
  Selects, container_port_of, service_port_of, target_of, MountsVolumes, server_pod_agrees,
}
use ark_asa_operator.Controller.Gc.{is_orphan_label}
use ark_asa_operator.Operator.Options.{default_flags, manager_options, FilterProvider}
use ark_asa_operator.Operator.Options.Servers.{configured, manager_options-servers}
use ark_asa_operator.Operator.Startup.{Runtime, main}
use ark_asa_operator.Operator.Startup.Order.{
  Follows, startup_plan, is_running, RunsOr1, main-Follows,
}
use ark_asa_operator.Tests.Toy.{cluster_of}

manager_options-servers_example :
    let options = manager_options [] default_flags in
    let protos = codes "http/1.1" ∷ [] in
    ((configured options.webhook_server.tls_opts
        (record { next_protos = codes "h2" ∷ [] })).next_protos
      ≡ protos)
    × ((configured options.metrics.tls_opts (record { next_protos = codes "h2" ∷ [] })).next_protos
        ≡ protos)
    × ((options.metrics.filter_provider ≡ some FilterProvider.with_authentication_and_authorization)
        ↔ (options.metrics.secure_serving ≡ true))
manager_options-servers_example =
    manager_options-servers [] default_flags (record { next_protos = codes "h2" ∷ [] })

-- A runtime on which the webhook cannot be built.
abbrev broken : Runtime ℕ ℕ ℕ
broken = record {
  client_go_kinds = [];
  get_config = λ w. (ok 0, w);
  new_manager = λ c. λ o. λ w. (ok 0, w);
  complete = λ m. λ c. λ w. (ok tt, w);
  complete_webhook = λ m. λ c. λ w. (err (Error.other []), w);
  add_healthz_check = λ m. λ n. λ w. (ok tt, w);
  add_readyz_check = λ m. λ n. λ w. (ok tt, w);
  start = λ m. λ w. (ok tt, w);
}

main-Follows_example :
    let (o, p) = main broken (λ v. []) default_flags (record { world = 7; steps = [] }) in
    Follows (startup_plan [] (λ v. []) default_flags) p.steps (is_running o) × RunsOr1 o
main-Follows_example = main-Follows broken (λ v. []) default_flags 7

abbrev island_input : PodInput
island_input = record {
  map_id = codes "TheIsland_WP";
  map_index = 0;
  friendly_map = codes "The Island";
  active_volume = codes "server-b";
  hash = codes "0123456789abcdef";
}

abbrev bare_service : Service
bare_service = record {
  name = [];
  labels = [];
  type = [];
  selector = [];
  ports = [];
  external_traffic_policy = [];
  load_balancer_ip = [];
  ingress = [];
}

server_pod_agrees_example :
    let pod = build_server_pod (cluster_of (some 1)) island_input in
    let service = set_service (cluster_of (some 1)) (codes "TheIsland_WP") 0 bare_service in
    let keep = codes "island" ∷ [] in
    ((c' : ArkCluster) (j : PodInput)
      → Selects service.selector (build_server_pod c' j).labels
        ↔ ((c'.meta.name ≡ codes "ark") × (map_slug j.map_id ≡ map_slug (codes "TheIsland_WP"))))
    × (map container_port_of pod.ports ≡ map service_port_of service.ports)
    × (map container_port_of pod.ports ≡ map target_of service.ports)
    × (hash_of pod ≡ codes "0123456789abcdef")
    × (is_live pod ≡ true)
    × MountsVolumes pod
    × (is_orphan_label keep pod.labels ≡ false)
    × (is_orphan_label keep service.labels ≡ false)
unfolding map_slug list_beq
server_pod_agrees_example =
    server_pod_agrees (cluster_of (some 1)) island_input bare_service (codes "island" ∷ []) refl
