-- ===== src/Reconcile/Service.antt =====
-- internal/reconcile/service.go: the service of each map.
use ark_asa_operator.Prelude.{
  ℕ, if◌then◌else◌, [], ◌∷◌, Option, none, some, get_elem?, Text, codes, ◌==◌, List_eq, ℕ_eq,
}
use ark_asa_operator.Prelude.Assoc.{insert}
use ark_asa_operator.Api.{ArkCluster}
use ark_asa_operator.Kube.{Service, Client, Exec, call, ◌>>=◌, cluster_now}
use ark_asa_operator.Ark.Slug.{map_slug}
use ark_asa_operator.Ark.Ports.{game_port, rcon_port}
use ark_asa_operator.Reconcile.Names.{service_name}

-- The address for the map's index, if the spec lists one; else the one that is there.
abbrev balancer_ip : Option Text → Text → Text
balancer_ip none old = old
balancer_ip (some ip) old = ip

-- The mutation that `EnsureService` passes on.
unfoldable pub set_service : ArkCluster → Text → ℕ → Service → Service
set_service cluster map_id map_index svc =
    let spec = cluster.spec.service in
    let slug = map_slug map_id in
    let svc_type = if spec.type == [] then codes "LoadBalancer" else spec.type in
    let etp =
      if spec.external_traffic_policy == []
      then codes "Cluster"
      else spec.external_traffic_policy in
    let balanced = svc_type == codes "LoadBalancer" in
    let game = game_port spec.game_port_start map_index in
    let rcon = rcon_port spec.rcon_port_start map_index in
    record svc {
      type = svc_type;
      selector =
          (codes "ark.watteel.com/cluster", cluster.meta.name)
          ∷ (codes "ark.watteel.com/map", slug)
          ∷ (codes "ark.watteel.com/role", codes "server")
          ∷ [];
      ports =
          record { name = codes "game"; port = game; target_port = game; protocol = codes "UDP" }
          ∷ record { name = codes "rcon"; port = rcon; target_port = rcon; protocol = codes "TCP" }
          ∷ [];
      external_traffic_policy = if balanced then etp else svc.external_traffic_policy;
      load_balancer_ip =
          if balanced
          then balancer_ip (get_elem? spec.load_balancer_ips map_index) svc.load_balancer_ip
          else svc.load_balancer_ip;
      labels =
          insert (codes "ark.watteel.com/map") slug
            (insert (codes "ark.watteel.com/cluster") cluster.meta.name svc.labels);
    }

module _ {W : Type 0} (k : Client W) where
  unfoldable pub ensure_service : Text → ℕ → Exec W (Unit {0})
  ensure_service map_id map_index = do
    c ← cluster_now
    call (
        k.apply_service c.meta.namespace (service_name c.meta.name map_id)
          (set_service c map_id map_index))
