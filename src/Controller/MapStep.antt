-- ===== src/Controller/MapStep.antt =====
-- internal/controller/arkcluster_controller.go, `reconcileMap`, with `refreshAddress` and
-- `listMapPods`: the resources of one map, and the choice among its three flows.
use ark_asa_operator.Prelude.{
  ℕ, ◌&&◌, not, ◌==◌, List_eq, ℕ_eq, if◌then◌else◌, List, [], ◌∷◌, ◌++◌, Option, none, some, Text,
  codes,
}
use ark_asa_operator.Prelude.Decimal.{format_int}
use ark_asa_operator.Api.{ArkCluster, MapSpec, MapStatus}
use ark_asa_operator.Kube.{
  Result, ok, err, Service, Pod, Client, Exec, pure, gets, attempt, call, modify_cluster, set_busy,
  ◌>>=◌, ◌>>◌, cluster_now,
}
use ark_asa_operator.Ark.Slug.{map_slug}
use ark_asa_operator.Ark.Ports.{game_port, rcon_port}
use ark_asa_operator.Reconcile.Names.{service_name, server_a}
use ark_asa_operator.Reconcile.Storage.{ensure_saves_pvc, ensure_server_pvc}
use ark_asa_operator.Reconcile.Service.{ensure_service}
use ark_asa_operator.Reconcile.Ini.{ensure_map_ini_config_maps}
use ark_asa_operator.Reconcile.Status.{status_index, ensure_map_status}
use ark_asa_operator.Controller.Base.{status_at, update_map}
use ark_asa_operator.Controller.Pods.{find_active_pod, hash_of}
use ark_asa_operator.Controller.Template.{compute_pod_hash}
use ark_asa_operator.Controller.FirstStart.{first_start}
use ark_asa_operator.Controller.Steady.{steady}
use ark_asa_operator.Controller.Roll.{roll_update}

module _ {W : Type 0} (k : Client W) where
  unfoldable pub ensure_map_resources : MapSpec → ℕ → Exec W (Unit {0})
  ensure_map_resources map_spec i = do
    ensure_saves_pvc k map_spec.id
    ensure_server_pvc k map_spec.id (codes "a")
    ensure_server_pvc k map_spec.id (codes "b")
    ensure_map_ini_config_maps k map_spec.id
    ensure_service k map_spec.id i

  -- `EnsureMapStatus` and the default of the active volume; the result is the pointer.
  unfoldable pub open_map_status : Text → Exec W ℕ
  open_map_status id = do
    modify_cluster
        (λ c. record c { status = record c.status { maps = ensure_map_status id c.status.maps } })
    p ← gets (λ s. status_index id s.cluster.status.maps)
    update_map p (λ m. record m {
      active_volume = if m.active_volume == [] then server_a else m.active_volume;
    })
    pure p

  unfoldable pub list_map_pods : Text → Exec W (List Pod)
  list_map_pods id = do
    c ← cluster_now
    call (
        k.list_pods c.meta.namespace (
          (codes "ark.watteel.com/cluster", c.meta.name)
          ∷ (codes "ark.watteel.com/map", map_slug id)
          ∷ []))

  -- The addresses behind the first ingress, if the service has one.
  abbrev pub address_update : ArkCluster → ℕ → Result Service → MapStatus → MapStatus
  address_update c i (err e) m = m
  address_update c i (ok svc) m = elim svc.ingress [
    | [] ↦ m
    | ip ∷ ips ↦ record m {
      address = ip ++ (codes ":" ++ format_int (game_port c.spec.service.game_port_start i));
      rcon_address = ip ++ (codes ":" ++ format_int (rcon_port c.spec.service.rcon_port_start i));
    }
  ]

  unfoldable pub refresh_address : MapSpec → ℕ → ℕ → Exec W (Unit {0})
  refresh_address map_spec i p = do
    c ← cluster_now
    svc ← attempt (call (k.get_service c.meta.namespace (service_name c.meta.name map_spec.id)))
    update_map p (address_update c i svc)

  -- Cases A, B and C, and the hold-back of C while another map is mid-update.
  unfoldable pub dispatch : MapSpec → ℕ → ℕ → Text → Text → Option Pod → Exec W (Unit {0})
  dispatch map_spec i p desired mid_flight none = first_start k map_spec i p desired
  dispatch map_spec i p desired mid_flight (some pod) =
      if hash_of pod == desired
      then steady k map_spec p pod
      else if not (mid_flight == []) && not (mid_flight == map_spec.id)
      then set_busy
      else roll_update k map_spec i p pod

  unfoldable pub reconcile_map : MapSpec → ℕ → Text → Exec W (Unit {0})
  reconcile_map map_spec i mid_flight = do
    ensure_map_resources map_spec i
    p ← open_map_status map_spec.id
    m ← gets (λ s. status_at p s.cluster)
    desired ← compute_pod_hash k map_spec i m.active_volume
    pods ← list_map_pods map_spec.id
    refresh_address map_spec i p
    dispatch map_spec i p desired mid_flight (find_active_pod pods desired)
