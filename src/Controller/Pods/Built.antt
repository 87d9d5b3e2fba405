-- ===== src/Controller/Pods/Built.antt =====
-- The server pod of a map, the service of the map and the reconciler's view of both agree:
-- internal/reconcile/pod.go and service.go with internal/controller/arkcluster_controller.go.
use ark_asa_operator.Prelude.{
  ◌≡◌, refl, ap, [], ◌↔◌, true, false, ◌==◌, ==_refl, List_eq, ℕ_eq, List, map, All, any, some,
  Text, ℕ, codes, arith, list_beq,
}
use mathlib.Core.Option
use ark_asa_operator.Prelude.Int.{ℤ}
use ark_asa_operator.Prelude.Assoc.{lookup, lookup-insert, value_at}
use ark_asa_operator.Api.{ArkCluster}
use ark_asa_operator.Kube.{Pod, Service, ServicePort, ContainerPort, VolumeMount}
use ark_asa_operator.Ark.Slug.{map_slug}
use ark_asa_operator.Reconcile.Pod.{PodInput, build_server_pod}
use ark_asa_operator.Reconcile.Service.{set_service}
use ark_asa_operator.Controller.Pods.{is_live, hash_of}
use ark_asa_operator.Controller.Gc.{kept, is_orphan_label}

-- Every entry of the selector is an entry of the labels.
abbrev pub Selects : List (Text × Text) → List (Text × Text) → Type 0
Selects selector labels = All (λ (e : Text × Text). lookup e.0 labels ≡ some e.1) selector

-- A port of a container or of a service, by what the two have in common.
abbrev pub container_port_of : ContainerPort → Text × ℤ × Text
container_port_of p = (p.name, p.container_port, p.protocol)

abbrev pub service_port_of : ServicePort → Text × ℤ × Text
service_port_of p = (p.name, p.port, p.protocol)

-- The port that the service sends to, of the pod that it selects.
abbrev pub target_of : ServicePort → Text × ℤ × Text
target_of p = (p.name, p.target_port, p.protocol)

abbrev pub MountsVolumes : Pod → Type 0
MountsVolumes pod =
    All (λ (m : VolumeMount). any (λ v. v.0 == m.name) pod.volumes ≡ true) pod.volume_mounts

kept-is_orphan_label :
    (keep : List Text) (slug : Text) (labels : List (Text × Text))
    → value_at (codes "ark.watteel.com/map") labels ≡ slug
    → kept keep slug ≡ true
    → is_orphan_label keep labels ≡ false
unfolding is_orphan_label
kept-is_orphan_label keep slug labels e h = ground (arith, e, h)

-- The labels of the service, whatever it carried before.
service_map_label :
    (c : ArkCluster) (id : Text) (i : ℕ) (svc : Service)
    → value_at (codes "ark.watteel.com/map") (set_service c id i svc).labels ≡ map_slug id
unfolding value_at set_service
service_map_label c id i svc =
    rw
      (
        lookup-insert (codes "ark.watteel.com/map") (map_slug id) (codes "ark.watteel.com/map") _,
        ==_refl (codes "ark.watteel.com/map"),
      )
      refl

some_injective {ℓ} : {A : Type ℓ} (a x y : A) → some x ≡ some y → x ≡ y
some_injective a x y e = ap (λ o. Option.get_or o a) e

-- The service of a map selects the server pods of the clusters of its cluster's name and of the maps
-- with its map's slug, and no others.
set_service-Selects :
    (c c' : ArkCluster) (id : Text) (index : ℕ) (svc : Service) (j : PodInput)
    → Selects (set_service c id index svc).selector (build_server_pod c' j).labels
      ↔ ((c'.meta.name ≡ c.meta.name) × (map_slug j.map_id ≡ map_slug id))
unfolding build_server_pod set_service lookup list_beq
set_service-Selects c c' id index svc j = (
  λ h. (some_injective [] _ _ h.0, some_injective [] _ _ h.1.0),
  λ e. (ap (λ (t : Text). some t) e.0, (ap (λ (t : Text). some t) e.1, (refl, tt))),
)

-- For a map whose slug is kept: the map's service, whatever it was before, selects exactly the server
-- pods of its cluster's name and its map's slug; it has the ports of the map's pod, and sends to them;
-- the reconciler finds the hash that the pod was built with on it, and takes it as not terminating;
-- every mount of the pod is of one of its volumes; and the garbage collection takes neither for an
-- orphan.
pub server_pod_agrees :
    (c : ArkCluster) (i : PodInput) (svc : Service) (keep : List Text)
    → kept keep (map_slug i.map_id) ≡ true
    → let pod = build_server_pod c i in
      let service = set_service c i.map_id i.map_index svc in
      ((c' : ArkCluster) (j : PodInput)
        → Selects service.selector (build_server_pod c' j).labels
          ↔ ((c'.meta.name ≡ c.meta.name) × (map_slug j.map_id ≡ map_slug i.map_id)))
      × (map container_port_of pod.ports ≡ map service_port_of service.ports)
      × (map container_port_of pod.ports ≡ map target_of service.ports)
      × (hash_of pod ≡ i.hash)
      × (is_live pod ≡ true)
      × MountsVolumes pod
      × (is_orphan_label keep pod.labels ≡ false)
      × (is_orphan_label keep service.labels ≡ false)
unfolding build_server_pod set_service value_at list_beq
server_pod_agrees c i svc keep h = (
  λ c' j. set_service-Selects c c' i.map_id i.map_index svc j,
  refl,
  refl,
  refl,
  refl,
  (refl, (refl, (refl, (refl, (refl, tt))))),
  kept-is_orphan_label keep (map_slug i.map_id) _ refl h,
  kept-is_orphan_label keep (map_slug i.map_id) _ (service_map_label c i.map_id i.map_index svc) h,
)
