-- ===== src/Reconcile/Names.antt =====
-- The names of the resources of a cluster: internal/reconcile/pvc.go, configmap.go, service.go,
-- secret.go, pod.go and job.go, and the sides of the two server volumes.
use ark_asa_operator.Prelude.{
  ℕ, ◌==◌, ℕ_eq, List_eq, ltb, if◌then◌else◌, List, [], ◌++◌, Option, none, some, length, take,
  Text, codes,
}
use ark_asa_operator.Prelude.Int.{pos}
use ark_asa_operator.Api.{PodSecurityContext}
use ark_asa_operator.Ark.Slug.{map_slug}
use ark_asa_operator.Ark.Hash.{hex_encode}

-- `fmt.Sprintf("%s-%s-…", cluster, ark.MapSlug(mapID))`
abbrev pub map_prefix : Text → Text → Text
map_prefix cluster slug = cluster ++ (codes "-" ++ (slug ++ codes "-"))

unfoldable pub pvc_name_saves : Text → Text → Text
pvc_name_saves cluster map_id = map_prefix cluster (map_slug map_id) ++ codes "saves"

unfoldable pub pvc_name_server : Text → Text → Text → Text
pvc_name_server cluster map_id side =
    map_prefix cluster (map_slug map_id) ++ (codes "server-" ++ side)

unfoldable pub pvc_name_cluster : Text → Text
pvc_name_cluster cluster = cluster ++ codes "-cluster"

unfoldable pub gus_config_map_name : Text → Text → Text
gus_config_map_name cluster map_id = map_prefix cluster (map_slug map_id) ++ codes "gus"

unfoldable pub game_config_map_name : Text → Text → Text
game_config_map_name cluster map_id = map_prefix cluster (map_slug map_id) ++ codes "game"

unfoldable pub service_name : Text → Text → Text
service_name cluster map_id = cluster ++ (codes "-" ++ map_slug map_id)

unfoldable pub secrets_name : Text → Text
secrets_name cluster = cluster ++ codes "-secrets"

-- An empty hash reads "0"; a long one is cut to 8 bytes.
unfoldable pub pod_name : Text → Text → Text → Text
pod_name cluster map_id hash =
    let hash' = if hash == [] then codes "0" else hash in
    map_prefix cluster (map_slug map_id) ++ (if ltb 8 (length hash') then take 8 hash' else hash')

abbrev pub ark_app_id : Text
ark_app_id = codes "2430930"

abbrev pub default_image : Text
default_image = codes "docker.io/sknnr/ark-ascended-server:latest"

-- `image := cluster.Spec.Image; if image == "" { … }`
abbrev pub image_or_default : Text → Text
image_or_default image = if image == [] then default_image else image

-- The security context where the spec has none, in pod.go and in job.go.
abbrev pub default_security_context : PodSecurityContext
default_security_context = record {
  run_as_user = some (pos 10000);
  run_as_group = some (pos 10000);
  fs_group = some (pos 10000);
  rest = codes "{}";
}

abbrev pub security_context_or_default : Option PodSecurityContext → PodSecurityContext
security_context_or_default none = default_security_context
security_context_or_default (some context) = context

unfoldable pub install_identity : (Text → List ℕ) → Text → Text
install_identity sha256 image =
    hex_encode (take 4 (sha256 (image_or_default image ++ (codes "|" ++ ark_app_id))))

unfoldable pub init_job_name : (Text → List ℕ) → Text → Text → Text → Text → Text
unfolding install_identity
init_job_name sha256 cluster image map_id side =
    map_prefix cluster (map_slug map_id)
    ++ (codes "init-" ++ (side ++ (codes "-" ++ install_identity sha256 image)))

abbrev pub server_a : Text
server_a = codes "server-a"

abbrev pub server_b : Text
server_b = codes "server-b"

unfoldable pub volume_side : Text → Text
volume_side active = if active == server_b then codes "b" else codes "a"

unfoldable pub other_side : Text → Text
other_side active = if active == server_a then server_b else server_a
