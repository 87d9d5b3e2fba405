-- ===== src/Reconcile/Pod.antt =====
-- internal/reconcile/pod.go: the server pod of a map.
use ark_asa_operator.Prelude.{
  ℕ, true, false, ◌==◌, List_eq, ℕ_eq, List, [], ◌∷◌, ◌++◌, Option, none, some, first, String, Text,
  codes,
}
use ark_asa_operator.Prelude.Int.{ℤ}
use ark_asa_operator.Prelude.Decimal.{format_int}
use ark_asa_operator.Api.{ArkCluster, MapSpec, SecretKeySelector}
use ark_asa_operator.Kube.{EnvVar, VolumeSource, VolumeMount, ProbeHandler, Pod}
use ark_asa_operator.Ark.Ports.{game_port, rcon_port}
use ark_asa_operator.Ark.Slug.{map_slug}
use ark_asa_operator.Ark.Launch.{session_name, extra_flags, extra_settings, compose_extra_options}
use ark_asa_operator.Reconcile.Names.{
  pod_name, image_or_default, pvc_name_server, pvc_name_saves, pvc_name_cluster,
  gus_config_map_name, game_config_map_name, secrets_name, volume_side, security_context_or_default,
}

-- The fields of `PodInput` besides the cluster.
pub record PodInput : Type 0 where
  pub map_id : Text
  pub map_index : ℕ
  pub friendly_map : Text
  pub active_volume : Text
  pub hash : Text

-- `findMap` of configmap.go
unfoldable pub find_map : Text → List MapSpec → Option MapSpec
find_map id maps = first (λ m. m.id == id) maps

-- A map's own mods replace the global ones, if it has any.
abbrev pub mods_or : List ℤ → List ℤ → List ℤ
mods_or global [] = global
mods_or global (m ∷ ms) = m ∷ ms

unfoldable pub pod_mods : ArkCluster → Text → List ℤ
unfolding find_map
pod_mods cluster id = elim (find_map id cluster.spec.maps) [
  | none ↦ cluster.spec.global_settings.mods
  | some m ↦ mods_or cluster.spec.global_settings.mods m.mods
]

-- The loop of `modsCSV` after the first mod.
unfoldable pub mods_csv_from : Text → List ℤ → Text
mods_csv_from out [] = out
mods_csv_from out (m ∷ ms) = mods_csv_from (out ++ (codes "," ++ format_int m)) ms

unfoldable pub mods_csv : List ℤ → Text
unfolding mods_csv_from
mods_csv [] = []
mods_csv (m ∷ ms) = mods_csv_from (format_int m) ms

abbrev pub server_password_source : Option SecretKeySelector → Option SecretKeySelector
server_password_source sel = sel

abbrev pub admin_password_source : Option SecretKeySelector → Text → Option SecretKeySelector
admin_password_source (some sel) fallback = some sel
admin_password_source none fallback = some (record { name = fallback; key = codes "adminPassword" })

abbrev plain : String → Text → EnvVar
plain name value = record { name = codes name; value = value; value_from = none }

abbrev from_secret : String → Option SecretKeySelector → EnvVar
from_secret name source = record { name = codes name; value = []; value_from = source }

abbrev pub hash_label : Text
hash_label = codes "ark.watteel.com/pod-template-hash"

-- The command line of the container's RCON client, before its command.
abbrev rcon_command : Text
rcon_command = codes "rcon -a 127.0.0.1:${RCON_PORT} -p \"${SERVER_ADMIN_PASSWORD}\" "

abbrev shell : Text → List Text
shell script = codes "/bin/sh" ∷ codes "-c" ∷ script ∷ []

abbrev mount : String → String → VolumeMount
mount name path = record {
  name = codes name;
  mount_path = codes path;
  sub_path = [];
  read_only = false;
}

abbrev ini_mount : String → String → VolumeMount
ini_mount name file = record {
  name = codes name;
  mount_path = codes "/home/steam/ark/ShooterGame/Saved/Config/WindowsServer/" ++ codes file;
  sub_path = codes file;
  read_only = true;
}

unfoldable pub build_server_pod : ArkCluster → PodInput → Pod
build_server_pod cluster i =
    let gs = cluster.spec.global_settings in
    let game = game_port cluster.spec.service.game_port_start i.map_index in
    let rcon = rcon_port cluster.spec.service.rcon_port_start i.map_index in
    let mods = pod_mods cluster i.map_id in
    let flags = extra_flags (record {
      cluster_dir = codes "/srv/ark/cluster";
      cluster_id = cluster.spec.cluster_id;
      mods = mods;
      battl_eye_enabled = gs.battl_eye;
      allowed_platforms = gs.allowed_platforms;
      extra_options = compose_extra_options gs;
    }) in
    let session = session_name gs.session_name_format cluster.meta.name i.map_id i.friendly_map in
    record {
      name = pod_name cluster.meta.name i.map_id i.hash;
      labels =
          (codes "ark.watteel.com/cluster", cluster.meta.name)
          ∷ (codes "ark.watteel.com/map", map_slug i.map_id)
          ∷ (codes "ark.watteel.com/role", codes "server")
          ∷ (codes "ark.watteel.com/active-volume", i.active_volume)
          ∷ (hash_label, i.hash)
          ∷ [];
      namespace = cluster.meta.namespace;
      deletion_timestamp = none;
      restart_policy = codes "Always";
      termination_grace_period_seconds = 1800;
      security_context = security_context_or_default cluster.spec.pod_security_context;
      node_selector = cluster.spec.node_selector;
      tolerations = cluster.spec.tolerations;
      container = codes "ark";
      image = image_or_default cluster.spec.image;
      image_pull_policy = codes "IfNotPresent";
      env =
          plain "SESSION_NAME" session
          ∷ plain "SERVER_MAP" i.map_id
          ∷ plain "GAME_PORT" (format_int game)
          ∷ plain "RCON_PORT" (format_int rcon)
          ∷ plain "EXTRA_SETTINGS" (extra_settings gs rcon)
          ∷ plain "EXTRA_FLAGS" flags
          ∷ plain "MODS" (mods_csv mods)
          ∷ from_secret "SERVER_PASSWORD" (server_password_source gs.server_password)
          ∷ from_secret "SERVER_ADMIN_PASSWORD"
              (admin_password_source gs.admin_password (secrets_name cluster.meta.name))
          ∷ [];
      ports =
          record { name = codes "game"; container_port = game; protocol = codes "UDP" }
          ∷ record { name = codes "rcon"; container_port = rcon; protocol = codes "TCP" }
          ∷ [];
      resources = cluster.spec.resources;
      startup_probe = some (record {
        probe_handler = ProbeHandler.tcp_socket (codes "rcon");
        initial_delay_seconds = 60;
        period_seconds = 10;
        timeout_seconds = 0;
        failure_threshold = 60;
      });
      readiness_probe = some (record {
        probe_handler = ProbeHandler.tcp_socket (codes "rcon");
        initial_delay_seconds = 0;
        period_seconds = 15;
        timeout_seconds = 10;
        failure_threshold = 4;
      });
      liveness_probe = some (record {
        probe_handler = ProbeHandler.run_command (shell (rcon_command ++ codes "ListPlayers"));
        initial_delay_seconds = 0;
        period_seconds = 30;
        timeout_seconds = 10;
        failure_threshold = 10;
      });
      pre_stop =
          shell
            (rcon_command ++ (codes "SaveWorld; " ++ (rcon_command ++ codes "DoExit; sleep 1")));
      volume_mounts =
          mount "server" "/home/steam/ark"
          ∷ mount "saves" "/home/steam/ark/ShooterGame/Saved"
          ∷ mount "cluster-xfer" "/srv/ark/cluster"
          ∷ ini_mount "gus-ini" "GameUserSettings.ini"
          ∷ ini_mount "game-ini" "Game.ini"
          ∷ [];
      volumes =
          (
            codes "server",
            VolumeSource.claim
                (pvc_name_server cluster.meta.name i.map_id (volume_side i.active_volume)),
          )
          ∷ (codes "saves", VolumeSource.claim (pvc_name_saves cluster.meta.name i.map_id))
          ∷ (codes "cluster-xfer", VolumeSource.claim (pvc_name_cluster cluster.meta.name))
          ∷ (
            codes "gus-ini",
            VolumeSource.config_map (gus_config_map_name cluster.meta.name i.map_id),
          )
          ∷ (
            codes "game-ini",
            VolumeSource.config_map (game_config_map_name cluster.meta.name i.map_id),
          )
          ∷ [];
      container_statuses = [];
      conditions = [];
    }
