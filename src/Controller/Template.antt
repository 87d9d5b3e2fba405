-- ===== src/Controller/Template.antt =====
-- internal/controller/arkcluster_controller.go, `computePodHash` and `joinSorted`: the digest whose
-- change rolls a pod.
use ark_asa_operator.Prelude.{
  Option, none, some, ℕ, Bool, true, false, ◌==◌, List_eq, ℕ_eq, if◌then◌else◌, List, [], ◌++◌,
  none, some, Text, codes, join,
}
use ark_asa_operator.Prelude.Sorting.{Text_order, sort}
use ark_asa_operator.Prelude.Decimal.{format_int}
use ark_asa_operator.Prelude.Assoc.{value_at}
use ark_asa_operator.Api.{ArkClusterSpec, MapSpec, SecretKeySelector}
use ark_asa_operator.Kube.{
  Result, ok, err, Secret, ConfigMap, Client, Exec, pure, attempt, call, ◌>>=◌, cluster_now,
}
use ark_asa_operator.Ark.Ports.{game_port, rcon_port}
use ark_asa_operator.Ark.Hash.{pod_template_hash}
use ark_asa_operator.Reconcile.Names.{gus_config_map_name, game_config_map_name, secrets_name}
use ark_asa_operator.Reconcile.Pod.{mods_or}

abbrev pub annotation_mods_changed : Text
annotation_mods_changed = codes "ark.watteel.com/mods-changed"

-- The nil case of the code is the empty join.
unfoldable pub join_sorted : List Text → Text
join_sorted s = join (sort s) (codes ",")

-- `%v` of a bool
abbrev show_bool : Bool → Text
show_bool true = codes "true"
show_bool false = codes "false"

unfoldable pub launch_rev : ArkClusterSpec → Text
unfolding join_sorted
launch_rev spec =
    let gs = spec.global_settings in
    codes "sn="
    ++ (gs.session_name_format
        ++ (codes "|cid="
            ++ (spec.cluster_id
                ++ (codes "|mp="
                    ++ (format_int gs.max_players
                        ++ (codes "|be="
                            ++ (show_bool gs.battl_eye
                                ++ (codes "|ap="
                                    ++ (join_sorted gs.allowed_platforms
                                        ++ (codes "|eo="
                                            ++ (join_sorted gs.extra_options
                                                ++ (codes "|ep="
                                                    ++ join_sorted gs.extra_params))))))))))))

module _ {W : Type 0} (k : Client W) where
  -- `readResourceVersion` of the two kinds: an error reads as the empty revision.
  abbrev pub config_map_rev : Result ConfigMap → Text
  config_map_rev (ok c) = c.resource_version
  config_map_rev (err e) = []

  abbrev pub secret_rev : Result Secret → Text
  secret_rev (ok s) = s.resource_version
  secret_rev (err e) = []

  unfoldable pub config_map_version : Text → Exec W Text
  config_map_version name = do
    c ← cluster_now
    r ← attempt (call (k.get_config_map c.meta.namespace name))
    pure (config_map_rev r)

  unfoldable pub secret_version : Text → Exec W Text
  secret_version name = do
    c ← cluster_now
    r ← attempt (call (k.get_secret c.meta.namespace name))
    pure (secret_rev r)

  -- The revision of the server password's secret behind that of the cluster's own.
  unfoldable pub add_password_rev : Option SecretKeySelector → Text → Exec W Text
  add_password_rev none own = pure own
  add_password_rev (some sel) own = do
    given ← secret_version sel.name
    pure (own ++ (codes "|" ++ given))

  unfoldable pub compute_pod_hash : MapSpec → ℕ → Text → Exec W Text
  compute_pod_hash map_spec i active_volume = do
    c ← cluster_now
    gus ← config_map_version (gus_config_map_name c.meta.name map_spec.id)
    game ← config_map_version (game_config_map_name c.meta.name map_spec.id)
    let stamp = value_at annotation_mods_changed c.meta.annotations
    let ini = gus ++ (codes "|" ++ game)
    let ini_rev = if stamp == [] then ini else ini ++ (codes "|mods=" ++ stamp)
    own ← secret_version (secrets_name c.meta.name)
    secrets ← add_password_rev c.spec.global_settings.server_password own
    pure (
        pod_template_hash k.sha256 (record {
          image = c.spec.image;
          mods = mods_or c.spec.global_settings.mods map_spec.mods;
          game_port = game_port c.spec.service.game_port_start i;
          rcon_port = rcon_port c.spec.service.rcon_port_start i;
          secrets_rev = secrets;
          ini_rev = ini_rev;
          launch_rev = launch_rev c.spec;
          active_volume = active_volume;
        }))
