-- ===== src/Tests/Toy.antt =====
-- A cluster with one map, and a client of an API server that has nothing but finished install jobs.
use ark_asa_operator.Prelude.{ℕ, true, false, [], ◌∷◌, Option, none, some, codes}
use ark_asa_operator.Prelude.Int.{pos}
use ark_asa_operator.Api.{
  ArkCluster, MapSpec, MapStatus, MapPhase, ClusterPhase, UpdateStrategyType, RolloutPolicy,
  ConditionStatus,
}
use ark_asa_operator.Reconcile.Names.{default_security_context}
use ark_asa_operator.Kube.{Error, Result, ok, err, Pod, Job, JobConditionType, Client, Sys}

abbrev pub island : MapSpec
island = record { id = codes "TheIsland_WP"; mods = []; game_user_settings = none; game = none }

-- The map runs on the first volume, has run on the other, and drains up to the given time.
abbrev pub island_status : Option ℕ → MapStatus
island_status deadline = record {
  id = codes "TheIsland_WP";
  phase = MapPhase.running;
  active_volume = codes "server-a";
  active_build_id = [];
  pending_build_id = [];
  address = [];
  rcon_address = codes "10.0.0.1:27020";
  session_name = [];
  last_save_time = none;
  pod = [];
  last_good_volume = codes "server-b";
  drain_deadline = deadline;
  conditions = [];
}

abbrev pub cluster_of : Option ℕ → ArkCluster
cluster_of deadline = record {
  meta = record {
    name = codes "ark";
    namespace = codes "games";
    annotations = [];
    finalizers = [];
    deletion_timestamp = none;
    generation = 3;
  };
  spec = record {
    image = [];
    cluster_id = codes "c";
    maps = island ∷ [];
    global_settings = record {
      session_name_format = [];
      server_password = none;
      admin_password = none;
      battl_eye = true;
      allowed_platforms = [];
      max_players = pos 70;
      mods = [];
      extra_options = [];
      extra_params = [];
      game_user_settings = none;
      game = none;
    };
    storage = record {
      storage_class = [];
      cluster_storage_class = [];
      server_pvc_size = codes "50Gi";
      saves_pvc_size = codes "10Gi";
      cluster_pvc_size = codes "10Gi";
      persist_on_delete = false;
    };
    service = record {
      type = [];
      game_port_start = pos 7777;
      rcon_port_start = pos 27020;
      load_balancer_ips = [];
      external_traffic_policy = [];
    };
    update_strategy = record {
      type = UpdateStrategyType.blue_green;
      graceful_shutdown = pos 60;
      rollout = RolloutPolicy.one_at_a_time;
    };
    mod_auto_update = none;
    resources = [];
    node_selector = [];
    tolerations = [];
    pod_security_context = none;
  };
  status = record {
    phase = ClusterPhase.running;
    conditions = [];
    maps = island_status deadline ∷ [];
    mods = none;
    total_maps = pos 1;
    ready_maps = pos 1;
    observed_generation = 2;
  };
}

abbrev pub complete_job : Job
complete_job = record {
  name = [];
  namespace = [];
  labels = [];
  backoff_limit = 3;
  ttl_seconds_after_finished = 3600;
  restart_policy = [];
  security_context = default_security_context;
  container = [];
  image = [];
  command = [];
  args = [];
  volume_mounts = [];
  volumes = [];
  conditions = record { type = JobConditionType.complete; status = ConditionStatus.is_true } ∷ [];
}

-- A pod whose game server has crashed at time 90 for the third time.
abbrev pub crashed_pod : Pod
crashed_pod = record {
  name = codes "ark-island-0";
  namespace = codes "games";
  labels = [];
  deletion_timestamp = none;
  restart_policy = [];
  termination_grace_period_seconds = 1800;
  security_context = default_security_context;
  node_selector = [];
  tolerations = [];
  container = [];
  image = [];
  image_pull_policy = [];
  resources = [];
  startup_probe = none;
  readiness_probe = none;
  liveness_probe = none;
  pre_stop = [];
  volume_mounts = [];
  env = [];
  ports = [];
  volumes = [];
  container_statuses =
      record {
        restart_count = pos 3;
        last_terminated = some (record { exit_code = pos 1; finished_at = 90 });
      }
      ∷ [];
  conditions = [];
}

-- The time is read from the world. Jobs are found, complete or not at all; nothing else is found; every write
-- succeeds, and nobody answers on the network.
abbrev pub client_with : {W : Type 0} → (W → ℕ) → Result Job → Client W
client_with clock job = record {
  now = λ w. (clock w, w);
  update_status = λ c. λ w. (ok tt, w);
  update = λ c. λ w. (ok tt, w);
  get_secret = λ n. λ m. λ w. (err Error.not_found, w);
  get_config_map = λ n. λ m. λ w. (err Error.not_found, w);
  get_service = λ n. λ m. λ w. (err Error.not_found, w);
  get_job = λ n. λ m. λ w. (job, w);
  list_pods = λ n. λ l. λ w. (ok (crashed_pod ∷ []), w);
  list_services = λ n. λ l. λ w. (ok [], w);
  list_pvcs = λ n. λ l. λ w. (ok [], w);
  list_config_maps = λ n. λ l. λ w. (ok [], w);
  delete_service = λ s. λ w. w;
  delete_pvc = λ s. λ w. w;
  delete_config_map = λ s. λ w. w;
  get_cluster = λ n. λ m. λ w. (ok (cluster_of none), w);
  contains_finalizer = λ c. λ f. true;
  add_finalizer = λ c. λ f. c;
  remove_finalizer = λ c. λ f. c;
  create_pod = λ p. λ w. (ok tt, w);
  delete_pod = λ p. λ g. λ w. w;
  create_job = λ j. λ w. (ok tt, w);
  apply_secret = λ n. λ m. λ f. λ w. (ok tt, w);
  apply_config_map = λ n. λ m. λ f. λ w. (ok tt, w);
  apply_service = λ n. λ m. λ f. λ w. (ok tt, w);
  apply_pvc = λ n. λ m. λ f. λ w. (ok tt, w);
  patch = λ c. λ c'. λ w. (ok tt, w);
  error_text = λ e. [];
  rand_password = λ w. (ok [], w);
  is_quantity = λ t. true;
  sha256 = λ t. [];
  dial = λ a. λ w. (err (Error.other []), w);
  send = λ c. λ b. λ w. (ok tt, w);
  receive = λ c. λ n. λ w. (err (Error.other []), w);
  close = λ c. λ w. w;
}

abbrev pub client : Client ℕ
client = client_with (λ w. w) (ok complete_job)

-- The same before any install job is created.
abbrev pub fresh_client : Client ℕ
fresh_client = client_with (λ w. w) (err Error.not_found)

-- Time 100, with the drain deadline of the map.
abbrev pub at_100 : Option ℕ → Sys ℕ
at_100 deadline = record { cluster = cluster_of deadline; busy = false; world = 100; log = [] }
