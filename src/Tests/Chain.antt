-- ===== src/Tests/Chain.antt =====
-- A cluster object with a map, through a pass, a repair by hand and a check of the mods.
use ark_asa_operator.Prelude.{
  ◌≡◌, refl, inl, inr, [], ◌∷◌, some, none, codes, true, false, list_beq,
}
use ark_asa_operator.Prelude.Int.{pos}
use ark_asa_operator.Api.{ArkCluster, MapPhase}
use ark_asa_operator.Kube.{◌>>=◌, ignore_exists, ignore_conflict, Client, Sys, ok, err, Error}
use ark_asa_operator.CurseForge.{ModApi}
use ark_asa_operator.Controller.Base.{write_at}
use ark_asa_operator.Controller.Reconcile.{reconcile, reconcile_found}
use ark_asa_operator.Controller.WellFormed.{IsGoodStatus}
use ark_asa_operator.Controller.WellFormed.Pass.{KeepsState}
use ark_asa_operator.ModUpdate.Pass.{reconcile_mods, reconcile_named}
use ark_asa_operator.History.{
  empty_status, created, reconciled, repaired, mods_checked, Repair, repair_entry,
  Stored-IsGoodStatus,
}
use ark_asa_operator.Controller.Base.{write_at}
use ark_asa_operator.Reconcile.Job.{init_job_status, status_of_job}
use ark_asa_operator.Controller.Reconcile.{
  reconcile_live, reconcile_maps, summarize, keep_slugs, write_final_status, mid_flight_map,
}
use ark_asa_operator.Reconcile.Storage.{
  ensure_admin_password_secret, ensure_cluster_pvc, ensure_pvc, ensure_saves_pvc, ensure_server_pvc,
}
use ark_asa_operator.Controller.MapStep.{
  reconcile_map, ensure_map_resources, open_map_status, list_map_pods, refresh_address, dispatch,
}
use ark_asa_operator.Reconcile.Ini.{
  ensure_map_ini_config_maps, resolve_ini, ini_ref, write_ini_config_map,
}
use ark_asa_operator.Reconcile.Pod.{find_map}
use ark_asa_operator.Reconcile.Service.{ensure_service}
use ark_asa_operator.Controller.Template.{
  compute_pod_hash, config_map_version, secret_version, add_password_rev,
}
use ark_asa_operator.Ark.Hash.{pod_template_hash, hex_encode}
use ark_asa_operator.Controller.Pods.{find_active_pod, crash_time, pod_ready}
use ark_asa_operator.Prelude.Assoc.{value_at, lookup}
use ark_asa_operator.Controller.Steady.{
  steady, should_rollback, crashed_lately, steady_on, warn_or_settle, settle,
}
use ark_asa_operator.Controller.Base.{set_condition_of}
use ark_asa_operator.Reconcile.Status.{set_map_condition, status_index, ensure_map_status}
use ark_asa_operator.Controller.Gc.{gc_orphaned_maps, gc_for, sweep, delete_where, is_orphan_label}
use ark_asa_operator.Ark.Slug.{map_slug}
use ark_asa_operator.Finalizer.{ensure}
use ark_asa_operator.Controller.FirstStart.{first_start, first_start_on}
use ark_asa_operator.Reconcile.Job.{
  init_job_status, status_of_job, ensure_init_job, create_if_missing,
}
use ark_asa_operator.Controller.Template.{join_sorted, launch_rev}
use ark_asa_operator.ModUpdate.Pass.{
  if_enabled, check_mods, after_wait, after_key, read_api_key, set_mod_failed_condition,
  write_status, wait_after,
}
use ark_asa_operator.Kube.{Action, created_or_exists}
use ark_asa_operator.Prelude.{get_elem?}
use ark_asa_operator.Tests.Toy.{cluster_of, client_with}

-- The world is the stored object; no pod is there, and no install job.
abbrev nursery : Client ArkCluster
nursery = record (client_with (λ w. 100) (err Error.not_found)) {
  get_cluster = λ n. λ m. λ w. (ok w, w);
  list_pods = λ n. λ l. λ w. (ok [], w);
}

nursery-KeepsState : KeepsState nursery
nursery-KeepsState = record {
  add_spec = λ c n. refl;
  add_status = λ c n. refl;
  remove_spec = λ c n. refl;
  remove_status = λ c n. refl;
}

abbrev no_api : ModApi ArkCluster
no_api = record {
  new_request = λ r. ok tt;
  send_request = λ r. λ w. (err (Error.other []), w);
  marshal_mod_ids = λ ids. [];
  decode_mods = λ t. err (Error.other []);
}

-- A cluster that has just been created, with one map, and mods that are to be checked.
abbrev born : ArkCluster
born =
    let c = cluster_of none in
    record c {
      spec = record c.spec {
        global_settings = record c.spec.global_settings { mods = pos 7 ∷ [] };
        mod_auto_update = some (record {
          enabled = true;
          interval_minutes = pos 30;
          curse_forge_api_key_ref = record { name = codes "cf"; key = codes "key" };
        });
      };
      status = empty_status;
    }

abbrev read_as : ArkCluster → Sys ArkCluster
read_as c = record { cluster = c; busy = false; world = c; log = [] }

-- A check of the mods, which finds no API key and says so.
abbrev without_key : ArkCluster
without_key = (reconcile_mods nursery no_api [] (read_as born)).1.cluster

-- What a pass of the cluster reconciler then writes, with an entry for the map.
abbrev installing : ArkCluster
installing = (reconcile_found nursery (read_as without_key)).1.cluster

-- An administrator sets the entry back to Pending.
abbrev to_pending : Repair
to_pending = record {
  phase = MapPhase.pending;
  drain_deadline = none;
  active_volume = codes "server-a";
  last_good_volume = [];
  stays = λ c. false;
}

abbrev set_back : ArkCluster
set_back = write_at 0 (repair_entry to_pending) installing

written_first :
    get_elem? (reconcile_named nursery no_api [] (codes "games") (codes "ark") born).2 0
    ≡ some (Action.write_status without_key (ok tt))
unfolding ◌>>=◌ reconcile_named reconcile_mods if_enabled check_mods after_wait after_key
    read_api_key set_mod_failed_condition write_status wait_after value_at
written_first = refl

written_second :
    get_elem? (reconcile nursery (codes "games") (codes "ark") without_key).2 0
    ≡ some (Action.write_status installing (ok tt))
unfolding reconcile_mods if_enabled check_mods after_wait after_key read_api_key
    set_mod_failed_condition write_status wait_after ◌>>=◌ reconcile reconcile_found ensure
    first_start first_start_on init_job_status status_of_job ensure_init_job create_if_missing
    join_sorted launch_rev created_or_exists reconcile_live reconcile_maps summarize keep_slugs
    write_final_status mid_flight_map list_beq ensure_admin_password_secret ensure_cluster_pvc
    ensure_pvc ensure_saves_pvc ensure_server_pvc ignore_exists ignore_conflict reconcile_map
    ensure_map_resources open_map_status list_map_pods refresh_address dispatch
    ensure_map_ini_config_maps resolve_ini ini_ref write_ini_config_map find_map ensure_service
    compute_pod_hash config_map_version secret_version add_password_rev pod_template_hash hex_encode
    find_active_pod crash_time pod_ready value_at lookup steady should_rollback crashed_lately
    steady_on warn_or_settle settle set_condition_of set_map_condition status_index
    ensure_map_status gc_orphaned_maps gc_for sweep delete_where is_orphan_label map_slug
written_second = refl

Stored-IsGoodStatus_example : IsGoodStatus set_back.status
Stored-IsGoodStatus_example =
    Stored-IsGoodStatus nursery no_api [] (codes "games") (codes "ark") nursery-KeepsState (
      repaired
        (reconciled {d = installing}
          (mods_checked {d = without_key} (created born.meta born.spec) born 0 refl written_first)
          without_key 0 refl written_second)
        0 to_pending (inr (inl refl)) (inl refl))
