-- ===== src/Tests/Slow.antt =====
-- A pass that ends with the slow requeue, and two passes of one roll.
use ark_asa_operator.Prelude.{◌≡◌, some, get_elem?, arith, ℕ, refl, ◌∷◌, [], codes, none, true}
use ark_asa_operator.Api.{ConditionStatus}
use ark_asa_operator.Kube.{Sys, Pod, Client, ok, ◌>>=◌}
use ark_asa_operator.Controller.Settled.{view}
use ark_asa_operator.Controller.Settled.Views.{Settled}
use ark_asa_operator.Controller.Settled.Pass.{reconcile_live-Settled}
use ark_asa_operator.Tests.Toy.{
  crashed_pod, client, client_with, complete_job, at_100, island, island_status, cluster_of,
}
use ark_asa_operator.Controller.Base.{write_at}
use ark_asa_operator.Controller.Roll.{roll_update, swapped}
use ark_asa_operator.Controller.Roll.Drain.{draining}
use ark_asa_operator.Controller.Roll.Replace.{CreatesLast}
use ark_asa_operator.Controller.Roll.Passes.{drain_then_swap}
use ark_asa_operator.Reconcile.Names.{other_side}
use ark_asa_operator.Reconcile.Job.{init_job_status, status_of_job}
use ark_asa_operator.Controller.Reconcile.{
  reconcile_live, reconcile_maps, summarize, keep_slugs, write_final_status, mid_flight_map,
}
use ark_asa_operator.Prelude.{list_beq}
use ark_asa_operator.Reconcile.Storage.{
  ensure_admin_password_secret, ensure_cluster_pvc, ensure_pvc, ensure_saves_pvc, ensure_server_pvc,
}
use ark_asa_operator.Kube.{ignore_exists, ignore_conflict}
use ark_asa_operator.Controller.MapStep.{
  reconcile_map, ensure_map_resources, open_map_status, list_map_pods, refresh_address, dispatch,
}
use ark_asa_operator.Reconcile.Ini.{
  ensure_map_ini_config_maps, resolve_ini, ini_ref, write_ini_config_map,
}
use ark_asa_operator.Reconcile.Pod.{find_map}
use ark_asa_operator.Reconcile.Service.{ensure_service}
use ark_asa_operator.Controller.Template.{
  compute_pod_hash, config_map_version, secret_version, add_password_rev,
}
use ark_asa_operator.Ark.Hash.{pod_template_hash, hex_encode}
use ark_asa_operator.Controller.Pods.{find_active_pod, crash_time, pod_ready}
use ark_asa_operator.Prelude.Assoc.{value_at, lookup}
use ark_asa_operator.Controller.Steady.{
  steady, should_rollback, crashed_lately, steady_on, warn_or_settle, settle,
}
use ark_asa_operator.Controller.Base.{set_condition_of}
use ark_asa_operator.Reconcile.Status.{set_map_condition, status_index, ensure_map_status}
use ark_asa_operator.Controller.Gc.{gc_orphaned_maps, gc_for, sweep, delete_where, is_orphan_label}
use ark_asa_operator.Ark.Slug.{map_slug}

-- The pod is ready and has not crashed.
abbrev ready_pod : Pod
ready_pod = record crashed_pod {
  container_statuses = [];
  conditions = record { is_ready_type = true; status = ConditionStatus.is_true } ∷ [];
}

abbrev calm : Client ℕ
calm = record client { list_pods = λ n. λ l. λ w. (ok (ready_pod ∷ []), w) }

reconcile_live-Settled_example :
    Settled (codes "TheIsland_WP") (view (reconcile_live calm (at_100 none)).1.cluster)
unfolding ◌>>=◌ reconcile_live reconcile_maps summarize keep_slugs write_final_status mid_flight_map
    list_beq ensure_admin_password_secret ensure_cluster_pvc ensure_pvc ensure_saves_pvc
    ensure_server_pvc ignore_exists ignore_conflict reconcile_map ensure_map_resources
    open_map_status list_map_pods refresh_address dispatch ensure_map_ini_config_maps resolve_ini
    ini_ref write_ini_config_map find_map ensure_service compute_pod_hash config_map_version
    secret_version add_password_rev pod_template_hash hex_encode find_active_pod crash_time
    pod_ready value_at lookup steady should_rollback crashed_lately steady_on warn_or_settle settle
    set_condition_of set_map_condition status_index ensure_map_status gc_orphaned_maps gc_for sweep
    delete_where is_orphan_label map_slug
reconcile_live-Settled_example =
    reconcile_live-Settled calm (at_100 none) (codes "TheIsland_WP") refl refl

-- The same API server, much later.
abbrev later : Client ℕ
later = client_with (λ w. 1000) (ok complete_job)

-- What the first pass leaves, and a later one makes of it.
abbrev after_first : Sys ℕ
after_first = (roll_update client island 0 0 crashed_pod (at_100 none)).1

drain_then_swap_example :
    let u = (roll_update later island 0 0 crashed_pod after_first).1 in
    (after_first.cluster ≡ write_at 0 (draining 160) (cluster_of none))
    × CreatesLast
        (write_at 0 (swapped (codes "server-b")) after_first.cluster)
        island
        0
        (codes "server-b")
        u.log
    × (get_elem? u.cluster.status.maps 0 ≡ some (swapped (codes "server-b") (island_status none)))
unfolding other_side list_beq init_job_status status_of_job ◌>>=◌
drain_then_swap_example =
    drain_then_swap client later island 0 0 crashed_pod crashed_pod (island_status none)
      (at_100 none) after_first refl refl refl tt refl refl (λ w. omega arith) λ w. tt
