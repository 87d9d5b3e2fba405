-- ===== src/Controller/Reconcile.antt =====
-- internal/controller/arkcluster_controller.go, `Reconcile`: one pass over a cluster.
pub mod Summary
use ark_asa_operator.Prelude.{
  ℕ, suc, Bool, true, false, ◌||◌, ◌==◌, List_eq, ℕ_eq, if◌then◌else◌, List, [], ◌∷◌, map, length,
  first, keep_if, Option, none, some, Text,
}
use ark_asa_operator.Prelude.Int.{ℤ, pos, ◌+ℤ◌, int32}
use ark_asa_operator.Api.{ArkCluster, MapSpec, MapStatus, MapPhase, MapPhase_eq, RolloutPolicy}
use ark_asa_operator.Kube.{
  Result, ok, err, Error, Action, Client, Exec, pure, gets, attempt, recorded, modify_cluster,
  ◌>>=◌, ◌>>◌, done, cluster_now, ignore_conflict,
}
use ark_asa_operator.Ark.Slug.{map_slug}
use ark_asa_operator.Finalizer
use ark_asa_operator.Reconcile.Storage.{ensure_admin_password_secret, ensure_cluster_pvc}
use ark_asa_operator.Reconcile.Status.{aggregate_phase}
use ark_asa_operator.Controller.MapStep.{reconcile_map}
use ark_asa_operator.Controller.Gc.{kept, gc_orphaned_maps}

-- ctrl.Result: nothing, `Requeue: true`, or `RequeueAfter` in nanoseconds.
pub data Requeue : Type 0 where
  no_requeue requeue_now : Requeue
  requeue_after : ℕ → Requeue

abbrev pub requeue_steady : ℕ
requeue_steady = 300000000000

abbrev pub requeue_busy : ℕ
requeue_busy = 15000000000

abbrev pub is_mid_update : MapStatus → Bool
is_mid_update m =
    m.phase == MapPhase.draining_active
    || m.phase == MapPhase.swapping
    || m.phase == MapPhase.installing_inactive

abbrev pub is_parallel : RolloutPolicy → Bool
is_parallel RolloutPolicy.parallel = true
is_parallel _ = false

abbrev pub id_of : Option MapStatus → Text
id_of none = []
id_of (some m) = m.id

-- `midFlightMap`: the first map that is mid-update, unless the rollout is parallel.
unfoldable pub mid_flight_map : ArkCluster → Text
mid_flight_map c =
    if is_parallel c.spec.update_strategy.rollout
    then []
    else id_of (first is_mid_update c.status.maps)

unfoldable pub count_ready_from : ℤ → List MapStatus → ℤ
count_ready_from n [] = n
count_ready_from n (m ∷ maps) =
    count_ready_from (if m.phase == MapPhase.running then int32 (n +ℤ pos 1) else n) maps

unfoldable pub count_ready_maps : List MapStatus → ℤ
unfolding count_ready_from
count_ready_maps maps = count_ready_from (pos 0) maps

unfoldable pub keep_slugs : List MapSpec → List Text
keep_slugs maps = map (λ m. map_slug m.id) maps

-- The assignments between the garbage collection and the status write.
unfoldable pub summarize : ArkCluster → ArkCluster
unfolding count_ready_maps keep_slugs
summarize c =
    let keep = keep_slugs c.spec.maps in
    let maps = keep_if (λ m. kept keep (map_slug m.id)) c.status.maps in
    record c {
      status = record c.status {
        maps = maps;
        total_maps = int32 (pos (length c.spec.maps));
        ready_maps = count_ready_maps maps;
        phase = aggregate_phase maps;
        observed_generation = c.meta.generation;
      };
    }

module _ {W : Type 0} (k : Client W) where
  -- The loop over the maps, from index `i`.
  unfoldable pub reconcile_maps : Text → ℕ → List MapSpec → Exec W (Unit {0})
  reconcile_maps mid_flight i [] = done
  reconcile_maps mid_flight i (m ∷ maps) =
      let rest = reconcile_maps mid_flight (suc i) maps in reconcile_map k m i mid_flight >> rest

  -- A conflict on the last status write is no error.
  unfoldable pub write_final_status : Exec W (Unit {0})
  write_final_status = do
    c ← cluster_now
    r ← attempt (recorded (Action.write_status c) (k.update_status c))
    ignore_conflict r

  -- What follows the finalizer.
  unfoldable pub reconcile_live : Exec W Requeue
  reconcile_live = do
    ensure_admin_password_secret k
    ensure_cluster_pvc k
    c ← cluster_now
    reconcile_maps (mid_flight_map c) 0 c.spec.maps
    gc_orphaned_maps k (keep_slugs c.spec.maps)
    modify_cluster summarize
    write_final_status
    busy ← gets (λ s. s.busy)
    pure (requeue_after (if busy then requeue_busy else requeue_steady))

  -- `Reconcile` on a cluster that the first read has found; `busy` starts as false.
  unfoldable pub reconcile_found : Exec W Requeue
  reconcile_found = do
    c ← cluster_now
    elim c.meta.deletion_timestamp [
      | some t ↦ (do
        finished ← Finalizer.run_finalize k
        pure (if finished then no_requeue else requeue_after requeue_busy))
      | none ↦ (do added ← Finalizer.ensure k; if added then pure requeue_now else reconcile_live)
    ]

  -- The whole pass: a cluster that is gone needs nothing.
  unfoldable pub reconcile : Text → Text → W → Result Requeue × W × List Action
  reconcile namespace name w =
      let (r, w') = k.get_cluster namespace name w in
      elim r [
        | err Error.not_found ↦ (ok no_requeue, w', [])
        | err e ↦ (err e, w', [])
        | ok c ↦
            let (r', s) =
              reconcile_found (record { cluster = c; busy = false; world = w'; log = [] }) in
            (r', s.world, s.log)
      ]
