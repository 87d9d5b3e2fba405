-- ===== src/Controller/Roll.antt =====
-- internal/controller/arkcluster_controller.go, `rollUpdate`: the blue/green flow.
pub mod Safety
pub mod Drain
pub mod Replace
pub mod Completes
pub mod Passes
use mathlib.Core.Option
use ark_asa_operator.Prelude.{
  Option, Option, some, ℕ, ◌+◌, ◌&&◌, not, ◌==◌, List_eq, ℕ_eq, ltb, if◌then◌else◌, [], none, some,
  Text, codes,
}
use ark_asa_operator.Prelude.Int.{ℤ, pos, negsuc}
use ark_asa_operator.Api.{MapSpec, MapStatus, MapPhase, ConditionStatus}
use ark_asa_operator.Kube.{
  Result, ok, err, raise, Client, ok, err, Pod, Client, Exec, raise, lift, gets, attempt, call_ok,
  modify_cluster, set_busy, ◌>>=◌, ◌>>◌, done, cluster_now,
}
use ark_asa_operator.Rcon.Session
use ark_asa_operator.Reconcile.Names.{volume_side, other_side}
use ark_asa_operator.Reconcile.Job.{JobStatus, init_job_status, ensure_init_job}
use ark_asa_operator.Controller.Template.{compute_pod_hash}
use ark_asa_operator.Controller.Base.{
  status_at, condition, mark_all_installed, update_map, set_condition_of, persist_status,
  delete_if_live, read_admin_password, ensure_pod_for_map,
}

-- `grace.Duration`, where a negative one is 0
abbrev pub grace_of : ℤ → ℕ
grace_of (pos n) = n
grace_of (negsuc n) = 0

-- The assignments between the save and the status write.
abbrev pub swapped : Text → MapStatus → MapStatus
swapped inactive m = record m {
  active_volume = inactive;
  pending_build_id = [];
  drain_deadline = none;
  phase = MapPhase.swapping;
}

module _ {W : Type 0} (k : Client W) where
  -- After the status write of step B: the in-memory mutation is undone if it failed, and else the
  -- players are warned.
  unfoldable pub announce_drain : ℕ → ℕ → Result (Unit {0}) → Exec W (Unit {0})
  announce_drain p grace (err e) = do
    update_map p (λ m. record m { drain_deadline = none; phase = MapPhase.running })
    raise e
  announce_drain p grace (ok _) = do
    m ← gets (λ s. status_at p s.cluster)
    if ltb 0 grace && not (m.rcon_address == [])
        then (do
          pw ← read_admin_password k
          attempt
              (Session.announce_shutdown k m.rcon_address pw (pos grace) (codes "cluster update"))
          done)
        else done

  -- Step B of `rollUpdate` where no drain is under way.
  unfoldable pub start_drain : ℕ → Exec W (Unit {0})
  start_drain p = do
    c ← cluster_now
    let grace = grace_of c.spec.update_strategy.graceful_shutdown
    now ← call_ok k.now
    update_map p
        (λ m. record m { drain_deadline = some (now + grace); phase = MapPhase.draining_active })
    r ← attempt (persist_status k)
    announce_drain p grace r

  -- The last call of `rollUpdate`, and the mods that it marks.
  unfoldable pub recreate_pod : MapSpec → ℕ → ℕ → Exec W (Unit {0})
  recreate_pod map_spec i p = do
    m ← gets (λ s. status_at p s.cluster)
    new_hash ← compute_pod_hash k map_spec i m.active_volume
    created ← ensure_pod_for_map k map_spec i m.active_volume new_hash
    modify_cluster mark_all_installed

  -- Step C and D of `rollUpdate`: the world is saved, the swap is written, then the pod is replaced.
  unfoldable pub save_world : ℕ → Exec W (Unit {0})
  save_world p = do
    m ← gets (λ s. status_at p s.cluster)
    if m.rcon_address == [] then done else (do
      pw ← read_admin_password k
      attempt (Session.save_and_exit k m.rcon_address pw)
      done)

  unfoldable pub finish_swap : MapSpec → ℕ → ℕ → Text → Pod → Exec W (Unit {0})
  finish_swap map_spec i p inactive current_pod = do
    save_world p
    update_map p (swapped inactive)
    persist_status k
    delete_if_live k current_pod (some 60)
    recreate_pod map_spec i p

  -- Steps B to D, once the inactive volume is installed.
  unfoldable pub drain_and_swap : MapSpec → ℕ → ℕ → Text → Pod → Option ℕ → Exec W (Unit {0})
  drain_and_swap map_spec i p inactive current_pod none = start_drain p
  drain_and_swap map_spec i p inactive current_pod (some deadline) = do
    now ← call_ok k.now
    if ltb now deadline
        then update_map p (λ m. record m { phase = MapPhase.draining_active })
        else finish_swap map_spec i p inactive current_pod

  -- The `switch` of step A, and what follows it.
  unfoldable pub roll_update_on : JobStatus → MapSpec → ℕ → ℕ → Text → Pod → Exec W (Unit {0})
  roll_update_on JobStatus.not_found map_spec i p inactive current_pod = do
    r ← attempt (ensure_init_job k map_spec.id (volume_side inactive))
    update_map p (λ m. record m { phase = MapPhase.installing_inactive })
    created ← lift r
    done
  roll_update_on JobStatus.running map_spec i p inactive current_pod =
      update_map p (λ m. record m { phase = MapPhase.installing_inactive })
  roll_update_on JobStatus.failed map_spec i p inactive current_pod = do
    set_condition_of k map_spec.id
        (condition "InstallSucceeded" ConditionStatus.is_false "InstallJobFailed" [])
    update_map p (λ m. record m { phase = MapPhase.failed })
  roll_update_on JobStatus.succeeded map_spec i p inactive current_pod = do
    m ← gets (λ s. status_at p s.cluster)
    drain_and_swap map_spec i p inactive current_pod m.drain_deadline

  unfoldable pub roll_update : MapSpec → ℕ → ℕ → Pod → Exec W (Unit {0})
  roll_update map_spec i p current_pod = do
    set_busy
    m ← gets (λ s. status_at p s.cluster)
    let inactive = other_side m.active_volume
    job ← init_job_status k map_spec.id (volume_side inactive)
    roll_update_on job map_spec i p inactive current_pod
