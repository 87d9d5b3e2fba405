-- ===== src/Controller/Guarded/Rolls.antt =====
-- `rollUpdate` deletes a pod directly after a status write only.
use ark_asa_operator.Prelude.{List, Option, none, some, Text, ℕ}
use ark_asa_operator.Api.{MapSpec}
use ark_asa_operator.Kube.{Pod, Client}
use ark_asa_operator.Kube.Quiet.{quiet_rules}
use ark_asa_operator.Kube.Logs.{Logs-Quiet}
use ark_asa_operator.Reconcile.Job.{JobStatus}
use ark_asa_operator.Controller.Base.Quiet.{init_job_status-Quiet, compute_pod_hash-Quiet}
use ark_asa_operator.Controller.Roll.{
  start_drain, recreate_pod, save_world, finish_swap, drain_and_swap, roll_update_on, roll_update,
}
use ark_asa_operator.Controller.Roll.Safety.{save_world-Quiet, start_drain-Logs}
use ark_asa_operator.Controller.Guarded.{Keeps, keeps_rules}
use ark_asa_operator.Controller.Guarded.Flows.{
  modify_cluster-Keeps, set_busy-Keeps, set_condition_of-Keeps, persist_then, delete_then,
  ensure_pod-Keeps, install-Keeps, Quiet-Keeps, spares-Keeps,
}

module _ {W : Type 0} (k : Client W) (keep : List Text) where
  recreate_pod-Keeps : (m : MapSpec) (i p : ℕ) → Keeps keep (recreate_pod k m i p)
  unfolding recreate_pod
  recreate_pod-Keeps m i p =
      search
        (
          keeps_rules,
          modify_cluster-Keeps k,
          ensure_pod-Keeps k,
          Quiet-Keeps k,
          quiet_rules,
          compute_pod_hash-Quiet k,
        )
        depth 12

  save_world-Keeps : (p : ℕ) → Keeps keep (save_world k p)
  save_world-Keeps p = spares-Keeps k keep (Logs-Quiet (save_world-Quiet k p))

  start_drain-Keeps : (p : ℕ) → Keeps keep (start_drain k p)
  start_drain-Keeps p = spares-Keeps k keep (start_drain-Logs k p)

  finish_swap-Keeps :
      (m : MapSpec) (i p : ℕ) (inactive : Text) (pod : Pod)
      → Keeps keep (finish_swap k m i p inactive pod)
  unfolding finish_swap
  finish_swap-Keeps m i p inactive pod =
      search
        (
          keeps_rules,
          save_world-Keeps,
          modify_cluster-Keeps k,
          persist_then k,
          delete_then k,
          recreate_pod-Keeps,
        )
        depth 12

  drain_and_swap-Keeps :
      (m : MapSpec) (i p : ℕ) (inactive : Text) (pod : Pod) (o : Option ℕ)
      → Keeps keep (drain_and_swap k m i p inactive pod o)
  unfolding drain_and_swap
  drain_and_swap-Keeps m i p inactive pod none = start_drain-Keeps p
  drain_and_swap-Keeps m i p inactive pod (some d) =
      search (keeps_rules, modify_cluster-Keeps k, finish_swap-Keeps, Quiet-Keeps k, quiet_rules)
        depth 12

  roll_update_on-Keeps :
      (job : JobStatus) (m : MapSpec) (i p : ℕ) (inactive : Text) (pod : Pod)
      → Keeps keep (roll_update_on k job m i p inactive pod)
  unfolding roll_update_on
  roll_update_on-Keeps JobStatus.not_found m i p inactive pod =
      search (keeps_rules, modify_cluster-Keeps k, install-Keeps k, Quiet-Keeps k, quiet_rules)
        depth 12
  roll_update_on-Keeps JobStatus.running m i p inactive pod = modify_cluster-Keeps k keep _
  roll_update_on-Keeps JobStatus.failed m i p inactive pod =
      search (keeps_rules, modify_cluster-Keeps k, set_condition_of-Keeps k)
  roll_update_on-Keeps JobStatus.succeeded m i p inactive pod =
      search (keeps_rules, drain_and_swap-Keeps, Quiet-Keeps k, quiet_rules) depth 12

  pub roll_update-Keeps : (m : MapSpec) (i p : ℕ) (pod : Pod) → Keeps keep (roll_update k m i p pod)
  unfolding roll_update
  roll_update-Keeps m i p pod =
      search
        (
          keeps_rules,
          set_busy-Keeps k,
          roll_update_on-Keeps,
          Quiet-Keeps k,
          quiet_rules,
          init_job_status-Quiet k,
        )
        depth 12
