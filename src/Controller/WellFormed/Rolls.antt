-- ===== src/Controller/WellFormed/Rolls.antt =====
-- `rollUpdate`: the volumes that it swaps are the two server volumes.
use ark_asa_operator.Prelude.{
  if-both, inl, inr, refl, ◌==◌, List_eq, ℕ_eq, Option, none, some, Text, ℕ,
}
use ark_asa_operator.Api.{ArkClusterSpec, MapSpec, MapPhase}
use ark_asa_operator.Kube.{Result, ok, err, Pod, Client, modify_cluster}
use ark_asa_operator.Kube.Quiet.{quiet_rules, Quiet-gets, Quiet-call_ok}
use ark_asa_operator.Kube.Preserves.{
  preserves_rules, Preserves-attempt, Preserves-bind, Preserves-modify,
}
use ark_asa_operator.Reconcile.Names.{server_a, other_side}
use ark_asa_operator.Reconcile.Job.{JobStatus}
use ark_asa_operator.Rcon.Session.Quiet.{announce_shutdown-Quiet, save_and_exit-Quiet}
use ark_asa_operator.Controller.Base.{update_map, mark_all_installed}
use ark_asa_operator.Controller.Base.Quiet.{
  init_job_status-Quiet, compute_pod_hash-Quiet, read_admin_password-Quiet,
}
use ark_asa_operator.Controller.Roll.{
  swapped, announce_drain, start_drain, recreate_pod, save_world, finish_swap, drain_and_swap,
  roll_update_on, roll_update,
}
use ark_asa_operator.Controller.WellFormed.{IsVolume, IsWellFormed}
use ark_asa_operator.Controller.WellFormed.Flows.{
  Sound, Quiet-Sound, rcon-Sound, update_map-Sound, aside-Sound, phase-Sound,
  set_condition_of-Sound, persist_status-Sound, delete_if_live-Sound, ensure_pod-Sound,
  install-Sound,
}

other_side-IsVolume : (v : Text) → IsVolume (other_side v)
unfolding other_side
other_side-IsVolume v = if-both IsVolume (v == server_a) (inr (inr refl)) (inr (inl refl))

module _ {W : Type 0} (k : Client W) (spec : ArkClusterSpec) where
  swapped-Sound : (p : ℕ) (v : Text) → IsVolume v → Sound k spec (update_map {W = W} p (swapped v))
  swapped-Sound p v h = update_map-Sound k spec p _ (λ m. refl) λ m e. (h, e.1, e.2)

  -- A new phase of a map and a new deadline.
  drain-Sound :
      (p : ℕ) (d : Option ℕ) (ph : MapPhase)
      → Sound k spec (update_map {W = W} p (λ m. record m { drain_deadline = d; phase = ph }))
  drain-Sound p d ph = aside-Sound k spec p _ (λ m. refl) (λ m. refl) (λ m. refl) (λ m. refl)

  mark-Sound : Sound k spec (modify_cluster {W = W} mark_all_installed)
  mark-Sound = Preserves-modify (IsWellFormed spec) _ λ c h. h

  announce_drain-Sound :
      (p grace : ℕ) (r : Result (Unit {0})) → Sound k spec (announce_drain k p grace r)
  unfolding announce_drain
  announce_drain-Sound p grace (err e) =
      search (preserves_rules, drain-Sound, Quiet-Sound k spec, quiet_rules)
  announce_drain-Sound p grace (ok u) =
      search
        (
          preserves_rules,
          Quiet-Sound k spec,
          quiet_rules,
          read_admin_password-Quiet k,
          rcon-Sound k spec,
          announce_shutdown-Quiet k,
        )
        depth 14

  start_drain-Sound : (p : ℕ) → Sound k spec (start_drain k p)
  unfolding start_drain
  start_drain-Sound p =
      Preserves-bind (IsWellFormed spec) _ _ (Quiet-Sound k spec (Quiet-gets _)) λ c.
        Preserves-bind (IsWellFormed spec) _ _ (Quiet-Sound k spec (Quiet-call_ok _)) λ now.
          Preserves-bind (IsWellFormed spec) _ _ (drain-Sound p _ _) λ _.
            Preserves-bind (IsWellFormed spec) _ _
              (Preserves-attempt (IsWellFormed spec) _ (persist_status-Sound k spec))
              (announce_drain-Sound p _)

  recreate_pod-Sound : (m : MapSpec) (i p : ℕ) → Sound k spec (recreate_pod k m i p)
  unfolding recreate_pod
  recreate_pod-Sound m i p =
      search
        (
          preserves_rules,
          mark-Sound,
          ensure_pod-Sound k spec,
          Quiet-Sound k spec,
          quiet_rules,
          compute_pod_hash-Quiet k,
        )
        depth 12

  save_world-Sound : (p : ℕ) → Sound k spec (save_world k p)
  unfolding save_world
  save_world-Sound p =
      search
        (
          preserves_rules,
          Quiet-Sound k spec,
          quiet_rules,
          read_admin_password-Quiet k,
          rcon-Sound k spec,
          save_and_exit-Quiet k,
        )
        depth 14

  finish_swap-Sound :
      (m : MapSpec) (i p : ℕ) (inactive : Text) (pod : Pod)
      → IsVolume inactive
      → Sound k spec (finish_swap k m i p inactive pod)
  unfolding finish_swap
  finish_swap-Sound m i p inactive pod h =
      Preserves-bind (IsWellFormed spec) _ _ (save_world-Sound p) λ _.
        Preserves-bind (IsWellFormed spec) _ _ (swapped-Sound p inactive h) λ _.
          Preserves-bind (IsWellFormed spec) _ _ (persist_status-Sound k spec)
            λ _. search (preserves_rules, delete_if_live-Sound k spec, recreate_pod-Sound)

  drain_and_swap-Sound :
      (m : MapSpec) (i p : ℕ) (inactive : Text) (pod : Pod) (o : Option ℕ)
      → IsVolume inactive
      → Sound k spec (drain_and_swap k m i p inactive pod o)
  unfolding drain_and_swap
  drain_and_swap-Sound m i p inactive pod none h = start_drain-Sound p
  drain_and_swap-Sound m i p inactive pod (some d) h =
      search
        (preserves_rules, phase-Sound k spec, finish_swap-Sound, h, Quiet-Sound k spec, quiet_rules)
        depth 12

  roll_update_on-Sound :
      (job : JobStatus) (m : MapSpec) (i p : ℕ) (inactive : Text) (pod : Pod)
      → IsVolume inactive
      → Sound k spec (roll_update_on k job m i p inactive pod)
  unfolding roll_update_on
  roll_update_on-Sound JobStatus.not_found m i p inactive pod h =
      search
        (preserves_rules, phase-Sound k spec, install-Sound k spec, Quiet-Sound k spec, quiet_rules)
        depth 12
  roll_update_on-Sound JobStatus.running m i p inactive pod h = phase-Sound k spec p _
  roll_update_on-Sound JobStatus.failed m i p inactive pod h =
      search (preserves_rules, phase-Sound k spec, set_condition_of-Sound k spec)
  roll_update_on-Sound JobStatus.succeeded m i p inactive pod h =
      search (preserves_rules, drain_and_swap-Sound, h, Quiet-Sound k spec, quiet_rules) depth 12

  pub roll_update-Sound :
      (m : MapSpec) (i p : ℕ) (pod : Pod) → Sound k spec (roll_update k m i p pod)
  unfolding roll_update
  roll_update-Sound m i p pod =
      search
        (
          preserves_rules,
          roll_update_on-Sound,
          other_side-IsVolume,
          Quiet-Sound k spec,
          quiet_rules,
          init_job_status-Quiet k,
        )
        depth 12
