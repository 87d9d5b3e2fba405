-- ===== src/Controller/Settled/Rolls.antt =====
-- `rollUpdate` changes no other map's phase, and sets the busy flag first.
use ark_asa_operator.Prelude.{refl, Option, none, some, Text, ℕ}
use ark_asa_operator.Api.{MapSpec, MapPhase}
use ark_asa_operator.Kube.{Result, ok, err, Pod, Client, modify_cluster, ◌>>=◌, gets}
use ark_asa_operator.Kube.Quiet.{quiet_rules, Quiet-gets, Quiet-pure, Quiet-call_ok}
use ark_asa_operator.Prelude.{codes}
use ark_asa_operator.Prelude.Int.{pos}
use ark_asa_operator.Rcon.Session
use ark_asa_operator.Reconcile.Names.{volume_side, other_side}
use ark_asa_operator.Reconcile.Job.{JobStatus, init_job_status}
use ark_asa_operator.Rcon.Session.Quiet.{announce_shutdown-Quiet}
use ark_asa_operator.Controller.Base.{status_at, update_map, mark_all_installed}
use ark_asa_operator.Controller.Base.Quiet.{
  init_job_status-Quiet, compute_pod_hash-Quiet, read_admin_password-Quiet,
}
use ark_asa_operator.Controller.Roll.{
  announce_drain, start_drain, recreate_pod, finish_swap, drain_and_swap, roll_update_on,
  roll_update,
}
use ark_asa_operator.Controller.Roll.Safety.{save_world-Quiet}
use ark_asa_operator.Controller.Settled.{
  Local, Local-Quiet, Local-update, Local-same, Local-set_busy, Local-bind, Local-if, Local-attempt,
  local_rules,
}
use ark_asa_operator.Controller.Settled.Ends.{
  Ends, Ends-Done, Done-set_busy, set_condition_of-Local,
}
use ark_asa_operator.Controller.Settled.Flows.{
  persist-Local, delete-Local, install-Local, ensure_pod-Local, silent-Local, phase-Local,
}

module _ {W : Type 0} (k : Client W) (p : ℕ) where
  drain-Local :
      (d : Option ℕ) (ph : MapPhase)
      → Local {W = W} p (update_map p (λ m. record m { drain_deadline = d; phase = ph }))
  drain-Local d ph = Local-update p _ (λ x. ph) (λ m. refl) λ m. refl

  announce-Local :
      (addr password : Text) (grace : ℕ)
      → Local p (Session.announce_shutdown k addr password (pos grace) (codes "cluster update"))
  announce-Local addr password grace = Local-Quiet p (announce_shutdown-Quiet k addr password _ _)

  announce_drain-Local : (grace : ℕ) (r : Result (Unit {0})) → Local p (announce_drain k p grace r)
  unfolding announce_drain
  announce_drain-Local grace (err e) =
      Local-bind p _ _ (drain-Local none MapPhase.running)
        λ _. silent-Local k p (search quiet_rules)
  announce_drain-Local grace (ok u) = Local-bind p _ _ (silent-Local k p (Quiet-gets _)) λ m.
      Local-if p _ _ _
        (Local-bind p _ _ (silent-Local k p (read_admin_password-Quiet k)) λ pw.
          Local-bind p _ _ (Local-attempt p _ (announce-Local m.rcon_address pw grace))
            λ _. silent-Local k p (Quiet-pure tt))
        (silent-Local k p (Quiet-pure tt))

  start_drain-Local : Local p (start_drain k p)
  unfolding start_drain
  start_drain-Local = Local-bind p _ _ (silent-Local k p (Quiet-gets _)) λ c.
      Local-bind p _ _ (silent-Local k p (Quiet-call_ok _)) λ now.
        Local-bind p _ _ (drain-Local _ _) λ _.
          Local-bind p _ _ (Local-attempt p _ (persist-Local k p)) λ r. announce_drain-Local _ r

  mark-Local : Local {W = W} p (modify_cluster mark_all_installed)
  mark-Local = Local-same p _ (λ c. refl) λ c. refl

  recreate_pod-Local : (m : MapSpec) (i : ℕ) → Local p (recreate_pod k m i p)
  unfolding recreate_pod
  recreate_pod-Local m i =
      search
        (
          local_rules,
          mark-Local,
          ensure_pod-Local k,
          silent-Local k,
          quiet_rules,
          compute_pod_hash-Quiet k,
        )
        depth 12

  finish_swap-Local :
      (m : MapSpec) (i : ℕ) (inactive : Text) (pod : Pod)
      → Local p (finish_swap k m i p inactive pod)
  unfolding finish_swap
  finish_swap-Local m i inactive pod = Local-bind p _ _ (Local-Quiet p (save_world-Quiet k p)) λ _.
      Local-bind p _ _ (Local-update p _ (λ x. MapPhase.swapping) (λ m. refl) λ m. refl) λ _.
        Local-bind p _ _ (persist-Local k p)
          λ _. Local-bind p _ _ (delete-Local k p pod _) λ _. recreate_pod-Local m i

  drain_and_swap-Local :
      (m : MapSpec) (i : ℕ) (inactive : Text) (pod : Pod) (o : Option ℕ)
      → Local p (drain_and_swap k m i p inactive pod o)
  unfolding drain_and_swap
  drain_and_swap-Local m i inactive pod none = start_drain-Local
  drain_and_swap-Local m i inactive pod (some d) =
      search (local_rules, phase-Local k, finish_swap-Local, silent-Local k, quiet_rules) depth 12

  roll_update_on-Local :
      (job : JobStatus) (m : MapSpec) (i : ℕ) (inactive : Text) (pod : Pod)
      → Local p (roll_update_on k job m i p inactive pod)
  unfolding roll_update_on
  roll_update_on-Local JobStatus.not_found m i inactive pod =
      search (local_rules, phase-Local k, install-Local k, silent-Local k, quiet_rules) depth 12
  roll_update_on-Local JobStatus.running m i inactive pod = phase-Local k p _
  roll_update_on-Local JobStatus.failed m i inactive pod =
      search (local_rules, phase-Local k, set_condition_of-Local k)
  roll_update_on-Local JobStatus.succeeded m i inactive pod =
      search (local_rules, drain_and_swap-Local, silent-Local k, quiet_rules) depth 12

  -- What follows the flag.
  tail-Local :
      (m : MapSpec) (i : ℕ) (pod : Pod)
      → Local p (
          gets (λ s. status_at p s.cluster) >>= λ e.
          init_job_status k m.id (volume_side (other_side e.active_volume)) >>= λ job.
          roll_update_on k job m i p (other_side e.active_volume) pod)
  tail-Local m i pod =
      search
        (local_rules, roll_update_on-Local, silent-Local k, quiet_rules, init_job_status-Quiet k)
        depth 12

  pub roll_update-Local : (m : MapSpec) (i : ℕ) (pod : Pod) → Local p (roll_update k m i p pod)
  unfolding roll_update
  roll_update-Local m i pod = Local-bind p _ _ (Local-set_busy p) λ _. tail-Local m i pod

  pub roll_update-Ends : (m : MapSpec) (i : ℕ) (pod : Pod) → Ends p (roll_update k m i p pod)
  unfolding roll_update
  roll_update-Ends m i pod = Ends-Done p (Done-set_busy p _ (tail-Local m i pod))
