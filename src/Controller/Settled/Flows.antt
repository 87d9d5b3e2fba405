-- ===== src/Controller/Settled/Flows.antt =====
-- The three flows of a map: they change no other map's phase, and leave the map settled or the
-- reconciler busy.
use ark_asa_operator.Prelude.{refl, inl, inr, List_eq, ℕ_eq, Bool, Option, Text, ℕ}
use ark_asa_operator.Api.{ArkCluster, MapSpec, MapPhase}
use ark_asa_operator.Kube.{Pod, Client, Exec}
use ark_asa_operator.Kube.Quiet.{Quiet, quiet_rules, Quiet-gets}
use ark_asa_operator.Reconcile.Job.{JobStatus, ensure_init_job}
use ark_asa_operator.Controller.Base.{
  update_map, persist_status, delete_if_live, ensure_pod_for_map,
}
use ark_asa_operator.Controller.Base.Persist.{persist_status-Quiet, delete_if_live-Quiet}
use ark_asa_operator.Controller.Base.Quiet.{
  init_job_status-Quiet, ensure_pod_for_map-Quiet, ensure_init_job-Quiet,
}
use ark_asa_operator.Controller.FirstStart.{first_start_on, first_start}
use ark_asa_operator.Controller.Steady.{rollback, settle, warn_or_settle, steady_on, steady, named}
use ark_asa_operator.Controller.Steady.Safety.{should_rollback-Quiet}
use ark_asa_operator.Controller.Settled.{
  Local, Local-Quiet, Local-update, Local-set_busy, Local-bind, Local-if, local_rules,
}
use ark_asa_operator.Controller.Settled.Ends.{
  Ends, Ends-Done, Ends-if, Ends-bind, Ends-busy, Done-set_busy, Done-phase, set_condition_of-Local,
}

module _ {W : Type 0} (k : Client W) (p : ℕ) where
  -- Calls that leave the cluster object alone.
  pub persist-Local : Local p (persist_status k)
  persist-Local = Local-Quiet p (persist_status-Quiet k)

  pub delete-Local : (pod : Pod) (g : Option ℕ) → Local p (delete_if_live k pod g)
  delete-Local pod g = Local-Quiet p (delete_if_live-Quiet k pod g)

  pub install-Local : (id side : Text) → Local p (ensure_init_job k id side)
  install-Local id side = Local-Quiet p (ensure_init_job-Quiet k id side)

  pub ensure_pod-Local : (m : MapSpec) (i : ℕ) (v h : Text) → Local p (ensure_pod_for_map k m i v h)
  ensure_pod-Local m i v h = Local-Quiet p (ensure_pod_for_map-Quiet k m i v h)

  -- Nothing is recorded.
  pub silent-Local : {A : Type 0} {m : Exec W A} → Quiet (λ a. Unit) m → Local p m
  silent-Local q = Local-Quiet p q

  pub phase-Local : (ph : MapPhase) → Local {W = W} p (update_map p (λ m. record m { phase = ph }))
  phase-Local ph = Local-update p _ (λ x. ph) (λ m. refl) λ m. refl

  rollback-Local : (m : MapSpec) (pod : Pod) → Local p (rollback k m p pod)
  unfolding rollback
  rollback-Local m pod = Local-bind p _ _ (Local-set_busy p) λ _.
      Local-bind p _ _ (silent-Local (Quiet-gets _)) λ e.
        Local-bind p _ _ (Local-update p _ (λ x. x) (λ m. refl) λ m. refl) λ _.
          Local-bind p _ _ (set_condition_of-Local k p _ _)
            λ _. Local-bind p _ _ persist-Local λ _. delete-Local pod _

  settle-Local : (m : MapSpec) (pod : Pod) → Local p (settle k m p pod)
  unfolding settle
  settle-Local m pod =
      Local-if p _ _ _
        (Local-bind p _ _ (Local-update p _ (λ x. MapPhase.running) (λ m. refl) λ m. refl)
          λ _. set_condition_of-Local k p _ _)
        (Local-bind p _ _ (Local-set_busy p) λ _. set_condition_of-Local k p _ _)

  warn_or_settle-Local : (m : MapSpec) (pod : Pod) (b : Bool) → Local p (warn_or_settle k m p pod b)
  unfolding warn_or_settle
  warn_or_settle-Local m pod b = search (local_rules, settle-Local, set_condition_of-Local k)

  steady_on-Local : (m : MapSpec) (pod : Pod) (b : Bool) → Local p (steady_on k m p pod b)
  unfolding steady_on
  steady_on-Local m pod b =
      search
        (
          local_rules,
          rollback-Local,
          warn_or_settle-Local,
          silent-Local,
          quiet_rules,
          should_rollback-Quiet k,
        )
        depth 12

  named-Local :
      (c : ArkCluster) (m : MapSpec) (pod : Pod) → Local {W = W} p (update_map p (named c m pod))
  named-Local c m pod = Local-update p _ (λ x. x) (λ m. refl) λ m. refl

  pub steady-Local : (m : MapSpec) (pod : Pod) → Local p (steady k m p pod)
  unfolding steady
  steady-Local m pod =
      search
        (
          local_rules,
          named-Local,
          steady_on-Local,
          silent-Local,
          quiet_rules,
          should_rollback-Quiet k,
        )
        depth 12

  settle-Ends : (m : MapSpec) (pod : Pod) → Ends p (settle k m p pod)
  unfolding settle
  settle-Ends m pod =
      Ends-if p _ _ _ (Ends-Done p (Done-phase k p _ _ _ λ m. inl refl))
        (Ends-Done p (Done-set_busy p _ (set_condition_of-Local k p _ _)))

  warn_or_settle-Ends : (m : MapSpec) (pod : Pod) (b : Bool) → Ends p (warn_or_settle k m p pod b)
  unfolding warn_or_settle
  warn_or_settle-Ends m pod b =
      Ends-if p _ _ _ (Ends-bind p _ _ λ _. Ends-busy p) (settle-Ends m pod)

  rollback-Ends : (m : MapSpec) (pod : Pod) → Ends p (rollback k m p pod)
  unfolding rollback
  rollback-Ends m pod = Ends-Done p (
      Done-set_busy p _ (
        Local-bind p _ _ (silent-Local (Quiet-gets _)) λ e.
          Local-bind p _ _ (Local-update p _ (λ x. x) (λ m. refl) λ m. refl) λ _.
            Local-bind p _ _ (set_condition_of-Local k p _ _)
              λ _. Local-bind p _ _ persist-Local λ _. delete-Local pod _))

  steady_on-Ends : (m : MapSpec) (pod : Pod) (b : Bool) → Ends p (steady_on k m p pod b)
  unfolding steady_on
  steady_on-Ends m pod b = Ends-bind p _ _ λ e.
      Ends-if p _ _ _ (rollback-Ends m pod)
        (Ends-bind p _ _ λ still. warn_or_settle-Ends m pod still)

  pub steady-Ends : (m : MapSpec) (pod : Pod) → Ends p (steady k m p pod)
  unfolding steady
  steady-Ends m pod =
      Ends-bind p _ _ λ c. Ends-bind p _ _ λ _. Ends-bind p _ _ λ b. steady_on-Ends m pod b

  first_start_on-Local :
      (job : JobStatus) (m : MapSpec) (i : ℕ) (hash : Text)
      → Local p (first_start_on k job m i p hash)
  unfolding first_start_on
  first_start_on-Local JobStatus.not_found m i hash =
      search (local_rules, phase-Local, install-Local, silent-Local, quiet_rules) depth 12
  first_start_on-Local JobStatus.running m i hash = search (local_rules, phase-Local)
  first_start_on-Local JobStatus.failed m i hash =
      search (local_rules, phase-Local, set_condition_of-Local k)
  first_start_on-Local JobStatus.succeeded m i hash =
      search (local_rules, phase-Local, ensure_pod-Local, silent-Local, quiet_rules) depth 12

  pub first_start-Local : (m : MapSpec) (i : ℕ) (hash : Text) → Local p (first_start k m i p hash)
  unfolding first_start
  first_start-Local m i hash =
      search (local_rules, first_start_on-Local, silent-Local, quiet_rules, init_job_status-Quiet k)
        depth 12

  first_start_on-Ends :
      (job : JobStatus) (m : MapSpec) (i : ℕ) (hash : Text)
      → Ends p (first_start_on k job m i p hash)
  unfolding first_start_on
  first_start_on-Ends JobStatus.not_found m i hash = Ends-bind p _ _ λ e.
      Ends-bind p _ _ λ r.
        Ends-bind p _ _ λ _. Ends-Done p (Done-set_busy p _ (silent-Local (search quiet_rules)))
  first_start_on-Ends JobStatus.running m i hash = Ends-bind p _ _ λ _. Ends-busy p
  first_start_on-Ends JobStatus.failed m i hash = Ends-Done p (Done-phase k p _ _ _ λ m. inr refl)
  first_start_on-Ends JobStatus.succeeded m i hash = Ends-bind p _ _ λ e. Ends-bind p _ _ λ r.
      Ends-Done p (Done-set_busy p _ (search (local_rules, phase-Local, silent-Local, quiet_rules)))

  pub first_start-Ends : (m : MapSpec) (i : ℕ) (hash : Text) → Ends p (first_start k m i p hash)
  unfolding first_start
  first_start-Ends m i hash =
      Ends-bind p _ _ λ e. Ends-bind p _ _ λ job. first_start_on-Ends job m i hash
