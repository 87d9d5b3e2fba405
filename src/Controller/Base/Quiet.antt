-- ===== src/Controller/Base/Quiet.antt =====
-- Which helpers of the reconciler leave the cluster object alone, and what calls they make.
use ark_asa_operator.Prelude.{Text, ℕ, Option, none, some}
use ark_asa_operator.Api.{MapSpec, SecretKeySelector}
use ark_asa_operator.Kube.{Action, Job, Client, Result, ok, err, Error}
use ark_asa_operator.Kube.Quiet.{Quiet, quiet_rules}
use ark_asa_operator.Reconcile.Job.{init_job_status, ensure_init_job, create_if_missing}
use ark_asa_operator.Controller.Base.{read_admin_password, ensure_pod_for_map}
use ark_asa_operator.Controller.Template.{
  config_map_version, secret_version, add_password_rev, compute_pod_hash,
}

-- Calls that touch no pod: RCON commands, install jobs and status writes.
abbrev pub SparesPods : Action → Type 0
SparesPods (Action.create_pod pod r) = ⊥
SparesPods (Action.delete_pod pod grace) = ⊥
SparesPods _ = Unit

abbrev pub CreatesPod : Action → Type 0
CreatesPod (Action.create_pod pod r) = Unit
CreatesPod _ = ⊥

abbrev pub CreatesJob : Action → Type 0
CreatesJob (Action.create_job job r) = Unit
CreatesJob _ = ⊥

module _ {W : Type 0} (k : Client W) where
  pub read_admin_password-Quiet : {P : Action → Type 0} → Quiet P (read_admin_password k)
  unfolding read_admin_password
  read_admin_password-Quiet = search quiet_rules

  pub config_map_version-Quiet :
      {P : Action → Type 0} (name : Text) → Quiet P (config_map_version k name)
  unfolding config_map_version
  config_map_version-Quiet name = search quiet_rules

  secret_version-Quiet : {P : Action → Type 0} (name : Text) → Quiet P (secret_version k name)
  unfolding secret_version
  secret_version-Quiet name = search quiet_rules

  add_password_rev-Quiet :
      {P : Action → Type 0} (sel : Option SecretKeySelector) (own : Text)
      → Quiet P (add_password_rev k sel own)
  unfolding add_password_rev
  add_password_rev-Quiet none own = search quiet_rules
  add_password_rev-Quiet (some sel) own = search (quiet_rules, secret_version-Quiet)

  pub compute_pod_hash-Quiet :
      {P : Action → Type 0} (m : MapSpec) (i : ℕ) (v : Text) → Quiet P (compute_pod_hash k m i v)
  unfolding compute_pod_hash
  compute_pod_hash-Quiet m i v =
      search (quiet_rules, config_map_version-Quiet, secret_version-Quiet, add_password_rev-Quiet)
        depth 12

  pub init_job_status-Quiet :
      {P : Action → Type 0} (id side : Text) → Quiet P (init_job_status k id side)
  unfolding init_job_status
  init_job_status-Quiet id side = search quiet_rules

  pub ensure_pod_for_map-Quiet :
      (m : MapSpec) (i : ℕ) (v h : Text) → Quiet CreatesPod (ensure_pod_for_map k m i v h)
  unfolding ensure_pod_for_map
  ensure_pod_for_map-Quiet m i v h = search quiet_rules

  create_if_missing-Quiet :
      (job : Job) (r : Result Job) → Quiet CreatesJob (create_if_missing k job r)
  unfolding create_if_missing
  create_if_missing-Quiet job (ok existing) = search quiet_rules
  create_if_missing-Quiet job (err Error.not_found) = search quiet_rules
  create_if_missing-Quiet job (err e) = search quiet_rules

  pub ensure_init_job-Quiet : (id side : Text) → Quiet CreatesJob (ensure_init_job k id side)
  unfolding ensure_init_job
  ensure_init_job-Quiet id side = search (quiet_rules, create_if_missing-Quiet)
