-- ===== src/Controller/FirstStart/Safety.antt =====
-- No pod starts on a volume before its install job has succeeded.
use ark_asa_operator.Prelude.{refl, ap, ◌≢◌, ℕ, Text}
use ark_asa_operator.Api.{MapSpec}
use ark_asa_operator.Kube.{Result, ok, err, Sys, Client, continue, ◌>>=◌}
use ark_asa_operator.Kube.Quiet.{Quiet, quiet_rules, Grown, Grown-refl, Grown-trans}
use ark_asa_operator.Kube.Logs.{Logs, log_rules, Quiet-weaken}
use ark_asa_operator.Reconcile.Job.{JobStatus, init_job_status, ensure_init_job}
use ark_asa_operator.Reconcile.Names.{volume_side}
use ark_asa_operator.Controller.Base.{status_at}
use ark_asa_operator.Controller.Base.Persist.{job_spares, set_condition_of-Logs}
use ark_asa_operator.Controller.Base.Quiet.{
  SparesPods, init_job_status-Quiet, ensure_init_job-Quiet,
}
use ark_asa_operator.Controller.FirstStart.{first_start_on, first_start}

module _ {W : Type 0} (k : Client W) where
  install_spares : (id side : Text) → Quiet SparesPods (ensure_init_job k id side)
  install_spares id side = Quiet-weaken job_spares (ensure_init_job-Quiet k id side)

  first_start_on-Logs :
      (job : JobStatus) (m : MapSpec) (i p : ℕ) (hash : Text)
      → job ≢ JobStatus.succeeded
      → Logs SparesPods (first_start_on k job m i p hash)
  unfolding first_start_on
  first_start_on-Logs JobStatus.not_found m i p hash h =
      search (log_rules, quiet_rules, install_spares) depth 12
  first_start_on-Logs JobStatus.running m i p hash h = search (log_rules, quiet_rules)
  first_start_on-Logs JobStatus.failed m i p hash h = search (log_rules, set_condition_of-Logs k)
  first_start_on-Logs JobStatus.succeeded m i p hash h = elim (h refl) [ ]

  after_job :
      (m : MapSpec) (i p : ℕ) (hash : Text) (r : Result JobStatus) (s : Sys W)
      → r ≢ ok JobStatus.succeeded
      → Grown SparesPods s.log (continue r (λ j. first_start_on k j m i p hash) s).1.log
  after_job m i p hash (err e) s h = Grown-refl s.log
  after_job m i p hash (ok j) s h =
      (first_start_on-Logs j m i p hash λ e. h (ap (λ (x : JobStatus). ok x) e)).grown s

  -- Unless the install job of the active volume is found complete, the first start touches no pod.
  pub first_start-spares :
      (m : MapSpec) (i p : ℕ) (hash : Text) (s : Sys W)
      → (init_job_status k m.id (volume_side (status_at p s.cluster).active_volume) s).0
        ≢ ok JobStatus.succeeded
      → Grown SparesPods s.log (first_start k m i p hash s).1.log
  unfolding first_start ◌>>=◌
  first_start-spares m i p hash s h =
      let job = init_job_status k m.id (volume_side (status_at p s.cluster).active_volume) in
      Grown-trans ((init_job_status-Quiet k m.id _).grown s)
        (after_job m i p hash (job s).0 (job s).1 h)
