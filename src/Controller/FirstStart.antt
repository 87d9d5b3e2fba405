-- ===== src/Controller/FirstStart.antt =====
-- internal/controller/arkcluster_controller.go, `firstStart`: no pod runs yet.
pub mod Safety
use mathlib.Core.Option
use ark_asa_operator.Prelude.{ℕ, List_eq, ℕ_eq, Text, codes}
use ark_asa_operator.Api.{MapSpec, MapPhase, ConditionStatus}
use ark_asa_operator.Kube.{Client, Exec, lift, gets, attempt, set_busy, ◌>>=◌, ◌>>◌, done}
use ark_asa_operator.Rcon.Session
use ark_asa_operator.Reconcile.Names.{volume_side}
use ark_asa_operator.Reconcile.Job.{JobStatus, init_job_status, ensure_init_job}
use ark_asa_operator.Controller.Base.{
  status_at, condition, update_map, set_condition_of, ensure_pod_for_map,
}

module _ {W : Type 0} (k : Client W) where
  -- The `switch` on the state of the install job, and what follows it.
  unfoldable pub first_start_on : JobStatus → MapSpec → ℕ → ℕ → Text → Exec W (Unit {0})
  first_start_on JobStatus.not_found map_spec i p hash = do
    m ← gets (λ s. status_at p s.cluster)
    r ← attempt (ensure_init_job k map_spec.id (volume_side m.active_volume))
    update_map p (λ m. record m { phase = MapPhase.installing_active })
    set_busy
    created ← lift r
    done
  first_start_on JobStatus.running map_spec i p hash = do
    update_map p (λ m. record m { phase = MapPhase.installing_active })
    set_busy
  first_start_on JobStatus.failed map_spec i p hash = do
    update_map p (λ m. record m { phase = MapPhase.failed })
    set_condition_of k map_spec.id (
        condition "InstallSucceeded" ConditionStatus.is_false "InstallJobFailed"
          (codes "steamcmd job failed"))
  first_start_on JobStatus.succeeded map_spec i p hash = do
    m ← gets (λ s. status_at p s.cluster)
    r ← attempt (ensure_pod_for_map k map_spec i m.active_volume hash)
    set_busy
    update_map p (λ m. record m { phase = MapPhase.provisioning })
    created ← lift r
    done

  unfoldable pub first_start : MapSpec → ℕ → ℕ → Text → Exec W (Unit {0})
  first_start map_spec i p hash = do
    m ← gets (λ s. status_at p s.cluster)
    job ← init_job_status k map_spec.id (volume_side m.active_volume)
    first_start_on job map_spec i p hash
