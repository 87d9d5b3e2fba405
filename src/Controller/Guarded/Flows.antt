-- ===== src/Controller/Guarded/Flows.antt =====
-- The three flows of a map, `firstStart`, `steady` and `rollUpdate`: what they delete.
use ark_asa_operator.Prelude.{if-both, inr, ◌≡◌, refl, Bool, List, ◌∷◌, some, Text, ℕ, arith}
use ark_asa_operator.Api.{ArkCluster, MapSpec, Condition}
use ark_asa_operator.Kube.{
  Error, Result, ok, err, Pod, Action, Sys, Client, Exec, ◌>>=◌, ◌>>◌, ignore_conflict,
  modify_cluster, set_busy,
}
use ark_asa_operator.Kube.Quiet.{Quiet, quiet_rules}
use ark_asa_operator.Kube.Logs.{
  Logs, log_rules, Logs-Quiet, Quiet-weaken, Logs-modify_cluster, Logs-set_busy, Grown-weaken,
}
use ark_asa_operator.Reconcile.Job.{JobStatus, ensure_init_job}
use ark_asa_operator.Controller.Pods.{is_live}
use ark_asa_operator.Controller.Base.{
  set_condition_of, persist_status, delete_if_live, ensure_pod_for_map,
}
use ark_asa_operator.Controller.Base.Persist.{set_condition_of-Logs}
use ark_asa_operator.Controller.Base.Quiet.{
  SparesPods, CreatesPod, CreatesJob, init_job_status-Quiet, ensure_pod_for_map-Quiet,
  ensure_init_job-Quiet,
}
use ark_asa_operator.Controller.FirstStart.{first_start_on, first_start}
use ark_asa_operator.Controller.Steady.{rollback, steady_on, steady}
use ark_asa_operator.Controller.Steady.Safety.{should_rollback-Quiet, warn_or_settle-Logs}
use ark_asa_operator.Controller.Guarded.{
  FollowsWrite, AnyTime, Guarded, spares-AnyTime, Keeps, Keeps-Logs, keeps_rules,
}

module _ {W : Type 0} (k : Client W) (keep : List Text) where
  -- A run that may start with the deletion of a pod, as it comes after a status write.
  abbrev pub AfterWrite : {A : Type 0} → Exec W A → Type 0
  AfterWrite m = (s : Sys W) → FollowsWrite s.log → Guarded keep s.log → Guarded keep (m s).1.log

  delete_last : (pod : Pod) (g : ℕ) → AfterWrite (delete_if_live k pod (some g))
  unfolding delete_if_live ◌>>=◌
  delete_last pod g s f h =
      if-both (λ (m : Exec W (Unit {0})). Guarded keep (m s).1.log) (is_live pod) (inr f, h) h

  pub delete_then :
      (pod : Pod) (g : ℕ) (rest : Exec W (Unit {0}))
      → Keeps keep rest
      → AfterWrite (delete_if_live k pod (some g) >> rest)
  unfolding delete_if_live ◌>>=◌
  delete_then pod g rest q s f h =
      if-both (λ (m : Exec W (Unit {0})). Guarded keep ((m >> rest) s).1.log) (is_live pod)
        (q.guarded _ (inr f, h)) (q.guarded s h)

  after_write :
      (rest : Exec W (Unit {0}))
      → AfterWrite rest
      → (c : ArkCluster) (l : List Action) (r : Result (Unit {0})) (s : Sys W)
      → s.log ≡ Action.write_status c r ∷ l
      → Guarded keep l
      → Guarded keep ((ignore_conflict r >> rest) s).1.log
  unfolding ignore_conflict ◌>>=◌
  after_write rest q c l (ok u) s e h = q s (rw e tt) (rw e (tt, h))
  after_write rest q c l (err Error.conflict) s e h = q s (rw e tt) (rw e (tt, h))
  after_write rest q c l (err x) s e h = rw e (tt, h)

  pub persist_then :
      (rest : Exec W (Unit {0})) → AfterWrite rest → Keeps keep (persist_status k >> rest)
  unfolding persist_status ◌>>=◌
  persist_then rest q = record {
    guarded =
        λ s h. after_write rest q s.cluster s.log (k.update_status s.cluster s.world).0 _ refl h;
  }

  pub spares-Keeps : {A : Type 0} {m : Exec W A} → Logs SparesPods m → Keeps keep m
  spares-Keeps q =
      Keeps-Logs keep (record { grown = λ s. Grown-weaken (spares-AnyTime keep) (q.grown s) })

  pub Quiet-Keeps : {A : Type 0} {m : Exec W A} → Quiet (AnyTime keep) m → Keeps keep m
  Quiet-Keeps q = Keeps-Logs keep (Logs-Quiet q)

  pub modify_cluster-Keeps : (f : ArkCluster → ArkCluster) → Keeps keep {W = W} (modify_cluster f)
  modify_cluster-Keeps f = Keeps-Logs keep (Logs-modify_cluster f)

  pub set_busy-Keeps : Keeps keep {W = W} set_busy
  set_busy-Keeps = Keeps-Logs keep Logs-set_busy

  pub set_condition_of-Keeps : (id : Text) (c : Condition) → Keeps keep (set_condition_of k id c)
  set_condition_of-Keeps id c = Keeps-Logs keep (set_condition_of-Logs k id c)

  rollback-Keeps : (m : MapSpec) (p : ℕ) (pod : Pod) → Keeps keep (rollback k m p pod)
  unfolding rollback
  rollback-Keeps m p pod =
      search
        (
          keeps_rules, modify_cluster-Keeps, set_busy-Keeps, set_condition_of-Keeps, persist_then,
          delete_last, Quiet-Keeps, quiet_rules,
        )
        depth 12

  steady_on-Keeps :
      (m : MapSpec) (p : ℕ) (pod : Pod) (b : Bool) → Keeps keep (steady_on k m p pod b)
  unfolding steady_on
  steady_on-Keeps m p pod b =
      search
        (
          keeps_rules,
          rollback-Keeps,
          Quiet-Keeps,
          quiet_rules,
          spares-Keeps,
          log_rules,
          should_rollback-Quiet k,
          warn_or_settle-Logs k,
        )
        depth 12

  pub steady-Keeps : (m : MapSpec) (p : ℕ) (pod : Pod) → Keeps keep (steady k m p pod)
  unfolding steady
  steady-Keeps m p pod =
      search
        (
          keeps_rules,
          modify_cluster-Keeps,
          steady_on-Keeps,
          Quiet-Keeps,
          quiet_rules,
          spares-Keeps,
          log_rules,
          should_rollback-Quiet k,
        )
        depth 12

  creates-AnyTime : (a : Action) → CreatesPod a → AnyTime keep a
  creates-AnyTime a h = ground arith

  job-AnyTime : (a : Action) → CreatesJob a → AnyTime keep a
  job-AnyTime a h = ground arith

  pub ensure_pod-Keeps :
      (m : MapSpec) (i : ℕ) (v h : Text) → Keeps keep (ensure_pod_for_map k m i v h)
  ensure_pod-Keeps m i v h =
      Quiet-Keeps (Quiet-weaken creates-AnyTime (ensure_pod_for_map-Quiet k m i v h))

  pub install-Keeps : (id side : Text) → Keeps keep (ensure_init_job k id side)
  install-Keeps id side = Quiet-Keeps (Quiet-weaken job-AnyTime (ensure_init_job-Quiet k id side))

  first_start_on-Keeps :
      (job : JobStatus) (m : MapSpec) (i p : ℕ) (hash : Text)
      → Keeps keep (first_start_on k job m i p hash)
  unfolding first_start_on
  first_start_on-Keeps JobStatus.not_found m i p hash =
      search
        (keeps_rules, modify_cluster-Keeps, set_busy-Keeps, install-Keeps, Quiet-Keeps, quiet_rules)
        depth 12
  first_start_on-Keeps JobStatus.running m i p hash =
      search (keeps_rules, modify_cluster-Keeps, set_busy-Keeps)
  first_start_on-Keeps JobStatus.failed m i p hash =
      search (keeps_rules, modify_cluster-Keeps, set_condition_of-Keeps)
  first_start_on-Keeps JobStatus.succeeded m i p hash =
      search
        (
          keeps_rules, modify_cluster-Keeps, set_busy-Keeps, ensure_pod-Keeps, Quiet-Keeps,
          quiet_rules,
        )
        depth 12

  pub first_start-Keeps :
      (m : MapSpec) (i p : ℕ) (hash : Text) → Keeps keep (first_start k m i p hash)
  unfolding first_start
  first_start-Keeps m i p hash =
      search (keeps_rules, first_start_on-Keeps, Quiet-Keeps, quiet_rules, init_job_status-Quiet k)
        depth 12
