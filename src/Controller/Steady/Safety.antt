-- ===== src/Controller/Steady/Safety.antt =====
-- When `steady` deletes a pod.
use ark_asa_operator.Prelude.{
  ◌≡◌, refl, ◌⊎◌, inl, inr, Bool, true, false, if◌then◌else◌, List, [], ◌∷◌, Option-cases, ◌++◌,
  ◌==◌, Option, none, some, arith, ℕ, ◌<◌, ◌+◌, ltb, codes, List_eq, ℕ_eq, ◌≢◌, ◌&&◌,
}
use ark_asa_operator.Controller.Steady.{named, steady_on, warn_or_settle}
use ark_asa_operator.Prelude.{==_iff, ltb→lt}
use ark_asa_operator.Api.{ArkCluster, MapSpec, MapStatus, ConditionStatus}
use ark_asa_operator.Reconcile.Status.{set_map_condition}
use ark_asa_operator.Kube.{Action, Sys, Client, Pod, ContainerStatus, Terminated, ◌>>=◌}
use mathlib.Core.Path.{subst}
use ark_asa_operator.Prelude.Int.{ℤ, pos, ◌≤ℤ◌, ltb_ℤ, ℤ_eq}
use ark_asa_operator.Kube.Quiet.{Quiet, quiet_rules, Grown}
use ark_asa_operator.Kube.Logs.{Logs, log_rules, Logs-Quiet}
use ark_asa_operator.Controller.Pods.{crash_of, crash_time, crash_window}
use ark_asa_operator.Controller.Base.{
  status_at, write_at, condition, set_condition_of, delete_if_live,
}
use ark_asa_operator.Controller.Base.Persist.{
  PersistedFirst, delete_if_live-Quiet, persist_status-PersistedFirst, set_condition_of-Logs,
}
use ark_asa_operator.Controller.Base.Quiet.{SparesPods}
use ark_asa_operator.Controller.Steady.{
  crashed_lately, should_rollback, rollback, settle, has_fallback, steady,
}

&&_left : (a b : Bool) → (a && b) ≡ true → a ≡ true
&&_left true b h = refl
&&_left false b h = h

&&_right : (a b : Bool) → (a && b) ≡ true → b ≡ true
&&_right true b h = h
&&_right false b h = ground (arith, h)

-- The cluster that a rollback writes: the map is on its last good volume, and says so.
abbrev pub rolled_back : ℕ → MapSpec → ℕ → ArkCluster → ArkCluster
rolled_back now m p c =
    let good = (status_at p c).last_good_volume in
    let c' = write_at p (λ x. record x { active_volume = good }) c in
    record c' {
      status = record c'.status {
        maps =
            set_map_condition now m.id
              (condition "RollbackOccurred" ConditionStatus.is_true "PodCrashLooping"
                (codes "auto-rolled back to " ++ (good ++ codes " after crash loop")))
              c'.status.maps;
      };
    }

module _ {W : Type 0} (k : Client W) where
  -- A rollback writes the status, with the last good volume as the active one and the condition set,
  -- before it deletes the pod, and deletes it only if the write succeeds or meets a conflict.
  pub rollback-PersistedFirst :
      (m : MapSpec) (p : ℕ) (pod : Pod) (s : Sys W)
      → PersistedFirst
          (rolled_back (k.now s.world).0 m p s.cluster)
          s.log
          (rollback k m p pod s).1.log
  unfolding rollback set_condition_of ◌>>=◌
  rollback-PersistedFirst m p pod s =
      persist_status-PersistedFirst k (delete_if_live k pod (some 0))
        (Logs-Quiet (delete_if_live-Quiet k pod (some 0))) _

  settle-Logs : (m : MapSpec) (p : ℕ) (pod : Pod) → Logs SparesPods (settle k m p pod)
  unfolding settle
  settle-Logs m p pod = search (log_rules, quiet_rules, set_condition_of-Logs k) depth 12

  -- What `shouldRollback` finds at the time `now`: the pod's first container has restarted at least
  -- three times, however and whenever, and its last termination was an error, less than the window ago.
  abbrev pub Crashed : ℕ → Pod → Type 0
  Crashed now pod =
      (c : ContainerStatus) × (cs : List ContainerStatus) × (t : Terminated)
      × (pod.container_statuses ≡ c ∷ cs)
      × (pos 3 ≤ℤ c.restart_count)
      × (c.last_terminated ≡ some t)
      × (t.exit_code ≢ pos 0)
      × (now < t.finished_at + crash_window)

  -- What `steady` may do to the pods: nothing, or a rollback of a crashing pod to the other volume. The
  -- clock is read first for the crash, then for the condition.
  abbrev pub SafeSteady : W → MapSpec → ℕ → Pod → ArkCluster → List Action → List Action → Type 0
  SafeSteady w m p pod c old new =
      Grown SparesPods old new
      ⊎ (Crashed (k.now w).0 pod
          × ((status_at p c).last_good_volume ≢ [])
          × ((status_at p c).last_good_volume ≢ (status_at p c).active_volume)
          × PersistedFirst (rolled_back (k.now (k.now w).1).0 m p c) old new)

  found_crash :
      (n : ℤ) (t : Terminated) (d : ℕ)
      → (if ltb_ℤ n (pos 3)
          then none
          else if t.exit_code == pos 0
          then none
          else some t.finished_at)
        ≡ some d
      → (pos 3 ≤ℤ n) × (t.exit_code ≢ pos 0) × (t.finished_at ≡ d)
  found_crash n t d e = ground (arith, e, ==_iff t.exit_code (pos 0))

  crashed_of :
      (cs : List ContainerStatus) (d now : ℕ)
      → crash_of cs ≡ some d
      → now < d + crash_window
      → (c : ContainerStatus) × (rest : List ContainerStatus) × (t : Terminated) × (cs ≡ c ∷ rest)
        × (pos 3 ≤ℤ c.restart_count)
        × (c.last_terminated ≡ some t)
        × (t.exit_code ≢ pos 0)
        × (now < t.finished_at + crash_window)
  crashed_of [] d now e h = ground (arith, e)
  crashed_of (c ∷ cs) d now e h = elim (Option-cases c.last_terminated) [
    | inl q ↦ ground (arith, e, q)
    | inr (t, q) ↦
        let (a, b, same) = found_crash c.restart_count t d (rw q at e) in
        (c, cs, t, refl, a, q, b, omega (arith, same, h))
  ]

  crash_time-Crashed :
      (pod : Pod) (d now : ℕ) → crash_time pod ≡ some d → now < d + crash_window → Crashed now pod
  unfolding crash_time
  crash_time-Crashed pod d now e h = crashed_of pod.container_statuses d now e h

  has_fallback_lem :
      (m : MapStatus)
      → has_fallback m ≡ true
      → (m.last_good_volume ≢ []) × (m.last_good_volume ≢ m.active_volume)
  has_fallback_lem m h =
      ground (arith, h, ==_iff m.last_good_volume [], ==_iff m.last_good_volume m.active_volume)

  crashed_lately-Quiet : {P : Action → Type 0} (o : Option ℕ) → Quiet P (crashed_lately k o)
  unfolding crashed_lately
  crashed_lately-Quiet none = search quiet_rules
  crashed_lately-Quiet (some d) = search quiet_rules

  pub should_rollback-Quiet : {P : Action → Type 0} (pod : Pod) → Quiet P (should_rollback k pod)
  unfolding should_rollback
  should_rollback-Quiet pod = crashed_lately-Quiet (crash_time pod)

  pub warn_or_settle-Logs :
      (m : MapSpec) (p : ℕ) (pod : Pod) (b : Bool) → Logs SparesPods (warn_or_settle k m p pod b)
  unfolding warn_or_settle
  warn_or_settle-Logs m p pod b = search (log_rules, settle-Logs, set_condition_of-Logs k) depth 12

  check_again-Logs :
      (m : MapSpec) (p : ℕ) (pod : Pod)
      → Logs SparesPods (should_rollback k pod >>= λ b. warn_or_settle k m p pod b)
  check_again-Logs m p pod = search (log_rules, should_rollback-Quiet, warn_or_settle-Logs)

  branch :
      (w : W) (m : MapSpec) (p : ℕ) (pod : Pod) (s : Sys W) (b : Bool)
      → (b ≡ true
          → Crashed (k.now w).0 pod
            × (s.world ≡ (k.now w).1)
            × (has_fallback (status_at p s.cluster) ≡ true))
      → SafeSteady w m p pod s.cluster s.log
          ((if b
              then rollback k m p pod
              else should_rollback k pod >>= λ x. warn_or_settle k m p pod x)
            s).1.log
  branch w m p pod s true h =
      let (crash, e, f) = h refl in
      let (f0, f1) = has_fallback_lem (status_at p s.cluster) f in
      inr (
        crash,
        f0,
        f1,
        subst
            (λ (x : W).
              PersistedFirst (rolled_back (k.now x).0 m p s.cluster) s.log
                (rollback k m p pod s).1.log)
            e (rollback-PersistedFirst m p pod s),
      )
  branch w m p pod s false h = inl ((check_again-Logs m p pod).grown s)

  steady_on-SafeSteady :
      (w : W) (m : MapSpec) (p : ℕ) (pod : Pod) (b : Bool) (s : Sys W)
      → (b ≡ true → Crashed (k.now w).0 pod × (s.world ≡ (k.now w).1))
      → SafeSteady w m p pod s.cluster s.log (steady_on k m p pod b s).1.log
  unfolding steady_on ◌>>=◌
  steady_on-SafeSteady w m p pod b s h =
      branch w m p pod s (b && has_fallback (status_at p s.cluster))
        λ e. let crash = h (&&_left b _ e) in (crash.0, crash.1, &&_right b _ e)

  crash_step :
      (m : MapSpec) (p : ℕ) (pod : Pod) (o : Option ℕ) (s : Sys W)
      → crash_time pod ≡ o
      → SafeSteady s.world m p pod s.cluster s.log
          ((crashed_lately k o >>= λ b. steady_on k m p pod b) s).1.log
  unfolding crashed_lately ◌>>=◌
  crash_step m p pod none s e = steady_on-SafeSteady s.world m p pod false s λ h. ground (arith, h)
  crash_step m p pod (some d) s e =
      steady_on-SafeSteady s.world m p pod (ltb (k.now s.world).0 (d + crash_window))
        (record s { world = (k.now s.world).1 })
        λ h. (crash_time-Crashed pod d (k.now s.world).0 e (ltb→lt _ _ h), refl)

  -- Either `steady` creates and deletes no pod; or the pod's first container has restarted at least
  -- three times, however and whenever, its last termination was an error less than five minutes before the
  -- pass reads the clock, and the map has a last good volume other than the active one. Then the
  -- status with that volume as the active one is written first, and the pod is deleted only if the
  -- write succeeds or meets a conflict.
  pub steady-SafeSteady :
      (m : MapSpec) (p : ℕ) (pod : Pod) (s : Sys W)
      → SafeSteady s.world m p pod
          (write_at p (named s.cluster m pod) s.cluster)
          s.log
          (steady k m p pod s).1.log
  unfolding steady should_rollback ◌>>=◌
  steady-SafeSteady m p pod s =
      crash_step m p pod (crash_time pod)
        (record s { cluster = write_at p (named s.cluster m pod) s.cluster }) refl
