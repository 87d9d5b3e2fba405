-- ===== src/Controller/Steady.antt =====
-- internal/controller/arkcluster_controller.go, `steady`, `rollback` and `shouldRollback`: the pod
-- has the desired hash.
pub mod Safety
use mathlib.Core.Option
use ark_asa_operator.Prelude.{
  some, Option, ℕ, ◌+◌, Bool, false, ◌&&◌, not, ◌==◌, List_eq, ℕ_eq, ltb, if◌then◌else◌, [], ◌∷◌,
  ◌++◌, none, some, Text, codes,
}
use ark_asa_operator.Prelude.Decimal.{format_int}
use ark_asa_operator.Api.{ArkCluster, MapSpec, MapStatus, MapPhase, ConditionStatus}
use ark_asa_operator.Kube.{
  Pod, Client, Exec, pure, gets, call_ok, set_busy, ◌>>=◌, ◌>>◌, cluster_now,
}
use ark_asa_operator.Ark.Launch.{session_name}
use ark_asa_operator.Rcon.Session
use ark_asa_operator.Controller.Pods.{pod_ready, crash_time, crash_window, restarts, friendly_name}
use ark_asa_operator.Controller.Base.{
  status_at, condition, update_map, set_condition_of, persist_status, delete_if_live,
}

-- The message's dash is three bytes of UTF-8.
abbrev crash_message : Pod → Text
crash_message pod =
    codes "pod has restarted "
    ++ (format_int (restarts pod)
        ++ (codes " times " ++ (226 ∷ 128 ∷ 148 ∷ codes " no prior volume to roll back to")))

-- A known good volume that is not the current one.
abbrev pub has_fallback : MapStatus → Bool
has_fallback m = not (m.last_good_volume == []) && not (m.last_good_volume == m.active_volume)

-- The first assignments of `steady`.
abbrev pub named : ArkCluster → MapSpec → Pod → MapStatus → MapStatus
named c map_spec pod m = record m {
  pod = pod.name;
  session_name =
      session_name c.spec.global_settings.session_name_format c.meta.name map_spec.id
        (friendly_name map_spec.id);
}

module _ {W : Type 0} (k : Client W) where
  -- The end of `shouldRollback`: did the crash end within the window?
  unfoldable pub crashed_lately : Option ℕ → Exec W Bool
  crashed_lately none = pure false
  crashed_lately (some finished) = do now ← call_ok k.now; pure (ltb now (finished + crash_window))

  -- `shouldRollback`
  unfoldable pub should_rollback : Pod → Exec W Bool
  should_rollback pod = crashed_lately (crash_time pod)

  -- `rollback`
  unfoldable pub rollback : MapSpec → ℕ → Pod → Exec W (Unit {0})
  rollback map_spec p bad_pod = do
    set_busy
    m ← gets (λ s. status_at p s.cluster)
    let previous = m.last_good_volume
    update_map p (λ m. record m { active_volume = previous })
    set_condition_of k map_spec.id (
        condition "RollbackOccurred" ConditionStatus.is_true "PodCrashLooping"
          (codes "auto-rolled back to " ++ (previous ++ codes " after crash loop")))
    persist_status k
    delete_if_live k bad_pod (some 0)

  -- The end of `steady`, where the pod does not crash.
  unfoldable pub settle : MapSpec → ℕ → Pod → Exec W (Unit {0})
  settle map_spec p pod =
      if pod_ready pod
      then (do
        update_map p
            (λ m. record m { phase = MapPhase.running; last_good_volume = m.active_volume })
        set_condition_of k map_spec.id
            (condition "PodReady" ConditionStatus.is_true "RCONReachable" (codes "pod ready")))
      else (do
        set_busy
        set_condition_of k map_spec.id
            (condition "PodReady" ConditionStatus.is_false "PodNotReady" (codes "warming up")))

  -- `steady`, after the second call of `shouldRollback`.
  unfoldable pub warn_or_settle : MapSpec → ℕ → Pod → Bool → Exec W (Unit {0})
  warn_or_settle map_spec p pod still =
      if still
      then (do
        set_condition_of k map_spec.id
            (condition "PodReady" ConditionStatus.is_false "PodCrashLooping" (crash_message pod))
        set_busy)
      else settle map_spec p pod

  -- `steady`, after the first.
  unfoldable pub steady_on : MapSpec → ℕ → Pod → Bool → Exec W (Unit {0})
  steady_on map_spec p pod crashing = do
    m ← gets (λ s. status_at p s.cluster)
    if crashing && has_fallback m
        then rollback map_spec p pod
        else do still ← should_rollback pod; warn_or_settle map_spec p pod still

  -- `steady`
  unfoldable pub steady : MapSpec → ℕ → Pod → Exec W (Unit {0})
  steady map_spec p pod = do
    c ← cluster_now
    update_map p (named c map_spec pod)
    crashing ← should_rollback pod
    steady_on map_spec p pod crashing
