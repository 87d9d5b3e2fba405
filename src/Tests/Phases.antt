-- ===== src/Tests/Phases.antt =====
-- Phases, conditions and status entries.
use ark_asa_operator.Prelude.{
  list_beq, ◌≡◌, refl, ◌⊎◌, ◌==◌, List_eq, ℕ_eq, [], ◌∷◌, codes, arith, List, Text, if◌then◌else◌,
  any, all, some, none, true, false, ◌&&◌,
}
use mathlib.Core.List.{Memᴰ}
use ark_asa_operator.Api.{
  MapPhase, MapStatus, ClusterPhase, Condition, ConditionStatus, MapPhase_eq,
}
use ark_asa_operator.StateMachine.{allowed_transition, transition}
use ark_asa_operator.StateMachine.Graph.{run, swapping_needs_drain}
use ark_asa_operator.Reconcile.Status.{set_condition, aggregate_phase}
use ark_asa_operator.Reconcile.Status.Aggregate.{
  aggregate_phase_priority, aggregate_phase-running, has_failed, is_updating, is_starting,
}
use ark_asa_operator.Reconcile.Status.Aggregate
use ark_asa_operator.Reconcile.Status.Conditions.{
  find_condition, updated, find_condition-set_condition,
}
use ark_asa_operator.Controller.Base.{condition}
use ark_asa_operator.Controller.Pods.{find_active_pod, is_live, hash_of}
use ark_asa_operator.Controller.Pods.Active.{find_active_pod-cases}
use ark_asa_operator.Controller.Reconcile.{summarize}
use ark_asa_operator.Controller.Reconcile.Summary.{Summarized, summarize_lem}
use ark_asa_operator.Tests.Toy.{cluster_of, island_status, crashed_pod}
use ark_asa_operator.Kube.{Pod}
use ark_asa_operator.Ark.Slug.{map_slug}

abbrev island_id : Text
island_id = codes "TheIsland_WP"

abbrev island_in : MapPhase → MapStatus
island_in phase = record (island_status none) { phase = phase }

abbrev start : List MapPhase
start =
    MapPhase.pending ∷ MapPhase.provisioning ∷ MapPhase.installing_active ∷ MapPhase.running ∷ []

abbrev blue_green : List MapPhase
blue_green = MapPhase.installing_inactive ∷ MapPhase.draining_active ∷ MapPhase.swapping ∷ []

swapping_needs_drain_example : Memᴰ MapPhase.draining_active blue_green
unfolding run transition allowed_transition
swapping_needs_drain_example =
    swapping_needs_drain (island_in MapPhase.running) blue_green refl refl

abbrev two_maps : List MapStatus
two_maps = island_in MapPhase.running ∷ island_in MapPhase.swapping ∷ []

aggregate_phase_priority_example : aggregate_phase two_maps ≡ (
    if any has_failed two_maps
    then ClusterPhase.degraded
    else if any is_updating two_maps
    then ClusterPhase.updating
    else if any is_starting two_maps
    then ClusterPhase.initializing
    else if all Aggregate.is_running two_maps
    then ClusterPhase.running
    else ClusterPhase.pending)
aggregate_phase_priority_example = aggregate_phase_priority two_maps (cc)

abbrev ready : Condition
ready = condition "PodReady" ConditionStatus.is_true "RCONReachable" []

abbrev not_ready : Condition
not_ready = condition "PodReady" ConditionStatus.is_false "PodNotReady" []

find_condition-set_condition_example :
    find_condition (codes "PodReady") (set_condition 5 ready (not_ready ∷ [])) ≡ (
      if ready.type == codes "PodReady"
      then some (updated 5 ready (find_condition (codes "PodReady") (not_ready ∷ [])))
      else find_condition (codes "PodReady") (not_ready ∷ []))
find_condition-set_condition_example =
    find_condition-set_condition 5 ready (codes "PodReady") (not_ready ∷ [])

abbrev deleted_pod : Pod
deleted_pod = record crashed_pod { deletion_timestamp = some 7 }

abbrev pods : List Pod
pods = deleted_pod ∷ crashed_pod ∷ []

find_active_pod-cases_example :
    ((pod : Pod) × (find_active_pod pods (codes "ab") ≡ some pod)
      × Memᴰ pod pods
      × (is_live pod ≡ true)
      × ((hash_of pod == codes "ab") ≡ any (λ p. is_live p && hash_of p == codes "ab") pods))
    ⊎ ((find_active_pod pods (codes "ab") ≡ none) × (any is_live pods ≡ false))
find_active_pod-cases_example = find_active_pod-cases pods (codes "ab")

summarize_lem_example : Summarized (cluster_of none) (summarize (cluster_of none)).status
unfolding summarize map_slug list_beq
summarize_lem_example = summarize_lem (cluster_of none) (omega arith) (omega arith)
