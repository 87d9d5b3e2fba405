-- ===== src/Reconcile/Status/Aggregate.antt =====
-- The phase of the cluster is the worst class of phase among its maps.
use ark_asa_operator.Prelude.{
  ◌≡◌, refl, ap, ◌≢◌, ◌↔◌, Bool, true, false, ◌&&◌, ◌||◌, List, [], ◌∷◌, any, all, arith,
  if◌then◌else◌,
}
use ark_asa_operator.Api.{MapPhase, MapStatus, ClusterPhase}
use ark_asa_operator.Reconcile.Status.{
  Flags, flag, flags_from, no_flags, phase_of_flags, aggregate_phase,
}

-- The four classes of phase.
abbrev pub has_failed : MapStatus → Bool
has_failed m = elim m.phase [ MapPhase.failed ↦ true | _ ↦ false ]

abbrev pub is_updating : MapStatus → Bool
is_updating m = elim m.phase [
  | MapPhase.installing_active ↦ true
  | MapPhase.installing_inactive ↦ true
  | MapPhase.draining_active ↦ true
  | MapPhase.swapping ↦ true
  | _ ↦ false
]

abbrev pub is_starting : MapStatus → Bool
is_starting m = elim m.phase [ MapPhase.pending ↦ true | MapPhase.provisioning ↦ true | _ ↦ false ]

abbrev pub is_running : MapStatus → Bool
is_running m = elim m.phase [ MapPhase.running ↦ true | _ ↦ false ]

flags_from-any :
    (f : Flags) (maps : List MapStatus)
    → flags_from f maps ≡ record {
      any_failed = f.any_failed || any has_failed maps;
      any_updating = f.any_updating || any is_updating maps;
      any_pending = f.any_pending || any is_starting maps;
      all_running = f.all_running && all is_running maps;
    }
unfolding flags_from
flags_from-any f [] = ground arith
flags_from-any f (m ∷ maps) = ground (arith, flags_from-any (flag m.phase f) maps)

-- The phase of a cluster with at least one map: Degraded if some map has failed, else Updating if
-- some map installs, drains or swaps, else Initializing if some map is pending or provisioning, else
-- Running if every map runs, else Pending.
pub aggregate_phase_priority :
    (maps : List MapStatus)
    → maps ≢ []
    → aggregate_phase maps ≡ (
        if any has_failed maps
        then ClusterPhase.degraded
        else if any is_updating maps
        then ClusterPhase.updating
        else if any is_starting maps
        then ClusterPhase.initializing
        else if all is_running maps
        then ClusterPhase.running
        else ClusterPhase.pending)
unfolding aggregate_phase
aggregate_phase_priority [] h = absurd (h refl)
aggregate_phase_priority (m ∷ maps) h = ap phase_of_flags (flags_from-any no_flags (m ∷ maps))

all-is_running :
    (maps : List MapStatus)
    → all is_running maps ≡ true
    → (any has_failed maps ≡ false)
      × (any is_updating maps ≡ false)
      × (any is_starting maps ≡ false)
all-is_running [] h = (refl, refl, refl)
all-is_running (m ∷ maps) h = ground (arith, all-is_running maps)

-- The cluster is Running exactly when it has a map and all its maps run.
pub aggregate_phase-running :
    (maps : List MapStatus)
    → (aggregate_phase maps ≡ ClusterPhase.running) ↔ ((maps ≢ []) × (all is_running maps ≡ true))
aggregate_phase-running [] = (unfold aggregate_phase in cc, λ h. absurd (h.0 refl))
aggregate_phase-running (m ∷ maps) =
    ground (arith, aggregate_phase_priority (m ∷ maps) (cc), all-is_running (m ∷ maps))
