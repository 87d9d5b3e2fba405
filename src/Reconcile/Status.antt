-- ===== src/Reconcile/Status.antt =====
-- internal/reconcile/status.go: the per-map status entries, their conditions, and the phase of the
-- whole cluster. The laws are in the modules below.
pub mod Conditions
pub mod Aggregate
use ark_asa_operator.Prelude.{
  ℕ, zero, suc, Bool, true, false, ◌==◌, List_eq, ℕ_eq, if◌then◌else◌, List, [], ◌∷◌, ◌++◌, Option,
  none, some, Text, length,
}
use ark_asa_operator.Api.{
  Condition, ConditionStatus_eq, MapPhase, MapStatus, ClusterPhase, ArkClusterStatus, ArkCluster,
}

-- The loop over one list of conditions, the same in `SetMapCondition` and `SetClusterCondition`;
-- `now` is the value of metav1.Now().
unfoldable pub set_condition : ℕ → Condition → List Condition → List Condition
set_condition now cond [] = record cond { last_transition_time = some now } ∷ []
set_condition now cond (c ∷ conds) =
    let rest = set_condition now cond conds in
    if c.type == cond.type
    then (if c.status == cond.status
        then record c { reason = cond.reason; message = cond.message } ∷ conds
        else record cond { last_transition_time = some now } ∷ conds)
    else c ∷ rest

-- The loop of `SetMapCondition` over the maps: only the first entry with the ID is touched.
unfoldable pub set_map_condition : ℕ → Text → Condition → List MapStatus → List MapStatus
unfolding set_condition
set_map_condition now id cond [] = []
set_map_condition now id cond (m ∷ maps) =
    let rest = set_map_condition now id cond maps in
    if m.id == id
    then record m { conditions = set_condition now cond m.conditions } ∷ maps
    else m ∷ rest

-- `SetClusterCondition`
unfoldable pub set_cluster_condition : ℕ → Condition → ArkCluster → ArkCluster
unfolding set_condition
set_cluster_condition now cond cluster = record cluster {
  status = record cluster.status { conditions = set_condition now cond cluster.status.conditions };
}

-- `arkv1.MapStatus{ID: mapID}`
abbrev pub fresh_status : Text → MapStatus
fresh_status id = record {
  id = id;
  phase = MapPhase.unset;
  active_volume = [];
  active_build_id = [];
  pending_build_id = [];
  address = [];
  rcon_address = [];
  session_name = [];
  last_save_time = none;
  pod = [];
  last_good_volume = [];
  drain_deadline = none;
  conditions = [];
}

-- The position of the entry that the returned pointer points to; `length` if there is none.
unfoldable pub status_index : Text → List MapStatus → ℕ
status_index id [] = zero
status_index id (m ∷ maps) =
    let rest = status_index id maps in if m.id == id then zero else suc rest

-- `EnsureMapStatus`: the slice after the call; the pointer is `status_index` into it.
unfoldable pub ensure_map_status : Text → List MapStatus → List MapStatus
ensure_map_status id [] = fresh_status id ∷ []
ensure_map_status id (m ∷ maps) =
    let rest = ensure_map_status id maps in if m.id == id then m ∷ maps else m ∷ rest

-- The four flags of the loop of `AggregatePhase`.
pub record Flags : Type 0 where
  pub any_failed : Bool
  pub any_updating : Bool
  pub any_pending : Bool
  pub all_running : Bool

-- One round of the loop: the `switch m.Phase`.
pub flag : MapPhase → Flags → Flags
flag MapPhase.failed f = record f { any_failed = true; all_running = false }
flag MapPhase.installing_active f = record f { any_updating = true; all_running = false }
flag MapPhase.installing_inactive f = record f { any_updating = true; all_running = false }
flag MapPhase.draining_active f = record f { any_updating = true; all_running = false }
flag MapPhase.swapping f = record f { any_updating = true; all_running = false }
flag MapPhase.pending f = record f { any_pending = true; all_running = false }
flag MapPhase.provisioning f = record f { any_pending = true; all_running = false }
flag MapPhase.running f = f
flag MapPhase.unset f = record f { all_running = false }

pub flags_from : Flags → List MapStatus → Flags
unfolding flag
flags_from f [] = f
flags_from f (m ∷ maps) = flags_from (flag m.phase f) maps

abbrev pub no_flags : Flags
no_flags = record {
  any_failed = false;
  any_updating = false;
  any_pending = false;
  all_running = true;
}

-- The `switch` after the loop.
abbrev pub phase_of_flags : Flags → ClusterPhase
phase_of_flags f =
    if f.any_failed
    then ClusterPhase.degraded
    else if f.any_updating
    then ClusterPhase.updating
    else if f.any_pending
    then ClusterPhase.initializing
    else if f.all_running
    then ClusterPhase.running
    else ClusterPhase.pending

unfoldable pub aggregate_phase : List MapStatus → ClusterPhase
unfolding flags_from
aggregate_phase [] = ClusterPhase.pending
aggregate_phase (m ∷ maps) = phase_of_flags (flags_from no_flags (m ∷ maps))
