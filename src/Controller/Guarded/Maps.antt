-- ===== src/Controller/Guarded/Maps.antt =====
-- The loop over the maps and the garbage collection: what they delete.
use ark_asa_operator.Prelude.{Bool, List, [], ◌∷◌, Option, none, some, Text, ℕ, suc, arith}
use ark_asa_operator.Api.{MapSpec}
use ark_asa_operator.Kube.{Pod, Action, Client}
use ark_asa_operator.Kube.Quiet.{Quiet, quiet_rules}
use ark_asa_operator.Kube.Logs.{Grown-weaken}
use ark_asa_operator.Controller.Base.Quiet.{compute_pod_hash-Quiet}
use ark_asa_operator.Controller.MapStep.{open_map_status, refresh_address, dispatch, reconcile_map}
use ark_asa_operator.Controller.Gc.{gc_orphaned_maps}
use ark_asa_operator.Controller.Gc.Safety.{DeletesOrphan, gc_orphaned_maps-DeletesOrphan}
use ark_asa_operator.Controller.Reconcile.{reconcile_maps, write_final_status}
use ark_asa_operator.Controller.Guarded.{AnyTime, Keeps, Keeps-Logs, Keeps-bind, keeps_rules}
use ark_asa_operator.Controller.Guarded.Rolls.{roll_update-Keeps}
use ark_asa_operator.Controller.Guarded.Flows.{
  Quiet-Keeps, modify_cluster-Keeps, set_busy-Keeps, first_start-Keeps, steady-Keeps,
}
use ark_asa_operator.Controller.Guarded.Resources.{ensure_map_resources-Quiet, list_map_pods-Quiet}

module _ {W : Type 0} (k : Client W) where
  pub write_final_status-Quiet : (keep : List Text) → Quiet (AnyTime keep) (write_final_status k)
  unfolding write_final_status
  write_final_status-Quiet keep = search quiet_rules

  module _ (keep : List Text) where
    open_map_status-Keeps : (id : Text) → Keeps keep (open_map_status k id)
    unfolding open_map_status
    open_map_status-Keeps id =
        search (keeps_rules, modify_cluster-Keeps k, Quiet-Keeps k, quiet_rules) depth 12

    refresh_address-Keeps : (m : MapSpec) (i p : ℕ) → Keeps keep (refresh_address k m i p)
    unfolding refresh_address
    refresh_address-Keeps m i p =
        search (keeps_rules, modify_cluster-Keeps k, Quiet-Keeps k, quiet_rules) depth 12

    dispatch-Keeps :
        (m : MapSpec) (i p : ℕ) (desired mid : Text) (o : Option Pod)
        → Keeps keep (dispatch k m i p desired mid o)
    unfolding dispatch
    dispatch-Keeps m i p desired mid none = first_start-Keeps k keep m i p desired
    dispatch-Keeps m i p desired mid (some pod) =
        search (keeps_rules, steady-Keeps k, set_busy-Keeps k, roll_update-Keeps k)

    reconcile_map-Keeps : (m : MapSpec) (i : ℕ) (mid : Text) → Keeps keep (reconcile_map k m i mid)
    unfolding reconcile_map
    reconcile_map-Keeps m i mid =
        search
          (
            keeps_rules,
            ensure_map_resources-Quiet k,
            open_map_status-Keeps,
            compute_pod_hash-Quiet k,
            list_map_pods-Quiet k,
            refresh_address-Keeps,
            dispatch-Keeps,
            Quiet-Keeps k,
            quiet_rules,
          )
          depth 16

    pub reconcile_maps-Keeps :
        (mid : Text) (i : ℕ) (maps : List MapSpec) → Keeps keep (reconcile_maps k mid i maps)
    unfolding reconcile_maps
    reconcile_maps-Keeps mid i [] = search (Quiet-Keeps k, quiet_rules)
    reconcile_maps-Keeps mid i (m ∷ maps) =
        Keeps-bind keep _ _ (reconcile_map-Keeps m i mid) λ _. reconcile_maps-Keeps mid (suc i) maps

    orphan-AnyTime :
        (persist : Bool) (cluster : Text) (a : Action)
        → DeletesOrphan persist cluster keep a
        → AnyTime keep a
    orphan-AnyTime persist cluster a h = ground arith

    pub gc-Keeps : Keeps keep (gc_orphaned_maps k keep)
    gc-Keeps = Keeps-Logs keep (record {
      grown = λ s. Grown-weaken (orphan-AnyTime _ _) (gc_orphaned_maps-DeletesOrphan k keep s).0;
    })
