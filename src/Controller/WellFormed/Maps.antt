-- ===== src/Controller/WellFormed/Maps.antt =====
-- The loop over the maps, the garbage collection and the summary.
use ark_asa_operator.Prelude.{
  Bool, sym, refl, List, [], ◌∷◌, Option, none, some, Text, ℕ, suc, arith, inl, inr, if-both, ◌==◌,
  List_eq, ℕ_eq, if◌then◌else◌,
}
use ark_asa_operator.Api.{ArkCluster, ArkClusterSpec, MapSpec, MapStatus}
use ark_asa_operator.Kube.{Result, ok, err, Service, Pod, Action, Client, modify_cluster}
use ark_asa_operator.Kube.Quiet.{quiet_rules, Quiet-ignore_conflict, Quiet-gets, Quiet-pure}
use ark_asa_operator.Kube.Logs.{Grown-weaken}
use ark_asa_operator.Kube.Preserves.{
  preserves_rules, Preserves-bind, Preserves-modify, Preserves-write_then,
}
use ark_asa_operator.Reconcile.Names.{server_a}
use ark_asa_operator.Controller.Base.{update_map}
use ark_asa_operator.Controller.Base.Quiet.{compute_pod_hash-Quiet}
use ark_asa_operator.Controller.MapStep.{
  address_update, open_map_status, refresh_address, dispatch, reconcile_map,
}
use ark_asa_operator.Controller.Gc.{gc_orphaned_maps}
use ark_asa_operator.Controller.Gc.Safety.{DeletesOrphan, gc_orphaned_maps-DeletesOrphan}
use ark_asa_operator.Controller.Reconcile.{summarize, reconcile_maps, write_final_status}
use ark_asa_operator.Controller.Guarded.Resources.{ensure_map_resources-Quiet, list_map_pods-Quiet}
use ark_asa_operator.Controller.WellFormed.{
  IsWellFormed, IsVolume, IsEntry, All-keep_if, keep_if-Distinct,
}
use ark_asa_operator.Controller.WellFormed.Updates.{ensure_map_status-AreEntries}
use ark_asa_operator.Controller.WellFormed.Rolls.{roll_update-Sound}
use ark_asa_operator.Controller.WellFormed.Flows.{
  Sound, Good, Quiet-Sound, aside-Sound, update_map-Sound, first_start-Sound, steady-Sound,
}
use mathlib.Core.Path.{subst}

module _ {W : Type 0} (k : Client W) (spec : ArkClusterSpec) where
  default-IsVolume : (v : Text) → IsVolume v → IsVolume (if v == [] then server_a else v)
  default-IsVolume v h = if-both IsVolume (v == []) (inr (inl refl)) h

  open_map_status-Sound : (id : Text) → Sound k spec (open_map_status k id)
  unfolding open_map_status
  open_map_status-Sound id =
      Preserves-bind (IsWellFormed spec) _ _
        (Preserves-modify (IsWellFormed spec) _
          λ c h. (h.0, (ensure_map_status-AreEntries id c.status.maps h.1.0, h.1.1)))
        λ _. Preserves-bind (IsWellFormed spec) _ _ (Quiet-Sound k spec (Quiet-gets _)) λ p.
          Preserves-bind (IsWellFormed spec) _ _
            (update_map-Sound k spec p _ (λ m. refl)
              λ m e. (default-IsVolume m.active_volume e.0, e.1, e.2))
            λ _. Quiet-Sound k spec (Quiet-pure p)

  -- The addresses are no part of what is kept.
  address_update-Sound :
      (c : ArkCluster) (i p : ℕ) (r : Result Service)
      → Sound k spec (update_map {W = W} p (address_update k c i r))
  address_update-Sound c i p (err e) =
      aside-Sound k spec p _ (λ m. refl) (λ m. refl) (λ m. refl) λ m. refl
  address_update-Sound c i p (ok svc) =
      aside-Sound k spec p _ (λ m. ground arith) (λ m. ground arith) (λ m. ground arith)
        λ m. ground arith

  refresh_address-Sound : (m : MapSpec) (i p : ℕ) → Sound k spec (refresh_address k m i p)
  unfolding refresh_address
  refresh_address-Sound m i p =
      Preserves-bind (IsWellFormed spec) _ _ (Quiet-Sound k spec (Quiet-gets _)) λ c.
        Preserves-bind (IsWellFormed spec) _ _ (Quiet-Sound k spec (search quiet_rules))
          λ svc. address_update-Sound c i p svc

  dispatch-Sound :
      (m : MapSpec) (i p : ℕ) (desired mid : Text) (o : Option Pod)
      → Sound k spec (dispatch k m i p desired mid o)
  unfolding dispatch
  dispatch-Sound m i p desired mid none = first_start-Sound k spec m i p desired
  dispatch-Sound m i p desired mid (some pod) =
      search (preserves_rules, steady-Sound k spec, roll_update-Sound k spec)

  reconcile_map-Sound : (m : MapSpec) (i : ℕ) (mid : Text) → Sound k spec (reconcile_map k m i mid)
  unfolding reconcile_map
  reconcile_map-Sound m i mid =
      search
        (
          preserves_rules,
          ensure_map_resources-Quiet k,
          open_map_status-Sound,
          compute_pod_hash-Quiet k,
          list_map_pods-Quiet k,
          refresh_address-Sound,
          dispatch-Sound,
          Quiet-Sound k spec,
          quiet_rules,
        )
        depth 16

  pub reconcile_maps-Sound :
      (mid : Text) (i : ℕ) (maps : List MapSpec) → Sound k spec (reconcile_maps k mid i maps)
  unfolding reconcile_maps
  reconcile_maps-Sound mid i [] = Quiet-Sound k spec (search quiet_rules)
  reconcile_maps-Sound mid i (m ∷ maps) =
      Preserves-bind (IsWellFormed spec) _ _ (reconcile_map-Sound m i mid)
        λ _. reconcile_maps-Sound mid (suc i) maps

  orphan-Good :
      (persist : Bool) (cluster : Text) (keep : List Text) (a : Action)
      → DeletesOrphan persist cluster keep a
      → Good k spec a
  orphan-Good persist cluster keep a h = ground arith

  pub gc-Sound : (keep : List Text) → Sound k spec (gc_orphaned_maps k keep)
  gc-Sound keep = record {
    sound = λ s i.
        let (g, e) = gc_orphaned_maps-DeletesOrphan k keep s in
        (subst (IsWellFormed spec) (sym e) i, Grown-weaken (orphan-Good _ _ keep) g);
  }

  pub summarize-Sound : Sound k spec (modify_cluster {W = W} summarize)
  unfolding summarize
  summarize-Sound = Preserves-modify (IsWellFormed spec) _ λ c h. (
    h.0,
    (
      (
        All-keep_if IsEntry _ c.status.maps h.1.0.0,
        keep_if-Distinct (λ (m : MapStatus). m.id) _ c.status.maps h.1.0.1,
      ),
      h.1.1,
    ),
  )

  pub write_final_status-Sound : Sound k spec (write_final_status k)
  unfolding write_final_status
  write_final_status-Sound =
      Preserves-write_then (IsWellFormed spec) _ _ (λ c r h. h) _
        λ r. Quiet-Sound k spec (Quiet-ignore_conflict r)
