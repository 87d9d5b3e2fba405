-- ===== src/Controller/Gc.antt =====
-- internal/controller/arkcluster_controller.go, `gcOrphanedMaps`: the objects of maps that are no
-- longer in the spec. The set `keep` is the list of the slugs of the maps that are.
pub mod Safety
pub mod Exact
use ark_asa_operator.Prelude.{
  none, Bool, ◌&&◌, ◌||◌, not, ◌==◌, List_eq, ℕ_eq, if◌then◌else◌, List, [], ◌∷◌, any, Text, codes,
  has_prefix, has_suffix,
}
use ark_asa_operator.Prelude.Assoc.{value_at}
use ark_asa_operator.Api.{ArkCluster}
use ark_asa_operator.Kube.{
  Result, ok, err, ConfigMap, Service, PersistentVolumeClaim, Pod, Action, Client, Exec, attempt,
  call, call_ok, tell, ◌>>=◌, ◌>>◌, done, cluster_now,
}
use ark_asa_operator.Reconcile.Names.{map_prefix, pvc_name_cluster}

abbrev pub kept : List Text → Text → Bool
kept keep slug = any (λ s. s == slug) keep

-- The test on the map label of a pod or a service.
unfoldable pub is_orphan_label : List Text → List (Text × Text) → Bool
is_orphan_label keep labels =
    let slug = value_at (codes "ark.watteel.com/map") labels in
    not (slug == []) && not (kept keep slug)

-- The loop over `keep`: does the name begin with the prefix of a kept map?
unfoldable pub belongs : Text → List Text → Text → Bool
belongs cluster keep name = any (λ slug. has_prefix name (map_prefix cluster slug)) keep

unfoldable pub is_orphan_pvc : Text → List Text → Text → Bool
unfolding belongs
is_orphan_pvc cluster keep name =
    not (name == pvc_name_cluster cluster) && not (belongs cluster keep name)

unfoldable pub is_orphan_config_map : Text → List Text → Text → Bool
unfolding belongs
is_orphan_config_map cluster keep name =
    not (belongs cluster keep name)
    && (has_suffix name (codes "-gus") || has_suffix name (codes "-game"))

module _ {W : Type 0} (k : Client W) where
  abbrev pub delete_pod_now : Pod → Exec W (Unit {0})
  delete_pod_now pod =
      tell (Action.delete_pod pod none) >> call_ok (λ w. (tt, k.delete_pod pod none w))

  abbrev pub delete_service_now : Service → Exec W (Unit {0})
  delete_service_now svc =
      tell (Action.delete_service svc) >> call_ok (λ w. (tt, k.delete_service svc w))

  abbrev pub delete_pvc_now : PersistentVolumeClaim → Exec W (Unit {0})
  delete_pvc_now pvc = tell (Action.delete_pvc pvc) >> call_ok (λ w. (tt, k.delete_pvc pvc w))

  abbrev pub delete_config_map_now : ConfigMap → Exec W (Unit {0})
  delete_config_map_now cm =
      tell (Action.delete_config_map cm) >> call_ok (λ w. (tt, k.delete_config_map cm w))

  -- `for i := range items { if test { _ = r.Delete(…) } }`
  unfoldable pub delete_where :
      {A : Type 0} → (A → Bool) → (A → Exec W (Unit {0})) → List A → Exec W (Unit {0})
  delete_where test delete [] = done
  delete_where test delete (x ∷ xs) =
      let rest = delete_where test delete xs in if test x then delete x >> rest else rest

  -- `if err := r.List(…); err == nil`: a failed listing is skipped.
  unfoldable pub sweep :
      {A : Type 0} → Result (List A) → (A → Bool) → (A → Exec W (Unit {0})) → Exec W (Unit {0})
  unfolding delete_where
  sweep (err e) test delete = done
  sweep (ok items) test delete = delete_where test delete items

  -- The four listings, for the cluster `c`.
  unfoldable pub gc_for : ArkCluster → List Text → Exec W (Unit {0})
  gc_for c keep = do
    let labels = (codes "ark.watteel.com/cluster", c.meta.name) ∷ []
    pods ← attempt (call (k.list_pods c.meta.namespace labels))
    sweep pods (λ p. is_orphan_label keep p.labels) delete_pod_now
    svcs ← attempt (call (k.list_services c.meta.namespace labels))
    sweep svcs (λ s. is_orphan_label keep s.labels) delete_service_now
    if c.spec.storage.persist_on_delete then done else (do
      pvcs ← attempt (call (k.list_pvcs c.meta.namespace labels))
      sweep pvcs (λ p. is_orphan_pvc c.meta.name keep p.name) delete_pvc_now)
    cms ← attempt (call (k.list_config_maps c.meta.namespace labels))
    sweep cms (λ m. is_orphan_config_map c.meta.name keep m.name) delete_config_map_now

  unfoldable pub gc_orphaned_maps : List Text → Exec W (Unit {0})
  gc_orphaned_maps keep = do c ← cluster_now; gc_for c keep
