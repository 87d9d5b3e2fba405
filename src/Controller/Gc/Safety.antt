-- ===== src/Controller/Gc/Safety.antt =====
-- What the garbage collection deletes.
use ark_asa_operator.Prelude.{
  ◌≡◌, refl, ap, inl, inr, Bool, true, false, if◌then◌else◌, List, [], ◌∷◌, ◌++◌, any, arith, Text,
  codes, ◌==◌, List_eq, ℕ_eq, ==_refl, ==_iff, has_prefix, Bool-cases,
}
use ark_asa_operator.Api.{ArkCluster}
use ark_asa_operator.Kube.{
  Result, ok, err, Action, Sys, Client, Exec, Pod, Service, PersistentVolumeClaim, ConfigMap, ◌>>=◌,
  ◌>>◌, done,
}
use ark_asa_operator.Kube.Quiet.{Quiet, Quiet-bind, quiet_rules, Grown}
use ark_asa_operator.Reconcile.Names.{
  map_prefix, pvc_name_cluster, pvc_name_saves, pvc_name_server, gus_config_map_name,
  game_config_map_name,
}
use ark_asa_operator.Ark.Slug.{map_slug}
use ark_asa_operator.Controller.Gc.{
  kept, is_orphan_label, belongs, is_orphan_pvc, is_orphan_config_map, delete_where, delete_pod_now,
  delete_service_now, delete_pvc_now, delete_config_map_now, gc_for, sweep, gc_orphaned_maps,
}

-- The deletions that the collection may make on a cluster of this name.
abbrev pub DeletesOrphan : Bool → Text → List Text → Action → Type 0
DeletesOrphan persist cluster keep (Action.delete_pod pod grace) =
    is_orphan_label keep pod.labels ≡ true
DeletesOrphan persist cluster keep (Action.delete_service svc) =
    is_orphan_label keep svc.labels ≡ true
DeletesOrphan persist cluster keep (Action.delete_pvc pvc) =
    (persist ≡ false) × (is_orphan_pvc cluster keep pvc.name ≡ true)
DeletesOrphan persist cluster keep (Action.delete_config_map cm) =
    is_orphan_config_map cluster keep cm.name ≡ true
DeletesOrphan persist cluster keep _ = ⊥

has_prefix-append : (xs ys : Text) → has_prefix (xs ++ ys) xs ≡ true
unfolding has_prefix
has_prefix-append [] ys = refl
has_prefix-append (x ∷ xs) ys = ground (arith, ==_refl x, has_prefix-append xs ys)

any-kept :
    (keep : List Text) (slug : Text) (q : Text → Bool)
    → q slug ≡ true
    → kept keep slug ≡ true
    → any q keep ≡ true
any-kept [] slug q hq h = ground (arith, h)
any-kept (x ∷ keep) slug q hq h = elim (Bool-cases (x == slug)) [
  | inl e ↦ ground (arith, hq, ap q ((==_iff x slug).0 e))
  | inr e ↦ ground (arith, h, e, any-kept keep slug q hq)
]

belongs-kept :
    (cluster slug rest : Text) (keep : List Text)
    → kept keep slug ≡ true
    → belongs cluster keep (map_prefix cluster slug ++ rest) ≡ true
unfolding belongs
belongs-kept cluster slug rest keep h =
    any-kept keep slug _ (has_prefix-append (map_prefix cluster slug) rest) h

-- The volume claims and config maps of a map whose slug is kept, and the claim that the maps share, are
-- no orphans.
pub kept_resources_not_orphan :
    (cluster id side : Text) (keep : List Text)
    → kept keep (map_slug id) ≡ true
    → (is_orphan_pvc cluster keep (pvc_name_saves cluster id) ≡ false)
      × (is_orphan_pvc cluster keep (pvc_name_server cluster id side) ≡ false)
      × (is_orphan_pvc cluster keep (pvc_name_cluster cluster) ≡ false)
      × (is_orphan_config_map cluster keep (gus_config_map_name cluster id) ≡ false)
      × (is_orphan_config_map cluster keep (game_config_map_name cluster id) ≡ false)
unfolding is_orphan_pvc is_orphan_config_map pvc_name_saves pvc_name_server gus_config_map_name
    game_config_map_name
kept_resources_not_orphan cluster id side keep h =
    let b : (rest : Text) → belongs cluster keep (map_prefix cluster (map_slug id) ++ rest) ≡ true =
      λ rest. belongs-kept cluster (map_slug id) rest keep h in
    (
      ground (arith, b (codes "saves")),
      ground (arith, b (codes "server-" ++ side)),
      ground (arith, ==_refl (pvc_name_cluster cluster)),
      ground (arith, b (codes "gus")),
      ground (arith, b (codes "game")),
    )

module _ {W : Type 0} {P : Action → Type 0} where
  delete_one :
      (b : Bool) (m rest : Exec W (Unit {0}))
      → (b ≡ true → Quiet P m)
      → Quiet P rest
      → Quiet P (if b then m >> rest else rest)
  delete_one true m rest h q = Quiet-bind m _ (h refl) λ _. q
  delete_one false m rest h q = q

module _ {W : Type 0} (k : Client W) where
  delete_where-Quiet :
      {A : Type 0} {P : Action → Type 0} (test : A → Bool) (delete : A → Exec W (Unit {0}))
      (xs : List A)
      → ((x : A) → test x ≡ true → Quiet P (delete x))
      → Quiet P (delete_where k test delete xs)
  unfolding delete_where
  delete_where-Quiet test delete [] h = search quiet_rules
  delete_where-Quiet test delete (x ∷ xs) h =
      delete_one (test x) _ _ (h x) (delete_where-Quiet test delete xs h)

  sweep-Quiet :
      {A : Type 0} {P : Action → Type 0} (r : Result (List A)) (test : A → Bool)
      (delete : A → Exec W (Unit {0}))
      → ((x : A) → test x ≡ true → Quiet P (delete x))
      → Quiet P (sweep k r test delete)
  unfolding sweep
  sweep-Quiet (err e) test delete h = search quiet_rules
  sweep-Quiet (ok xs) test delete h = delete_where-Quiet test delete xs h

  module _ (c : ArkCluster) (keep : List Text) where
    abbrev pub Kind : Action → Type 0
    Kind = DeletesOrphan c.spec.storage.persist_on_delete c.meta.name keep

    sweep_pods :
        (r : Result (List Pod))
        → Quiet Kind (sweep k r (λ p. is_orphan_label keep p.labels) (delete_pod_now k))
    sweep_pods r = sweep-Quiet r _ _ λ p h. search (quiet_rules, h)

    sweep_services :
        (r : Result (List Service))
        → Quiet Kind (sweep k r (λ s. is_orphan_label keep s.labels) (delete_service_now k))
    sweep_services r = sweep-Quiet r _ _ λ p h. search (quiet_rules, h)

    sweep_config_maps :
        (r : Result (List ConfigMap))
        → Quiet Kind (
            sweep k r (λ m. is_orphan_config_map c.meta.name keep m.name) (delete_config_map_now k))
    sweep_config_maps r = sweep-Quiet r _ _ λ p h. search (quiet_rules, h)

    sweep_pvcs :
        (r : Result (List PersistentVolumeClaim))
        → c.spec.storage.persist_on_delete ≡ false
        → Quiet Kind (sweep k r (λ p. is_orphan_pvc c.meta.name keep p.name) (delete_pvc_now k))
    sweep_pvcs r e = sweep-Quiet r _ _ λ p h. search (quiet_rules, e, h)

    pvcs_unless :
        (b : Bool) (m : Exec W (Unit {0}))
        → (b ≡ false → Quiet Kind m)
        → Quiet Kind (if b then done else m)
    pvcs_unless true m h = search quiet_rules
    pvcs_unless false m h = h refl

    pub gc_for-Quiet : Quiet Kind (gc_for k c keep)
    unfolding gc_for
    gc_for-Quiet =
        search (quiet_rules, sweep_pods, sweep_services, sweep_config_maps, sweep_pvcs, pvcs_unless)
          depth 16

  -- The garbage collection makes no call but deletions of pods, services, volume claims and config maps
  -- that pass their orphan tests, deletes no volume claim while the storage persists on delete, and
  -- leaves the cluster object as it is.
  pub gc_orphaned_maps-DeletesOrphan :
      (keep : List Text) (s : Sys W)
      → (Grown
          (DeletesOrphan s.cluster.spec.storage.persist_on_delete s.cluster.meta.name keep)
          s.log
          (gc_orphaned_maps k keep s).1.log)
        × ((gc_orphaned_maps k keep s).1.cluster ≡ s.cluster)
  unfolding gc_orphaned_maps ◌>>=◌
  gc_orphaned_maps-DeletesOrphan keep s =
      let quiet = gc_for-Quiet s.cluster keep in (quiet.grown s, quiet.cluster s)
