-- ===== src/Controller/Settled/Pass.antt =====
-- A whole pass that asks for the slow requeue.
use mathlib.Core.Path.{subst}
use ark_asa_operator.Prelude.{
  ◌≡◌, refl, sym, ap, ◌∙◌, ◌⊎◌, inl, inr, ◌==◌, ==_iff, ==_refl, List_eq, ℕ_eq, Bool-cases, true,
  false, if◌then◌else◌, List, [], ◌∷◌, Option, some, Text, arith,
}
use ark_asa_operator.Api.{ArkCluster, ArkClusterSpec, MapSpec, MapPhase}
use ark_asa_operator.Kube.{
  Result, ok, err, Sys, Client, Exec, ◌>>=◌, continue, pure, gets, modify_cluster, cluster_now,
}
use ark_asa_operator.Kube.Quiet.{Quiet}
use ark_asa_operator.Ark.Slug.{map_slug}
use ark_asa_operator.Controller.Gc.{kept, gc_orphaned_maps}
use ark_asa_operator.Controller.Gc.Safety.{gc_for-Quiet}
use ark_asa_operator.Controller.Reconcile.{
  Requeue, requeue_after, requeue_busy, requeue_steady, keep_slugs, summarize, mid_flight_map,
  reconcile_maps, write_final_status, reconcile_live,
}
use ark_asa_operator.Controller.Guarded.Maps.{write_final_status-Quiet}
use ark_asa_operator.Controller.Guarded.Resources.{ensure_cluster_pvc-Quiet, ensure_secret-Quiet}
use ark_asa_operator.Controller.Settled.{view}
use ark_asa_operator.Controller.Settled.Views.{has_id, phase_of, Settled, keep_if-phase_of}
use ark_asa_operator.Controller.Settled.Loop.{reconcile_maps-RunForAll}

abbrev slow : Result Requeue
slow = ok (requeue_after requeue_steady)

-- The slug of a map of the list is kept.
has_id-kept :
    (maps : List MapSpec) (j : Text)
    → has_id maps j ≡ true
    → kept (keep_slugs maps) (map_slug j) ≡ true
unfolding keep_slugs
has_id-kept [] j h = ground (arith, h)
has_id-kept (m ∷ maps) j h = elim (Bool-cases (m.id == j)) [
  | inl e ↦ rw ((==_iff m.id j).0 e, ==_refl (map_slug j)) refl
  | inr e ↦ ground (arith, has_id-kept maps j (ground (arith, h, e)))
]

summarize-phase_of :
    (c : ArkCluster) (j : Text)
    → has_id c.spec.maps j ≡ true
    → phase_of j (view (summarize c)) ≡ phase_of j (view c)
unfolding summarize
summarize-phase_of c j h = keep_if-phase_of j _ c.status.maps λ m e.
    subst (λ (id : Text). kept (keep_slugs c.spec.maps) (map_slug id) ≡ true) (sym e)
      (has_id-kept c.spec.maps j h)

module _ {W : Type 0} (k : Client W) where
  -- The end of a pass, after the last status write.
  abbrev last_answer : Exec W Requeue
  last_answer = gets (λ s. s.busy) >>= λ busy.
      pure (requeue_after (if busy then requeue_busy else requeue_steady))

  last_answer-slow :
      (r : Result (Unit {0})) (t : Sys W)
      → (continue r (λ _. last_answer) t).0 ≡ slow
      → (t.busy ≡ false) × ((continue r (λ _. last_answer) t).1.cluster ≡ t.cluster)
  unfolding gets pure ◌>>=◌
  last_answer-slow (ok u) t e = (ground (arith, e), refl)
  last_answer-slow (err x) t e = ground (arith, e)

  abbrev last_write : Exec W Requeue
  last_write = write_final_status k >>= λ _. last_answer

  last_write-slow :
      (t : Sys W)
      → (last_write t).0 ≡ slow
      → (t.busy ≡ false) × ((last_write t).1.cluster ≡ t.cluster)
  unfolding ◌>>=◌
  last_write-slow t e =
      let quiet = write_final_status-Quiet k [] in
      let (b, c) = last_answer-slow (write_final_status k t).0 (write_final_status k t).1 e in
      (sym (quiet.busy t) ∙ b, c ∙ quiet.cluster t)

  gc_same :
      (keep : List Text) (t : Sys W)
      → ((gc_orphaned_maps k keep t).1.busy ≡ t.busy)
        × ((gc_orphaned_maps k keep t).1.cluster ≡ t.cluster)
  unfolding gc_orphaned_maps ◌>>=◌
  gc_same keep t = let quiet = gc_for-Quiet k t.cluster keep in (quiet.busy t, quiet.cluster t)

  -- The map keeps its phase.
  abbrev Keeps : ArkCluster → ArkCluster → Type 0
  Keeps c d = (j : Text) → has_id c.spec.maps j ≡ true → phase_of j (view d) ≡ phase_of j (view c)

  abbrev summary : Exec W Requeue
  summary = modify_cluster summarize >>= λ _. last_write

  summary-slow :
      (r : Result (Unit {0})) (t : Sys W)
      → (continue r (λ _. summary) t).0 ≡ slow
      → (t.busy ≡ false) × Keeps t.cluster (continue r (λ _. summary) t).1.cluster
  unfolding modify_cluster ◌>>=◌
  summary-slow (ok u) t e =
      let (b, c) = last_write-slow (record t { cluster = summarize t.cluster }) e in
      (b, λ j h. ap (λ (d : ArkCluster). phase_of j (view d)) c ∙ summarize-phase_of t.cluster j h)
  summary-slow (err x) t e = ground (arith, e)

  abbrev after_loop : List Text → Exec W Requeue
  after_loop keep = gc_orphaned_maps k keep >>= λ _. summary

  after_loop-slow :
      (keep : List Text) (t : Sys W)
      → (after_loop keep t).0 ≡ slow
      → (t.busy ≡ false) × Keeps t.cluster (after_loop keep t).1.cluster
  unfolding ◌>>=◌
  after_loop-slow keep t e =
      let (b, c) = gc_same keep t in
      let (b', keeps) =
        summary-slow (gc_orphaned_maps k keep t).0 (gc_orphaned_maps k keep t).1 e in
      (sym b ∙ b', subst (λ (d : ArkCluster). Keeps d (after_loop keep t).1.cluster) c keeps)

  -- All maps of the spec are settled at the end of a run that asks for the slow requeue.
  abbrev SlowFor : List MapSpec → Sys W → Exec W Requeue → Type 0
  SlowFor maps s m =
      (m s).0 ≡ slow → (j : Text) → has_id maps j ≡ true → Settled j (view (m s).1.cluster)

  Settled-through :
      (maps : List MapSpec) (keep : List Text) (t : Sys W)
      → t.cluster.spec.maps ≡ maps
      → ((t.busy ≡ true) ⊎ ((j : Text) → has_id maps j ≡ true → Settled j (view t.cluster)))
      → SlowFor maps t (after_loop keep)
  Settled-through maps keep t same (inl b) e j h =
      let (free, keeps) = after_loop-slow keep t e in ground (arith, b, free)
  Settled-through maps keep t same (inr all) e j h =
      let (free, keeps) = after_loop-slow keep t e in
      subst (λ (o : Option MapPhase). (o ≡ some MapPhase.running) ⊎ (o ≡ some MapPhase.failed))
        (sym (keeps j (subst (λ (l : List MapSpec). has_id l j ≡ true) (sym same) h))) (all j h)

  loop_continue :
      (maps : List MapSpec) (keep : List Text) (r : Result (Unit {0})) (t : Sys W)
      → t.cluster.spec.maps ≡ maps
      → ((x : Unit {0})
          → r ≡ ok x
          → (t.busy ≡ true) ⊎ ((j : Text) → has_id maps j ≡ true → Settled j (view t.cluster)))
      → SlowFor maps t (continue r (λ _. after_loop keep))
  loop_continue maps keep (ok u) t same o e j h = Settled-through maps keep t same (o u refl) e j h
  loop_continue maps keep (err x) t same o e j h = ground (arith, e)

  -- A run that settles the maps of the cluster that it starts with.
  abbrev SlowOwn : Exec W Requeue → Type 0
  SlowOwn m = (s : Sys W) → SlowFor s.cluster.spec.maps s m

  own_loop : SlowOwn (
      cluster_now >>= λ c. reconcile_maps k (mid_flight_map c) 0 c.spec.maps >>= λ _.
      after_loop (keep_slugs c.spec.maps))
  unfolding ◌>>=◌
  own_loop s =
      let maps = s.cluster.spec.maps in
      let run = reconcile_maps-RunForAll k (mid_flight_map s.cluster) 0 maps in
      let (r, t) = reconcile_maps k (mid_flight_map s.cluster) 0 maps s in
      loop_continue maps (keep_slugs maps) r t
        (ap (λ (spec : ArkClusterSpec). spec.maps) (run.spec s)) (run.settles s)

  own_continue :
      {A : Type 0} (r : Result A) (m : Exec W Requeue) (c : ArkCluster) (s : Sys W)
      → s.cluster ≡ c
      → SlowOwn m
      → SlowFor c.spec.maps s (continue r (λ _. m))
  own_continue (ok a) m c s e q = subst (λ (x : ArkCluster). SlowFor x.spec.maps s m) e (q s)
  own_continue (err x) m c s e q = λ h j i. ground (arith, h)

  own_then :
      {A : Type 0} (m : Exec W A) (n : Exec W Requeue)
      → Quiet (λ a. Unit) m
      → SlowOwn n
      → SlowOwn (m >>= λ _. n)
  unfolding ◌>>=◌
  own_then m n q h s = own_continue (m s).0 n s.cluster (m s).1 (q.cluster s) h

  -- A pass over a live cluster that asks for the slow requeue, after five minutes, leaves for every map
  -- of the spec a status entry whose phase, of the first one with the map's ID, is Running or Failed.
  pub reconcile_live-Settled :
      (s : Sys W) (j : Text)
      → (reconcile_live k s).0 ≡ ok (requeue_after requeue_steady)
      → has_id s.cluster.spec.maps j ≡ true
      → Settled j (view (reconcile_live k s).1.cluster)
  unfolding reconcile_live
  reconcile_live-Settled s j e h =
      own_then _ _ (ensure_secret-Quiet k) (own_then _ _ (ensure_cluster_pvc-Quiet k) own_loop) s e
        j h
