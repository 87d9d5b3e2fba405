-- ===== src/Controller/Gc/Exact.antt =====
-- internal/controller/arkcluster_controller.go, `gcOrphanedMaps`: the calls of the garbage
-- collection, one by one, against a description of them without the monad.
use ark_asa_operator.Prelude.{
  ◌≡◌, refl, sym, ap, ◌∙◌, Bool, true, false, if◌then◌else◌, List, [], ◌∷◌, ◌++◌, keep_if, Text,
  codes, none,
}
use ark_asa_operator.Api.{ArkCluster}
use ark_asa_operator.Kube.{
  onto, Result, ok, err, Action, Sys, Client, Exec, ◌>>=◌, ◌>>◌, done, pure, tell, attempt, call,
  call_ok,
}
use ark_asa_operator.Controller.Gc.{
  is_orphan_label, is_orphan_pvc, is_orphan_config_map, delete_where, gc_for, sweep,
  gc_orphaned_maps,
}

onto-append : (xs ys log : List Action) → onto (xs ++ ys) log ≡ onto ys (onto xs log)
onto-append [] ys log = refl
onto-append (a ∷ xs) ys log = onto-append xs ys (a ∷ log)

-- What a part of the collection does in a world: its calls, and the world after it.
pub record Doing (W : Type 0) : Type 0 where
  pub calls : W → List Action
  pub after : W → W

module _ {W : Type 0} where
  abbrev nothing : Doing W
  nothing = record { calls = λ w. []; after = λ w. w }

  abbrev then_do : Doing W → Doing W → Doing W
  then_do d e = record {
    calls = λ w. d.calls w ++ e.calls (d.after w);
    after = λ w. e.after (d.after w);
  }

  module _ {A : Type 0} (act : A → Action) (delete : A → W → W) where
    abbrev delete_all : List A → Doing W
    delete_all [] = nothing
    delete_all (x ∷ xs) =
        then_do (record { calls = λ w. act x ∷ []; after = delete x }) (delete_all xs)

    -- A listing, and the deletion of what it shows and the test picks; nothing if it failed.
    abbrev delete_shown : (A → Bool) → Result (List A) → Doing W
    delete_shown test (err e) = nothing
    delete_shown test (ok xs) = delete_all (keep_if test xs)

    abbrev delete_listed : (W → Result (List A) × W) → (A → Bool) → Doing W
    delete_listed list test = record {
      calls = λ w. (delete_shown test (list w).0).calls (list w).1;
      after = λ w. (delete_shown test (list w).0).after (list w).1;
    }

  -- A run of the code that succeeds and does just this.
  record Does (d : Doing W) (m : Exec W (Unit {0})) (s : Sys W) : Type 0 where
    result : (m s).0 ≡ ok tt
    log : (m s).1.log ≡ onto (d.calls s.world) s.log
    world : (m s).1.world ≡ d.after s.world

  Does-then :
      (d e : Doing W) (m n : Exec W (Unit {0}))
      → ((s : Sys W) → Does d m s)
      → ((s : Sys W) → Does e n s)
      → (s : Sys W) → Does (then_do d e) (m >> n) s
  unfolding ◌>>=◌
  Does-then d e m n a b s =
      let x = a s in
      let y = b (m s).1 in
      record {
        result = rw (x.result) y.result;
        log = rw (x.result) (
            y.log
            ∙ ap (λ (w : W). onto (e.calls w) (m s).1.log) x.world
            ∙ ap (λ (l : List Action). onto (e.calls (d.after s.world)) l) x.log
            ∙ sym (onto-append (d.calls s.world) (e.calls (d.after s.world)) s.log));
        world = rw (x.result) (y.world ∙ ap e.after x.world);
      }

  Does-done : (s : Sys W) → Does nothing done s
  unfolding pure
  Does-done s = record { result = refl; log = refl; world = refl }

module _ {W : Type 0} (k : Client W) where
  module _ {A : Type 0} (act : A → Action) (delete : A → W → W) (test : A → Bool)
      (list : W → Result (List A) × W) where
    abbrev delete_now : A → Exec W (Unit {0})
    delete_now x = tell (act x) >> call_ok (λ w. (tt, delete x w))

    abbrev delete_it : A → Doing W
    delete_it x = record { calls = λ w. act x ∷ []; after = delete x }

    delete_one :
        (b : Bool) (x : A) (xs : List A) (rest : Exec W (Unit {0}))
        → ((s : Sys W) → Does (delete_all act delete xs) rest s)
        → (s : Sys W)
        → Does
            (delete_all act delete (if b then x ∷ xs else xs))
            (if b then delete_now x >> rest else rest)
            s
    unfolding tell call_ok ◌>>=◌
    delete_one true x xs rest h s =
        Does-then (delete_it x) (delete_all act delete xs) (delete_now x) rest
          (λ t. record { result = refl; log = refl; world = refl }) h s
    delete_one false x xs rest h s = h s

    delete_where-Does :
        (xs : List A) (s : Sys W)
        → Does (delete_all act delete (keep_if test xs)) (delete_where k test delete_now xs) s
    unfolding delete_where
    delete_where-Does [] s = Does-done s
    delete_where-Does (x ∷ xs) s =
        delete_one (test x) x (keep_if test xs) _ (delete_where-Does xs) s

    sweep-Does :
        (r : Result (List A)) (s : Sys W)
        → Does (delete_shown act delete test r) (sweep k r test delete_now) s
    unfolding sweep
    sweep-Does (err e) s = Does-done s
    sweep-Does (ok xs) s = delete_where-Does xs s

    listing-Does :
        (s : Sys W)
        → Does
            (delete_listed act delete list test)
            (attempt (call list) >>= λ r. sweep k r test delete_now)
            s
    unfolding attempt call ◌>>=◌
    listing-Does s =
        let h = sweep-Does (list s.world).0 (record s { world = (list s.world).1 }) in
        record { result = h.result; log = h.log; world = h.world }

    listing-Does-then :
        (e : Doing W) (rest : Exec W (Unit {0}))
        → ((s : Sys W) → Does e rest s)
        → (s : Sys W)
        → Does
            (then_do (delete_listed act delete list test) e)
            (attempt (call list) >>= λ r. sweep k r test delete_now >> rest)
            s
    unfolding attempt call ◌>>=◌
    listing-Does-then e rest b s =
        let listing = (list s.world).0 in
        let h =
          Does-then (delete_shown act delete test listing) e (sweep k listing test delete_now) rest
            (sweep-Does listing) b (record s { world = (list s.world).1 }) in
        record { result = h.result; log = h.log; world = h.world }

  -- The collection for the cluster `c`: the deletions in the listings of the pods, the
  -- services, the claims (unless they persist) and the configuration maps, in this order.
  abbrev pub collection : ArkCluster → List Text → Doing W
  collection c keep =
      let labels = (codes "ark.watteel.com/cluster", c.meta.name) ∷ [] in
      let pods =
        delete_listed (λ p. Action.delete_pod p none) (λ p w. k.delete_pod p none w)
          (k.list_pods c.meta.namespace labels) (λ p. is_orphan_label keep p.labels) in
      let services =
        delete_listed Action.delete_service k.delete_service
          (k.list_services c.meta.namespace labels) (λ s. is_orphan_label keep s.labels) in
      let claims =
        delete_listed Action.delete_pvc k.delete_pvc (k.list_pvcs c.meta.namespace labels)
          (λ p. is_orphan_pvc c.meta.name keep p.name) in
      let config_maps =
        delete_listed Action.delete_config_map k.delete_config_map
          (k.list_config_maps c.meta.namespace labels)
          (λ m. is_orphan_config_map c.meta.name keep m.name) in
      then_do pods (
        then_do services
          (then_do (if c.spec.storage.persist_on_delete then nothing else claims) config_maps))

  unless_persistent :
      (d : Doing W) (m : Exec W (Unit {0}))
      → ((s : Sys W) → Does d m s)
      → (b : Bool) (s : Sys W) → Does (if b then nothing else d) (if b then done else m) s
  unless_persistent d m h true s = Does-done s
  unless_persistent d m h false s = h s

  gc_for-Does :
      (c : ArkCluster) (keep : List Text) (s : Sys W) → Does (collection c keep) (gc_for k c keep) s
  unfolding gc_for
  gc_for-Does c keep s =
      listing-Does-then _ _ _ _ _ _
        (listing-Does-then _ _ _ _ _ _ (
          Does-then _ _ _ _
            (unless_persistent _ _ (listing-Does _ _ _ _) c.spec.storage.persist_on_delete)
            (listing-Does _ _ _ _)))
        s

  -- The collection over the cluster of the run returns no error, makes exactly the calls that
  -- `collection` gives, in their order, and leaves the world that `collection` gives: for every
  -- object of the listings that its orphan test picks it calls a deletion, and makes no other
  -- call. A listing that fails counts as an empty one.
  pub gc_orphaned_maps-collection :
      (keep : List Text) (s : Sys W)
      → ((gc_orphaned_maps k keep s).0 ≡ ok tt)
        × ((gc_orphaned_maps k keep s).1.log
            ≡ onto ((collection s.cluster keep).calls s.world) s.log)
        × ((gc_orphaned_maps k keep s).1.world ≡ (collection s.cluster keep).after s.world)
  unfolding gc_orphaned_maps ◌>>=◌
  gc_orphaned_maps-collection keep s =
      let done = gc_for-Does s.cluster keep s in (done.result, done.log, done.world)
