-- ===== src/Controller/Settled/Loop.antt =====
-- The loop over the maps.
use mathlib.Core.Path.{subst}
use ark_asa_operator.Prelude.{
  ◌≡◌, refl, sym, ◌∙◌, ◌⊎◌, inl, inr, ==_iff, List_eq, ℕ_eq, Bool-cases, true, false, List, [], ◌∷◌,
  Option, some, Text, ℕ, suc, arith,
}
use ark_asa_operator.Api.{MapSpec, MapPhase}
use ark_asa_operator.Kube.{Result, ok, err, Sys, Client, Exec, ◌>>=◌, ◌>>◌, continue, pure, done}
use ark_asa_operator.Controller.Reconcile.{reconcile_maps}
use ark_asa_operator.Controller.Settled.{view}
use ark_asa_operator.Controller.Settled.Views.{has_id, phase_of, Settled}
use ark_asa_operator.Controller.Settled.Maps.{RunFor, reconcile_map-RunFor}

module _ {W : Type 0} (k : Client W) where
  -- A run for all maps of the list.
  pub record RunForAll (maps : List MapSpec) (m : Exec W (Unit {0})) : Type 0 where
    pub busy : (s : Sys W) → s.busy ≡ true → (m s).1.busy ≡ true
    pub spec : (s : Sys W) → (m s).1.cluster.spec ≡ s.cluster.spec
    pub others :
        (s : Sys W) (j : Text)
        → has_id maps j ≡ false
        → phase_of j (view (m s).1.cluster) ≡ phase_of j (view s.cluster)
    pub settles :
        (s : Sys W) (x : Unit {0})
        → (m s).0 ≡ ok x
        → ((m s).1.busy ≡ true)
          ⊎ ((j : Text) → has_id maps j ≡ true → Settled j (view (m s).1.cluster))

  RunForAll-none : RunForAll [] done
  unfolding pure
  RunForAll-none = record {
    busy = λ s e. e;
    spec = λ s. refl;
    others = λ s j n. refl;
    settles = λ s x e. inr λ j h. ground (arith, h);
  }

  module _ (m : MapSpec) (maps : List MapSpec) (b : Exec W (Unit {0}))
      (rest : RunForAll maps b) where
    -- The map stays settled, whether or not it is among the others too.
    stays-Settled :
        (t : Sys W)
        → Settled m.id (view t.cluster)
        → ((j : Text) → has_id maps j ≡ true → Settled j (view (b t).1.cluster))
        → (j : Text) → has_id (m ∷ maps) j ≡ true
        → Settled j (view (b t).1.cluster)
    stays-Settled t first all j h = elim (Bool-cases (has_id maps j)) [
      | inl e ↦ all j e
      | inr e ↦
          let same : m.id ≡ j = ground (arith, h, e, ==_iff m.id j) in
          subst (λ (id : Text). Settled id (view (b t).1.cluster)) same
            (subst
              (λ (o : Option MapPhase). (o ≡ some MapPhase.running) ⊎ (o ≡ some MapPhase.failed))
              (sym
                (rest.others t m.id (subst (λ (id : Text). has_id maps id ≡ false) (sym same) e)))
              first)
    ]

    settles_from :
        (t : Sys W)
        → ((t.busy ≡ true) ⊎ Settled m.id (view t.cluster))
        → (((b t).1.busy ≡ true)
            ⊎ ((j : Text) → has_id maps j ≡ true → Settled j (view (b t).1.cluster)))
        → ((b t).1.busy ≡ true)
          ⊎ ((j : Text) → has_id (m ∷ maps) j ≡ true → Settled j (view (b t).1.cluster))
    settles_from t (inl e) o = inl (rest.busy t e)
    settles_from t (inr first) (inl e) = inl e
    settles_from t (inr first) (inr all) = inr (stays-Settled t first all)

    settles_continue :
        (r : Result (Unit {0})) (t : Sys W)
        → ((y : Unit {0}) → r ≡ ok y → (t.busy ≡ true) ⊎ Settled m.id (view t.cluster))
        → (x : Unit {0}) → (continue r (λ _. b) t).0 ≡ ok x
        → ((continue r (λ _. b) t).1.busy ≡ true)
          ⊎ ((j : Text)
              → has_id (m ∷ maps) j ≡ true
              → Settled j (view (continue r (λ _. b) t).1.cluster))
    settles_continue (ok y) t first x e = settles_from t (first y refl) (rest.settles t x e)
    settles_continue (err z) t first x e = ground (arith, e)

    busy_continue :
        (r : Result (Unit {0})) (t : Sys W) → t.busy ≡ true → (continue r (λ _. b) t).1.busy ≡ true
    busy_continue (ok y) t e = rest.busy t e
    busy_continue (err z) t e = e

    spec_continue :
        (r : Result (Unit {0})) (t : Sys W)
        → (continue r (λ _. b) t).1.cluster.spec ≡ t.cluster.spec
    spec_continue (ok y) t = rest.spec t
    spec_continue (err z) t = refl

    others_continue :
        (r : Result (Unit {0})) (t : Sys W) (j : Text)
        → has_id maps j ≡ false
        → phase_of j (view (continue r (λ _. b) t).1.cluster) ≡ phase_of j (view t.cluster)
    others_continue (ok y) t j n = rest.others t j n
    others_continue (err z) t j n = refl

    RunForAll-cons : (a : Exec W (Unit {0})) → RunFor k m.id a → RunForAll (m ∷ maps) (a >> b)
    unfolding ◌>>=◌
    RunForAll-cons a first = record {
      busy = λ s e. busy_continue (a s).0 (a s).1 (first.busy s e);
      spec = λ s. spec_continue (a s).0 (a s).1 ∙ first.spec s;
      others = λ s j n.
          others_continue (a s).0 (a s).1 j (ground (arith, n))
          ∙ first.others s j (ground (arith, n, ==_iff m.id j));
      settles = λ s x e. settles_continue (a s).0 (a s).1 (first.settles s) x e;
    }

  pub reconcile_maps-RunForAll :
      (mid : Text) (i : ℕ) (maps : List MapSpec) → RunForAll maps (reconcile_maps k mid i maps)
  unfolding reconcile_maps
  reconcile_maps-RunForAll mid i [] = RunForAll-none
  reconcile_maps-RunForAll mid i (m ∷ maps) =
      RunForAll-cons m maps _ (reconcile_maps-RunForAll mid (suc i) maps) _
        (reconcile_map-RunFor k m i mid)
