-- ===== src/Controller/Settled/Maps.antt =====
-- A pass over one map.
use mathlib.Core.Path.{subst}
use ark_asa_operator.Prelude.{
  ◌≡◌, refl, sym, ap, ◌∙◌, ◌≢◌, ◌⊎◌, inl, inr, ◌==◌, List_eq, ℕ_eq, true, if◌then◌else◌, [], Option,
  none, some, Text, ℕ, arith,
}
use ark_asa_operator.Api.{ArkCluster, MapSpec}
use ark_asa_operator.Kube.{
  Result, ok, err, Service, Pod, Action, Sys, Client, Exec, ◌>>=◌, continue,
}
use ark_asa_operator.Kube.Quiet.{Quiet, quiet_rules}
use ark_asa_operator.Reconcile.Names.{server_a}
use ark_asa_operator.Reconcile.Status.{ensure_map_status, status_index}
use ark_asa_operator.Controller.Base.{update_map}
use ark_asa_operator.Controller.Base.Quiet.{compute_pod_hash-Quiet}
use ark_asa_operator.Controller.MapStep.{
  address_update, open_map_status, refresh_address, dispatch, reconcile_map,
}
use ark_asa_operator.Controller.Guarded.Resources.{ensure_map_resources-Quiet, list_map_pods-Quiet}
use ark_asa_operator.Controller.Settled.{
  Changes, Changes-trans, view_of, view, Local, Local-update, local_rules,
}
use ark_asa_operator.Controller.Settled.Ends.{Ends, Ends-if, Ends-bind, Ends-busy, Rests, SettledAt}
use ark_asa_operator.Controller.Settled.Flows.{
  silent-Local, first_start-Local, first_start-Ends, steady-Local, steady-Ends,
}
use ark_asa_operator.Controller.Settled.Rolls.{roll_update-Local, roll_update-Ends}
use ark_asa_operator.Controller.Settled.Views.{phase_of, Settled, changed-Settled, changed-others}

module _ {W : Type 0} (k : Client W) where
  module _ (p : ℕ) where
    address_update-Local :
        (c : ArkCluster) (i : ℕ) (r : Result Service)
        → Local {W = W} p (update_map p (address_update k c i r))
    address_update-Local c i (err e) = Local-update p _ (λ x. x) (λ m. refl) λ m. refl
    address_update-Local c i (ok svc) =
        Local-update p _ (λ x. x) (λ m. ground arith) λ m. ground arith

    refresh_address-Local : (m : MapSpec) (i : ℕ) → Local p (refresh_address k m i p)
    unfolding refresh_address
    refresh_address-Local m i =
        search (local_rules, address_update-Local, silent-Local k, quiet_rules) depth 12

    dispatch-Local :
        (m : MapSpec) (i : ℕ) (desired mid : Text) (o : Option Pod)
        → Local p (dispatch k m i p desired mid o)
    unfolding dispatch
    dispatch-Local m i desired mid none = first_start-Local k p m i desired
    dispatch-Local m i desired mid (some pod) =
        search (local_rules, steady-Local k, roll_update-Local k)

    dispatch-Ends :
        (m : MapSpec) (i : ℕ) (desired mid : Text) (o : Option Pod)
        → Ends p (dispatch k m i p desired mid o)
    unfolding dispatch
    dispatch-Ends m i desired mid none = first_start-Ends k p m i desired
    dispatch-Ends m i desired mid (some pod) =
        Ends-if p _ _ _ (steady-Ends k p m pod)
          (Ends-if p _ _ _ (Ends-busy p) (roll_update-Ends k p m i pod))

  -- A run for the map `id`: it changes no other map's phase and not the spec, and ends with the map settled, with the busy
  -- flag set, or with an error.
  pub record RunFor {A : Type 0} (id : Text) (m : Exec W A) : Type 0 where
    pub busy : (s : Sys W) → s.busy ≡ true → (m s).1.busy ≡ true
    pub spec : (s : Sys W) → (m s).1.cluster.spec ≡ s.cluster.spec
    pub others :
        (s : Sys W) (j : Text)
        → id ≢ j
        → phase_of j (view (m s).1.cluster) ≡ phase_of j (view s.cluster)
    pub settles :
        (s : Sys W) (x : A)
        → (m s).0 ≡ ok x
        → ((m s).1.busy ≡ true) ⊎ Settled id (view (m s).1.cluster)

  RunFor-continue :
      {A B : Type 0} (id : Text) (r : Result A) (f : A → Exec W B)
      → ((a : A) → RunFor id (f a))
      → RunFor id (continue r f)
  RunFor-continue id (ok a) f q = q a
  RunFor-continue id (err e) f q = record {
    busy = λ s h. h;
    spec = λ s. refl;
    others = λ s j n. refl;
    settles = λ s x h. ground (arith, h);
  }

  -- After a run that leaves the cluster object alone.
  RunFor-Quiet :
      {A B : Type 0} {P : Action → Type 0} (id : Text) (m : Exec W A) (f : A → Exec W B)
      → Quiet P m
      → ((a : A) → RunFor id (f a))
      → RunFor id (m >>= f)
  unfolding ◌>>=◌
  RunFor-Quiet id m f q h = record {
    busy = λ s e. (RunFor-continue id (m s).0 f h).busy (m s).1 (q.busy s ∙ e);
    spec = λ s.
        (RunFor-continue id (m s).0 f h).spec (m s).1
        ∙ ap (λ (c : ArkCluster). c.spec) (q.cluster s);
    others = λ s j n.
        (RunFor-continue id (m s).0 f h).others (m s).1 j n
        ∙ ap (λ (c : ArkCluster). phase_of j (view c)) (q.cluster s);
    settles = λ s x e. (RunFor-continue id (m s).0 f h).settles (m s).1 x e;
  }

  -- After the map's entry is opened, a run for its position.
  RunFor-open :
      {A : Type 0} (id : Text) (rest : ℕ → Exec W A)
      → ((p : ℕ) → Local p (rest p))
      → ((p : ℕ) → Ends p (rest p))
      → RunFor id (open_map_status k id >>= rest)
  unfolding open_map_status ◌>>=◌
  RunFor-open {A} id rest local ends = record {
    busy = λ s e. (local (place s)).busy (after s) e;
    spec = λ s. (local (place s)).spec (after s);
    others = λ s j n.
        let (g, e) = total s in ap (phase_of j) e ∙ changed-others id g j s.cluster.status.maps n;
    settles = λ s x h. by_rest s ((ends (place s)).rests (after s) x h);
  }
    where
      place : Sys W → ℕ
      place s = status_index id (ensure_map_status id s.cluster.status.maps)

      after : Sys W → Sys W
      after s = (open_map_status k id s).1

      total :
          (s : Sys W)
          → Changes
              (place s)
              (view_of (ensure_map_status id s.cluster.status.maps))
              (view (rest (place s) (after s)).1.cluster)
      total s =
          Changes-trans (place s) _
            ((Local-update {W = W} (place s)
                (λ m. record m {
                  active_volume = if m.active_volume == [] then server_a else m.active_volume;
                })
                (λ x. x) (λ m. refl) λ m. refl).changes
              (record s {
                cluster = record s.cluster {
                  status = record s.cluster.status {
                    maps = ensure_map_status id s.cluster.status.maps;
                  };
                };
              }))
            ((local (place s)).changes (after s))

      by_rest :
          (s : Sys W)
          → Rests (place s) (rest (place s) (after s)).1
          → ((rest (place s) (after s)).1.busy ≡ true)
            ⊎ Settled id (view (rest (place s) (after s)).1.cluster)
      by_rest s (inl b) = inl b
      by_rest s (inr at) =
          let (g, e) = total s in
          inr (
            subst (Settled id) (sym e)
              (changed-Settled id g s.cluster.status.maps (subst (SettledAt (place s)) e at)))

  pub reconcile_map-RunFor :
      (m : MapSpec) (i : ℕ) (mid : Text) → RunFor m.id (reconcile_map k m i mid)
  unfolding reconcile_map
  reconcile_map-RunFor m i mid =
      RunFor-Quiet m.id _ _ (ensure_map_resources-Quiet k {P = λ a. Unit} m i) λ _.
        RunFor-open m.id _
          (λ p.
            search
              (
                local_rules,
                refresh_address-Local,
                dispatch-Local,
                silent-Local k,
                quiet_rules,
                compute_pod_hash-Quiet k,
                list_map_pods-Quiet k,
              )
              depth 16)
          λ p. Ends-bind p _ _ λ e. Ends-bind p _ _ λ desired.
            Ends-bind p _ _ λ pods. Ends-bind p _ _ λ _. dispatch-Ends p m i desired mid _
