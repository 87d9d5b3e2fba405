-- ===== src/Controller/Roll/Passes.antt =====
-- Two passes of `rollUpdate`: the first announces the drain, a later one swaps.
use ark_asa_operator.Prelude.{
  ◌≡◌, refl, sym, ap, ◌∙◌, ◌≤◌, ◌+◌, inl, inr, ℕ, Option, none, some, true, [], get_elem?, Text,
}
use mathlib.Core.Path.{subst}
use mathlib.Core.Option
use ark_asa_operator.Api.{ArkCluster, MapSpec, MapStatus}
use ark_asa_operator.Kube.{Result, ok, Pod, Sys, Client, ◌>>=◌, continue}
use ark_asa_operator.Kube.Quiet.{Quiet}
use ark_asa_operator.Reconcile.Status.{fresh_status}
use ark_asa_operator.Reconcile.Names.{volume_side, other_side}
use ark_asa_operator.Reconcile.Job.{JobStatus, init_job_status}
use ark_asa_operator.Controller.Base.{status_at, write_at}
use ark_asa_operator.Controller.Base.Persist.{GoesOn}
use ark_asa_operator.Controller.Base.Quiet.{SparesPods, init_job_status-Quiet}
use ark_asa_operator.Controller.Roll.{
  grace_of, swapped, start_drain, drain_and_swap, roll_update_on, roll_update,
}
use ark_asa_operator.Controller.Roll.Drain.{draining, start_drain_cases}
use ark_asa_operator.Controller.Roll.Replace.{CreatesLast}
use ark_asa_operator.Controller.Roll.Completes.{get_elem?-modify, roll_update_completes}

module _ {W : Type 0} (k : Client W) where
  -- When the drain that starts on `s` is over.
  abbrev pub drain_end : Sys W → ℕ
  drain_end s = (k.now s.world).0 + grace_of s.cluster.spec.update_strategy.graceful_shutdown

  -- The run before the drain: the state of the install job is looked up.
  abbrev pub looked_up : MapSpec → Text → Sys W → Result JobStatus × Sys W
  looked_up m inactive s = init_job_status k m.id (volume_side inactive) (record s { busy = true })

  abbrev pub Accepts : Sys W → ℕ → Type 0
  Accepts s p =
      GoesOn (k.update_status (write_at p (draining (drain_end s)) s.cluster) (k.now s.world).1).0

  drain_begins :
      (p : ℕ) (s : Sys W)
      → Accepts s p
      → (start_drain k p s).1.cluster ≡ write_at p (draining (drain_end s)) s.cluster
  drain_begins p s accepts =
      elim (start_drain_cases k p s)
        as (λ _. (start_drain k p s).1.cluster ≡ write_at p (draining (drain_end s)) s.cluster) [
          | inl (_, _, e) ↦ e
          | inr (_, _, refused, _, _) ↦ absurd (refused accepts)
        ]

  -- The end of the first pass, on the state after the lookup.
  after_lookup :
      (m : MapSpec) (i p : ℕ) (inactive : Text) (pod : Pod) (c : ArkCluster) (r : Result JobStatus)
      (s : Sys W)
      → r ≡ ok JobStatus.succeeded
      → s.cluster ≡ c
      → (status_at p c).drain_deadline ≡ none
      → Accepts s p
      → (continue r (λ j. roll_update_on k j m i p inactive pod) s).1.cluster
        ≡ write_at p (draining (drain_end s)) s.cluster
  unfolding roll_update_on drain_and_swap ◌>>=◌
  after_lookup m i p inactive pod c r s found same none_yet accepts = rw (found) (
      subst
        (λ (o : Option ℕ).
          (drain_and_swap k m i p inactive pod o s).1.cluster
          ≡ write_at p (draining (drain_end s)) s.cluster)
        (sym (ap (λ (x : ArkCluster). (status_at p x).drain_deadline) same ∙ none_yet))
        (drain_begins p s accepts))

  first_pass :
      (m : MapSpec) (i p : ℕ) (pod : Pod) (s : Sys W)
      → let inactive = other_side (status_at p s.cluster).active_volume in
        let t = (looked_up m inactive s).1 in
        (looked_up m inactive s).0 ≡ ok JobStatus.succeeded
        → (status_at p s.cluster).drain_deadline ≡ none
        → Accepts t p
        → (roll_update k m i p pod s).1.cluster ≡ write_at p (draining (drain_end t)) s.cluster
  unfolding roll_update ◌>>=◌
  first_pass m i p pod s found none_yet accepts =
      let inactive = other_side (status_at p s.cluster).active_volume in
      let (r, t) = looked_up m inactive s in
      let quiet : Quiet SparesPods (init_job_status k m.id (volume_side inactive)) =
        init_job_status-Quiet k m.id (volume_side inactive) in
      let same : t.cluster ≡ s.cluster = quiet.cluster (record s { busy = true }) in
      after_lookup m i p inactive pod s.cluster r t found same none_yet accepts
      ∙ ap (λ (c : ArkCluster). write_at p (draining (drain_end t)) c) same

-- The client is `k` in the first pass, and `later` in a later one: the API server, the clock and the
-- network as they are then.
module _ {W : Type 0} (k later : Client W) where
  -- Where a map has an entry with no drain deadline, the install jobs of the inactive volume are found
  -- complete in both passes, and the status writes succeed or meet a conflict: the first pass of
  -- `rollUpdate` leaves the map draining, and a later one from the cluster that the first one left, at
  -- whose clock readings the grace period after the first one's is over, ends with the creation of the
  -- map's pod on the other volume, and leaves the map's entry on that volume, with no drain deadline and
  -- in the phase Swapping.
  pub drain_then_swap :
      (m : MapSpec) (i p : ℕ) (pod later_pod : Pod) (st : MapStatus) (s s' : Sys W)
      → let inactive = other_side st.active_volume in
        let t = (looked_up k m inactive s).1 in
        get_elem? s.cluster.status.maps p ≡ some st
        → st.drain_deadline ≡ none
        → (looked_up k m inactive s).0 ≡ ok JobStatus.succeeded
        → Accepts k t p
        → s'.cluster ≡ (roll_update k m i p pod s).1.cluster
        → (looked_up later m inactive s').0 ≡ ok JobStatus.succeeded
        → ((w : W) → drain_end k t ≤ (later.now w).0)
        → ((w : W) → GoesOn (later.update_status (write_at p (swapped inactive) s'.cluster) w).0)
        → let u = (roll_update later m i p later_pod s').1 in
          (s'.cluster ≡ write_at p (draining (drain_end k t)) s.cluster)
          × CreatesLast (write_at p (swapped inactive) s'.cluster) m i inactive u.log
          × (get_elem? u.cluster.status.maps p ≡ some (swapped inactive st))
  drain_then_swap m i p pod later_pod st s s' entry none_yet found accepts left found' due
        accepts' =
      let inactive = other_side st.active_volume in
      let t = (looked_up k m inactive s).1 in
      let first : s'.cluster ≡ write_at p (draining (drain_end k t)) s.cluster =
        left
        ∙ subst
            (λ (x : MapStatus).
              let run = looked_up k m (other_side x.active_volume) s in
              run.0 ≡ ok JobStatus.succeeded
              → x.drain_deadline ≡ none
              → Accepts k run.1 p
              → (roll_update k m i p pod s).1.cluster
                ≡ write_at p (draining (drain_end k run.1)) s.cluster)
            (ap (λ (o : Option MapStatus). Option.get_or o (fresh_status [])) entry)
            (first_pass k m i p pod s) found none_yet accepts in
      let drained : get_elem? s'.cluster.status.maps p ≡ some (draining (drain_end k t) st) =
        ap (λ (c : ArkCluster). get_elem? c.status.maps p) first
        ∙ get_elem?-modify s.cluster.status.maps p (draining (drain_end k t)) st entry in
      let over =
        roll_update_completes later m i p later_pod (draining (drain_end k t) st) (drain_end k t) s'
          drained refl found' due accepts' in
      (first, over.0, over.1)
