-- ===== src/Controller/Roll/Completes.antt =====
-- A roll whose drain is over is carried out by the next pass.
use ark_asa_operator.Prelude.{
  ◌≡◌, sym, ap, ◌∙◌, ◌≤◌, ℕ, zero, suc, Bool, true, false, if◌then◌else◌, List, [], ◌∷◌, get_elem?,
  modify, Option, none, some, Text, ltb, arith,
}
use mathlib.Core.Path.{subst}
use ark_asa_operator.Api.{ArkCluster, MapSpec, MapPhase, MapStatus}
use ark_asa_operator.Kube.{Result, ok, Pod, Sys, Client, ◌>>=◌, continue}
use ark_asa_operator.Kube.Quiet.{Quiet}
use mathlib.Core.Option
use ark_asa_operator.Reconcile.Status.{fresh_status}
use ark_asa_operator.Reconcile.Names.{volume_side, other_side}
use ark_asa_operator.Reconcile.Job.{JobStatus, init_job_status}
use ark_asa_operator.Controller.Base.{update_map, status_at, write_at}
use ark_asa_operator.Controller.Base.Persist.{GoesOn}
use ark_asa_operator.Controller.Base.Quiet.{SparesPods, init_job_status-Quiet}
use ark_asa_operator.Controller.Roll.{
  swapped, finish_swap, drain_and_swap, roll_update_on, roll_update,
}
use ark_asa_operator.Controller.Roll.Replace.{CreatesLast, Replaced, finish_swap_end}

pub get_elem?-modify :
    (maps : List MapStatus) (p : ℕ) (f : MapStatus → MapStatus) (m : MapStatus)
    → get_elem? maps p ≡ some m
    → get_elem? (modify maps p f) p ≡ some (f m)
get_elem?-modify [] p f m h = ground (arith, h)
get_elem?-modify (x ∷ maps) zero f m h = ground (arith, h)
get_elem?-modify (x ∷ maps) (suc p) f m h = get_elem?-modify maps p f m h

module _ {W : Type 0} (k : Client W) where
  -- The map is on the volume `inactive`, and its pod is created there, on the cluster that was written.
  abbrev SwappedOver : MapSpec → ℕ → ℕ → Text → ArkCluster → Sys W → Type 0
  SwappedOver m i p inactive c t =
      let c' = write_at p (swapped inactive) c in Replaced c' m i (status_at p c').active_volume t

  abbrev Accepts : ℕ → Text → ArkCluster → Type 0
  Accepts p inactive c = (w : W) → GoesOn (k.update_status (write_at p (swapped inactive) c) w).0

  due_end :
      (m : MapSpec) (i p : ℕ) (inactive : Text) (pod : Pod) (d : ℕ) (o : Option ℕ) (s : Sys W)
      → o ≡ some d
      → d ≤ (k.now s.world).0
      → Accepts p inactive s.cluster
      → SwappedOver m i p inactive s.cluster (drain_and_swap k m i p inactive pod o s).1
  unfolding drain_and_swap ◌>>=◌
  due_end m i p inactive pod d none s e due accepts = ground (arith, e)
  due_end m i p inactive pod d (some d') s e due accepts =
      let late : ltb (k.now s.world).0 d' ≡ false = ground (arith, e, due) in
      let s1 : Sys W = record s { world = (k.now s.world).1 } in
      subst
        (λ (b : Bool).
          SwappedOver m i p inactive s.cluster
            ((if b
                then update_map p (λ x. record x { phase = MapPhase.draining_active })
                else finish_swap k m i p inactive pod)
              s1).1)
        (sym late) (finish_swap_end k m i p inactive pod s1 accepts)

  after_job :
      (m : MapSpec) (i p : ℕ) (inactive : Text) (pod : Pod) (d : ℕ) (c : ArkCluster)
      (r : Result JobStatus) (s : Sys W)
      → r ≡ ok JobStatus.succeeded
      → s.cluster ≡ c
      → (status_at p c).drain_deadline ≡ some d
      → ((w : W) → d ≤ (k.now w).0)
      → Accepts p inactive c
      → SwappedOver m i p inactive c (continue r (λ j. roll_update_on k j m i p inactive pod) s).1
  unfolding roll_update_on ◌>>=◌
  after_job m i p inactive pod d c r s found same due clock accepts =
      subst
        (λ (x : Result JobStatus).
          SwappedOver m i p inactive c
            (continue x (λ j. roll_update_on k j m i p inactive pod) s).1)
        (sym found)
        (subst
          (λ (x : ArkCluster).
            (status_at p x).drain_deadline ≡ some d
            → Accepts p inactive x
            → SwappedOver m i p inactive x
                (drain_and_swap k m i p inactive pod (status_at p s.cluster).drain_deadline s).1)
          same (λ e a. due_end m i p inactive pod d _ s e (clock s.world) a) due accepts)

  swapped_over :
      (m : MapSpec) (i p : ℕ) (pod : Pod) (d : ℕ) (s : Sys W)
      → let inactive = other_side (status_at p s.cluster).active_volume in
        (status_at p s.cluster).drain_deadline ≡ some d
        → (init_job_status k m.id (volume_side inactive) (record s { busy = true })).0
          ≡ ok JobStatus.succeeded
        → ((w : W) → d ≤ (k.now w).0)
        → Accepts p inactive s.cluster
        → SwappedOver m i p inactive s.cluster (roll_update k m i p pod s).1
  unfolding roll_update ◌>>=◌
  swapped_over m i p pod d s due installed clock accepts =
      let inactive = other_side (status_at p s.cluster).active_volume in
      let job = init_job_status k m.id (volume_side inactive) in
      let s1 : Sys W = record s { busy = true } in
      let quiet : Quiet SparesPods job = init_job_status-Quiet k m.id (volume_side inactive) in
      after_job m i p inactive pod d s.cluster (job s1).0 (job s1).1 installed (quiet.cluster s1)
        due clock accepts

  -- The entry behind the pointer, after the swap.
  completed :
      (m : MapSpec) (i p : ℕ) (inactive : Text) (st : MapStatus) (c : ArkCluster) (t : Sys W)
      → get_elem? c.status.maps p ≡ some st
      → SwappedOver m i p inactive c t
      → CreatesLast (write_at p (swapped inactive) c) m i inactive t.log
        × (get_elem? t.cluster.status.maps p ≡ some (swapped inactive st))
  completed m i p inactive st c t entry (creates, maps) =
      let written = get_elem?-modify c.status.maps p (swapped inactive) st entry in
      (
        subst
            (λ (x : MapStatus).
              CreatesLast (write_at p (swapped inactive) c) m i x.active_volume t.log)
            (ap (λ (o : Option MapStatus). Option.get_or o (fresh_status [])) written) creates,
        ap (λ (l : List MapStatus). get_elem? l p) maps ∙ written,
      )

  -- Where the inactive volume is installed, the map has an entry whose drain deadline has passed at
  -- every reading of the clock, and every status write of the swap succeeds or meets a conflict: a
  -- pass of `rollUpdate` ends with the creation of the map's pod on the other volume, and leaves
  -- the map's entry on that volume, with no drain deadline and in the phase Swapping.
  pub roll_update_completes :
      (m : MapSpec) (i p : ℕ) (pod : Pod) (st : MapStatus) (d : ℕ) (s : Sys W)
      → get_elem? s.cluster.status.maps p ≡ some st
      → st.drain_deadline ≡ some d
      → (init_job_status k m.id
          (volume_side (other_side st.active_volume))
          (record s { busy = true })).0
        ≡ ok JobStatus.succeeded
      → ((w : W) → d ≤ (k.now w).0)
      → ((w : W)
          → GoesOn
              (k.update_status (write_at p (swapped (other_side st.active_volume)) s.cluster) w).0)
      → let inactive = other_side st.active_volume in
        let t = (roll_update k m i p pod s).1 in
        CreatesLast (write_at p (swapped inactive) s.cluster) m i inactive t.log
        × (get_elem? t.cluster.status.maps p ≡ some (swapped inactive st))
  roll_update_completes m i p pod st d s entry due installed clock accepts =
      let e : status_at p s.cluster ≡ st =
        ap (λ (o : Option MapStatus). Option.get_or o (fresh_status [])) entry in
      let side : other_side (status_at p s.cluster).active_volume ≡ other_side st.active_volume =
        ap (λ (x : MapStatus). other_side x.active_volume) e in
      let over =
        swapped_over m i p pod d s (ap (λ (x : MapStatus). x.drain_deadline) e ∙ due)
          (subst
            (λ (v : Text).
              (init_job_status k m.id (volume_side v) (record s { busy = true })).0
              ≡ ok JobStatus.succeeded)
            (sym side) installed)
          clock (subst (λ (v : Text). Accepts p v s.cluster) (sym side) accepts) in
      completed m i p (other_side st.active_volume) st s.cluster (roll_update k m i p pod s).1 entry
        (subst (λ (v : Text). SwappedOver m i p v s.cluster (roll_update k m i p pod s).1) side
          over)
