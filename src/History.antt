-- ===== src/History.antt =====
-- The two reconcilers and their users on one cluster object, in any order: internal/controller.
use ark_asa_operator.Prelude.{
  ◌≡◌, ℕ, zero, suc, List, [], ◌∷◌, Text, All, get_elem?, none, some, arith, Bool, Option, modify,
  keep_if, ◌≢◌,
}
use ark_asa_operator.Prelude.Int.{pos}
use ark_asa_operator.Api.{
  MapStatus, MapPhase, Condition, ArkCluster, ArkClusterSpec, ArkClusterStatus, ClusterPhase,
  ObjectMeta,
}
use ark_asa_operator.Kube.{ok, Action, Client}
use ark_asa_operator.CurseForge.{ModApi}
use ark_asa_operator.ModUpdate.Pass.{reconcile_named}
use ark_asa_operator.ModUpdate.Pass.WellFormed.{reconcile_mods-IsWellFormed}
use ark_asa_operator.Controller.Reconcile.{reconcile}
use ark_asa_operator.Controller.WellFormed.{IsGoodStatus, AreEntries, IsVolume, keep_if-Distinct}
use ark_asa_operator.Controller.Base.{write_at}
use ark_asa_operator.Controller.WellFormed.Pass.{KeepsState, reconcile-IsWellFormed}

-- The status of an object that has just been created.
abbrev pub empty_status : ArkClusterStatus
empty_status = record {
  phase = ClusterPhase.unset;
  conditions = [];
  maps = [];
  mods = none;
  total_maps = pos 0;
  ready_maps = pos 0;
  observed_generation = 0;
}

All-get_elem? :
    (P : Action → Type 0) (l : List Action) (i : ℕ) (a : Action)
    → All P l
    → get_elem? l i ≡ some a
    → P a
All-get_elem? P [] i a h e = ground (arith, e)
All-get_elem? P (x ∷ l) zero a (h, hs) e = ground (arith, e, h)
All-get_elem? P (x ∷ l) (suc i) a (h, hs) e = All-get_elem? P l i a hs e

-- The conditions of a map that are left of a kind of conditions, its volumes, phase and drain deadline, as
-- an administrator sets them: the changes of the status by hand that internal/statemachine speaks of.
pub record Repair : Type 0 where
  pub phase : MapPhase
  pub drain_deadline : Option ℕ
  pub active_volume : Text
  pub last_good_volume : Text
  pub stays : Condition → Bool

abbrev pub repair_entry : Repair → MapStatus → MapStatus
repair_entry r m = record m {
  phase = r.phase;
  drain_deadline = r.drain_deadline;
  active_volume = r.active_volume;
  last_good_volume = r.last_good_volume;
  conditions = keep_if r.stays m.conditions;
}

modify-Misses :
    (r : Repair) (j : Text) (maps : List MapStatus) (p : ℕ)
    → All (λ (m : MapStatus). m.id ≢ j) maps
    → All (λ (m : MapStatus). m.id ≢ j) (modify maps p (repair_entry r))
modify-Misses r j [] p h = h
modify-Misses r j (m ∷ maps) zero (h, hs) = (h, hs)
modify-Misses r j (m ∷ maps) (suc p) (h, hs) = (h, modify-Misses r j maps p hs)

repair_entry-AreEntries :
    (r : Repair) (maps : List MapStatus) (p : ℕ)
    → IsVolume r.active_volume
    → IsVolume r.last_good_volume
    → AreEntries maps
    → AreEntries (modify maps p (repair_entry r))
repair_entry-AreEntries r [] p a g h = h
repair_entry-AreEntries r (m ∷ maps) zero a g (((va, vg, d), hs), n) =
    (((a, g, keep_if-Distinct (λ (c : Condition). c.type) r.stays m.conditions d), hs), n)
repair_entry-AreEntries r (m ∷ maps) (suc p) a g ((h, hs), (n, ns)) =
    let (rest, distinct) = repair_entry-AreEntries r maps p a g (hs, ns) in
    ((h, rest), (modify-Misses r m.id maps p n, distinct))

module _ {W : Type 0} (k : Client W) (api : ModApi W) (base namespace name : Text) where
  -- What the API server may store of the object `namespace/name`: what a user creates, and, from a
  -- version that is stored, what anybody edits of all but the status, what an administrator repairs in a
  -- map's status entry, and what a status write of either reconciler sends that succeeds, whatever the
  -- world in which the pass reads that version. Other edits of the status by hand are left out.
  pub data Stored : ArkCluster → Type 0 where
    created :
        (meta : ObjectMeta) (spec : ArkClusterSpec)
        → Stored (record { meta = meta; spec = spec; status = empty_status })
    edited :
        {c : ArkCluster}
        → Stored c
        → (meta : ObjectMeta) (spec : ArkClusterSpec)
        → Stored (record c { meta = meta; spec = spec })
    repaired :
        {c : ArkCluster}
        → Stored c
        → (p : ℕ) (r : Repair) → IsVolume r.active_volume
        → IsVolume r.last_good_volume
        → Stored (write_at p (repair_entry r) c)
    reconciled :
        {c d : ArkCluster}
        → Stored c
        → (w : W) (i : ℕ) → (k.get_cluster namespace name w).0 ≡ ok c
        → get_elem? (reconcile k namespace name w).2 i ≡ some (Action.write_status d (ok tt))
        → Stored d
    mods_checked :
        {c d : ArkCluster}
        → Stored c
        → (w : W) (i : ℕ) → (k.get_cluster namespace name w).0 ≡ ok c
        → get_elem? (reconcile_named k api base namespace name w).2 i
          ≡ some (Action.write_status d (ok tt))
        → Stored d

  -- Where the functions on finalizers keep the desired and the observed state: the stored status is well
  -- formed, in any order of these steps from the creation of the object on, and from any stored version:
  -- edits of all but the status; repairs by hand of a status entry, of its phase, its drain deadline, its
  -- volumes, to a server volume or none, and the removal of conditions; passes of the cluster reconciler;
  -- and checks of the mods.
  pub Stored-IsGoodStatus : {c : ArkCluster} → KeepsState k → Stored c → IsGoodStatus c.status
  Stored-IsGoodStatus keeps (created meta spec) = ((tt, tt), tt)
  Stored-IsGoodStatus keeps (edited h meta spec) = Stored-IsGoodStatus keeps h
  Stored-IsGoodStatus keeps (repaired {c = c} h p r a g) =
      let (entries, conditions) = Stored-IsGoodStatus keeps h in
      (repair_entry-AreEntries r c.status.maps p a g entries, conditions)
  Stored-IsGoodStatus keeps (reconciled h w i e g) =
      (All-get_elem? _ _ i _
        (reconcile-IsWellFormed k namespace name w _ keeps e (Stored-IsGoodStatus keeps h)) g).1
  Stored-IsGoodStatus keeps (mods_checked h w i e g) =
      (All-get_elem? _ _ i _
        (reconcile_mods-IsWellFormed k api base namespace name w _ e (Stored-IsGoodStatus keeps h))
        g).1
