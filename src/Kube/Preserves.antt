-- ===== src/Kube/Preserves.antt =====
-- Runs that keep an invariant of the cluster object, in memory and in every write of it.
use ark_asa_operator.Prelude.{All, ◌∙◌, refl, sym, Bool, true, false, if◌then◌else◌, [], ◌∷◌}
use ark_asa_operator.Api.{ArkCluster}
use ark_asa_operator.Kube.Objects.{Result, ok, err, Action}
use ark_asa_operator.Kube.Monad.{
  Sys, Exec, gets, attempt, modify_cluster, set_busy, continue, ◌>>=◌, recorded, cluster_now,
}
use ark_asa_operator.Kube.Quiet.{Grown, Grown-refl, Grown-trans, Quiet}
use mathlib.Core.Path.{subst}
use mathlib.Core.List.{append-nil}

module _ (Inv : ArkCluster → Type 0) where
  -- A call that writes the cluster object, or its status, writes one that satisfies the invariant.
  abbrev pub SendsGood : Action → Type 0
  SendsGood (Action.write_status c r) = Inv c
  SendsGood (Action.write_cluster c r) = Inv c
  SendsGood (Action.patch_cluster c r) = Inv c
  SendsGood _ = Unit

  pub record Preserves {W A : Type 0} (m : Exec W A) : Type 0 where
    pub sound :
        (s : Sys W) → Inv s.cluster → Inv (m s).1.cluster × Grown SendsGood s.log (m s).1.log

  module _ {W A : Type 0} where
    pub Preserves-Quiet : {m : Exec W A} → Quiet SendsGood m → Preserves m
    Preserves-Quiet q = record { sound = λ s i. (subst Inv (sym (q.cluster s)) i, q.grown s) }

    pub Preserves-attempt : (m : Exec W A) → Preserves m → Preserves (attempt m)
    unfolding attempt
    Preserves-attempt m q = record { sound = q.sound }

    pub Preserves-if :
        (b : Bool) (m n : Exec W A) → Preserves m → Preserves n → Preserves (if b then m else n)
    Preserves-if true m n qm qn = qm
    Preserves-if false m n qm qn = qn

  module _ {W : Type 0} where
    pub Preserves-modify :
        (f : ArkCluster → ArkCluster)
        → ((c : ArkCluster) → Inv c → Inv (f c))
        → Preserves {W = W} (modify_cluster f)
    unfolding modify_cluster
    Preserves-modify f h = record { sound = λ s i. (h s.cluster i, Grown-refl s.log) }

    pub Preserves-set_busy : Preserves {W = W} set_busy
    unfolding set_busy
    Preserves-set_busy = record { sound = λ s i. (i, Grown-refl s.log) }

  module _ {W A B : Type 0} where
    Preserves-continue :
        (r : Result A) (f : A → Exec W B) → ((a : A) → Preserves (f a)) → Preserves (continue r f)
    Preserves-continue (ok a) f q = q a
    Preserves-continue (err e) f q = record { sound = λ s i. (i, Grown-refl s.log) }

    pub Preserves-bind :
        (m : Exec W A) (f : A → Exec W B)
        → Preserves m
        → ((a : A) → Preserves (f a))
        → Preserves (m >>= f)
    unfolding ◌>>=◌
    Preserves-bind m f qm qf = record {
      sound = λ s i.
          let (i', g) = qm.sound s i in
          let (i'', g') = (Preserves-continue (m s).0 f qf).sound (m s).1 i' in
          (i'', Grown-trans g g');
    }

    -- A value that is read from a state with the invariant, with what the invariant says of it.
    pub Preserves-gets :
        (P : A → Type 0) (g : Sys W → A) (f : A → Exec W B)
        → ((s : Sys W) → Inv s.cluster → P (g s))
        → ((a : A) → P a → Preserves (f a))
        → Preserves (gets g >>= f)
    unfolding gets ◌>>=◌
    Preserves-gets P g f hg hf = record { sound = λ s i. (hf (g s) (hg s i)).sound s i }

  -- A write of the cluster object as it is now, without and with a look at its outcome.
  module _ {W : Type 0} (act : ArkCluster → Result (Unit {0}) → Action)
      (call : ArkCluster → W → Result (Unit {0}) × W)
      (good : (c : ArkCluster) (r : Result (Unit {0})) → Inv c → SendsGood (act c r)) where
    pub Preserves-write : Preserves (cluster_now >>= λ c. recorded (act c) (call c))
    unfolding recorded ◌>>=◌
    Preserves-write = record {
      sound = λ s i.
          let (r, w) = call s.cluster s.world in
          (i, (act s.cluster r ∷ [], refl, (good s.cluster r i, tt)));
    }

    pub Preserves-write_then :
        {B : Type 0} (f : Result (Unit {0}) → Exec W B)
        → ((r : Result (Unit {0})) → Preserves (f r))
        → Preserves (cluster_now >>= λ c. attempt (recorded (act c) (call c)) >>= f)
    unfolding attempt recorded ◌>>=◌
    Preserves-write_then f h = record {
      sound = λ s i.
          let (r, w) = call s.cluster s.world in
          let (i', g) = (h r).sound (record s { world = w; log = act s.cluster r ∷ s.log }) i in
          (i', Grown-trans (act s.cluster r ∷ [], refl, (good s.cluster r i, tt)) g);
    }

  -- All the calls of a run that starts with no calls.
  pub Preserves-run :
      {W A : Type 0} (m : Exec W A)
      → Preserves m
      → (c : ArkCluster) (w : W) → Inv c
      → All SendsGood (m (record { cluster = c; busy = false; world = w; log = [] })).1.log
  Preserves-run m q c w i =
      let (new, e, good) =
        (q.sound (record { cluster = c; busy = false; world = w; log = [] }) i).1 in
      subst (All SendsGood) (sym (e ∙ append-nil new)) good

pub ruleset preserves_rules = (Preserves-attempt, Preserves-if, Preserves-set_busy, Preserves-bind)
