-- ===== src/Controller/Guarded.antt =====
-- Which deletions of pods a pass may make, and the flows of a map.
pub mod Flows
pub mod Rolls
pub mod Resources
pub mod Maps
pub mod Pass
use ark_asa_operator.Prelude.{
  ◌≡◌, sym, Bool, true, false, if◌then◌else◌, List, [], ◌∷◌, ◌++◌, All, Text, arith, ◌⊎◌, inl,
}
use mathlib.Core.Path.{subst}
use ark_asa_operator.Kube.{Result, ok, err, Action, Sys, Exec, attempt, continue, ◌>>=◌}
use ark_asa_operator.Kube.Logs.{Logs}
use ark_asa_operator.Controller.Base.Persist.{GoesOn}
use ark_asa_operator.Controller.Base.Quiet.{SparesPods}
use ark_asa_operator.Controller.Gc.{is_orphan_label}

-- The last call is a status write, which the code goes on after.
abbrev pub FollowsWrite : List Action → Type 0
FollowsWrite (Action.write_status c r ∷ l) = GoesOn r
FollowsWrite _ = ⊥

module _ (keep : List Text) where
  -- A call after the calls `l`: a pod is deleted only if its map is orphaned, or directly after a status
  -- write.
  abbrev pub Allowed : Action → List Action → Type 0
  Allowed (Action.delete_pod pod grace) l =
      (is_orphan_label keep pod.labels ≡ true) ⊎ FollowsWrite l
  Allowed _ l = Unit

  abbrev pub Guarded : List Action → Type 0
  Guarded [] = Unit
  Guarded (a ∷ l) = Allowed a l × Guarded l

  -- The calls that are allowed after any others.
  abbrev pub AnyTime : Action → Type 0
  AnyTime (Action.delete_pod pod grace) = is_orphan_label keep pod.labels ≡ true
  AnyTime _ = Unit

  Allowed-AnyTime : (a : Action) (l : List Action) → AnyTime a → Allowed a l
  Allowed-AnyTime (Action.delete_pod pod grace) l h = inl h
  Allowed-AnyTime a l h = tt

  pub spares-AnyTime : (a : Action) → SparesPods a → AnyTime a
  spares-AnyTime a h = ground arith

  Guarded-append : (new old : List Action) → All AnyTime new → Guarded old → Guarded (new ++ old)
  Guarded-append [] old h g = g
  Guarded-append (a ∷ new) old (ha, h) g =
      (Allowed-AnyTime a (new ++ old) ha, Guarded-append new old h g)

  -- A run that keeps a guarded log guarded.
  pub record Keeps {W A : Type 0} (m : Exec W A) : Type 0 where
    pub guarded : (s : Sys W) → Guarded s.log → Guarded (m s).1.log

  module _ {W A : Type 0} where
    pub Keeps-Logs : {m : Exec W A} → Logs AnyTime m → Keeps m
    Keeps-Logs q = record {
      guarded = λ s g.
          let (new, e, h) = q.grown s in subst Guarded (sym e) (Guarded-append new s.log h g);
    }

    pub Keeps-attempt : (m : Exec W A) → Keeps m → Keeps (attempt m)
    unfolding attempt
    Keeps-attempt m q = record { guarded = q.guarded }

    pub Keeps-if : (b : Bool) (m n : Exec W A) → Keeps m → Keeps n → Keeps (if b then m else n)
    Keeps-if true m n qm qn = qm
    Keeps-if false m n qm qn = qn

  module _ {W A B : Type 0} where
    Keeps-continue :
        (r : Result A) (f : A → Exec W B) → ((a : A) → Keeps (f a)) → Keeps (continue r f)
    Keeps-continue (ok a) f q = q a
    Keeps-continue (err e) f q = record { guarded = λ s g. g }

    pub Keeps-bind :
        (m : Exec W A) (f : A → Exec W B) → Keeps m → ((a : A) → Keeps (f a)) → Keeps (m >>= f)
    unfolding ◌>>=◌
    Keeps-bind m f qm qf = record {
      guarded = λ s g. let (r, s') = m s in (Keeps-continue r f qf).guarded s' (qm.guarded s g);
    }

pub ruleset keeps_rules = (Keeps-attempt, Keeps-if, Keeps-bind)
