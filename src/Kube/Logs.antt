-- ===== src/Kube/Logs.antt =====
-- Runs that make calls of some kinds only, and may change the cluster object.
use ark_asa_operator.Prelude.{Bool, true, false, if◌then◌else◌, List, []}
use ark_asa_operator.Api.{ArkCluster}
use ark_asa_operator.Kube.Objects.{Result, ok, err, Action}
use ark_asa_operator.Prelude.{All, List, ◌∷◌}
use ark_asa_operator.Kube.Monad.{Sys, Exec, attempt, modify_cluster, set_busy, continue, ◌>>=◌}
use ark_asa_operator.Kube.Quiet.{Grown, Grown-refl, Grown-trans, Quiet}

pub All-weaken :
    {P Q : Action → Type 0} (f : (a : Action) → P a → Q a) (l : List Action) → All P l → All Q l
All-weaken f [] h = tt
All-weaken f (a ∷ l) h = (f a h.0, All-weaken f l h.1)

pub Grown-weaken :
    {P Q : Action → Type 0} (f : (a : Action) → P a → Q a) {old now : List Action}
    → Grown P old now
    → Grown Q old now
Grown-weaken f (new, p, h) = (new, p, All-weaken f new h)

pub Quiet-weaken :
    {W A : Type 0} {P Q : Action → Type 0} (f : (a : Action) → P a → Q a) {m : Exec W A}
    → Quiet P m
    → Quiet Q m
Quiet-weaken f q = record {
  cluster = q.cluster;
  busy = q.busy;
  grown = λ s. Grown-weaken f (q.grown s);
}

pub record Logs {W A : Type 0} (P : Action → Type 0) (m : Exec W A) : Type 0 where
  pub grown : (s : Sys W) → Grown P s.log (m s).1.log

module _ {W A : Type 0} {P : Action → Type 0} where
  pub Logs-Quiet : {m : Exec W A} → Quiet P m → Logs P m
  Logs-Quiet q = record { grown = q.grown }

  pub Logs-attempt : (m : Exec W A) → Logs P m → Logs P (attempt m)
  unfolding attempt
  Logs-attempt m q = record { grown = q.grown }

  pub Logs-if : (b : Bool) (m n : Exec W A) → Logs P m → Logs P n → Logs P (if b then m else n)
  Logs-if true m n qm qn = qm
  Logs-if false m n qm qn = qn

module _ {W : Type 0} {P : Action → Type 0} where
  pub Logs-modify_cluster : (f : ArkCluster → ArkCluster) → Logs {W = W} P (modify_cluster f)
  unfolding modify_cluster
  Logs-modify_cluster f = record { grown = λ s. Grown-refl s.log }

  pub Logs-set_busy : Logs {W = W} P set_busy
  unfolding set_busy
  Logs-set_busy = record { grown = λ s. Grown-refl s.log }

module _ {W A B : Type 0} {P : Action → Type 0} where
  pub Logs-continue :
      (r : Result A) (f : A → Exec W B) → ((a : A) → Logs P (f a)) → Logs P (continue r f)
  Logs-continue (ok a) f q = q a
  Logs-continue (err e) f q = record { grown = λ s. Grown-refl s.log }

  pub Logs-bind :
      (m : Exec W A) (f : A → Exec W B) → Logs P m → ((a : A) → Logs P (f a)) → Logs P (m >>= f)
  unfolding ◌>>=◌
  Logs-bind m f qm qf = record {
    grown = λ s. let (r, s') = m s in Grown-trans (qm.grown s) ((Logs-continue r f qf).grown s');
  }

pub ruleset log_rules =
    (Logs-Quiet, Logs-attempt, Logs-if, Logs-modify_cluster, Logs-set_busy, Logs-bind)
