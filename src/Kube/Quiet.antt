-- ===== src/Kube/Quiet.antt =====
-- Runs that leave the cluster object alone and make calls of some kinds only.
use ark_asa_operator.Prelude.{
  ◌≡◌, refl, sym, ap, ◌∙◌, Bool, true, false, if◌then◌else◌, List, [], ◌∷◌, ◌++◌, All, All-append,
}
use mathlib.Core.List.{append_assoc}
use ark_asa_operator.Kube.Objects.{Error, Result, ok, err, Action}
use ark_asa_operator.Kube.Monad.{
  Sys, Exec, pure, raise, lift, gets, attempt, call, call_ok, tell, recorded, continue, ◌>>=◌,
  created_or_exists, ignore_exists, ignore_conflict,
}

-- The log has grown by calls of the kind `P`.
abbrev pub Grown : (Action → Type 0) → List Action → List Action → Type 0
Grown P old now = (new : List Action) × (now ≡ new ++ old) × All P new

pub Grown-refl : {P : Action → Type 0} (l : List Action) → Grown P l l
Grown-refl l = ([], refl, tt)

pub Grown-trans :
    {P : Action → Type 0} {a b c : List Action} → Grown P a b → Grown P b c → Grown P a c
Grown-trans {P} (xs, p, hx) (ys, q, hy) = (
  ys ++ xs,
  q ∙ (ap (λ (l : List Action). ys ++ l) p ∙ sym (append_assoc ys xs _)),
  All-append P ys xs hy hx,
)

pub record Quiet {W A : Type 0} (P : Action → Type 0) (m : Exec W A) : Type 0 where
  pub cluster : (s : Sys W) → (m s).1.cluster ≡ s.cluster
  pub busy : (s : Sys W) → (m s).1.busy ≡ s.busy
  pub grown : (s : Sys W) → Grown P s.log (m s).1.log

module _ {W A : Type 0} {P : Action → Type 0} where
  pub Quiet-pure : (a : A) → Quiet P (pure {W = W} a)
  unfolding pure
  Quiet-pure a = record { cluster = λ s. refl; busy = λ s. refl; grown = λ s. Grown-refl s.log }

  pub Quiet-raise : (e : Error) → Quiet P (raise {W = W} {A = A} e)
  unfolding raise
  Quiet-raise e = record { cluster = λ s. refl; busy = λ s. refl; grown = λ s. Grown-refl s.log }

  pub Quiet-lift : (r : Result A) → Quiet P (lift {W = W} r)
  unfolding lift
  Quiet-lift r = record { cluster = λ s. refl; busy = λ s. refl; grown = λ s. Grown-refl s.log }

  pub Quiet-gets : (f : Sys W → A) → Quiet P (gets f)
  unfolding gets
  Quiet-gets f = record { cluster = λ s. refl; busy = λ s. refl; grown = λ s. Grown-refl s.log }

  pub Quiet-call : (f : W → Result A × W) → Quiet P (call f)
  unfolding call
  Quiet-call f = record { cluster = λ s. refl; busy = λ s. refl; grown = λ s. Grown-refl s.log }

  pub Quiet-call_ok : (f : W → A × W) → Quiet P (call_ok f)
  unfolding call_ok
  Quiet-call_ok f = record { cluster = λ s. refl; busy = λ s. refl; grown = λ s. Grown-refl s.log }

  pub Quiet-attempt : (m : Exec W A) → Quiet P m → Quiet P (attempt m)
  unfolding attempt
  Quiet-attempt m q = record { cluster = q.cluster; busy = q.busy; grown = q.grown }

  pub Quiet-if : (b : Bool) (m n : Exec W A) → Quiet P m → Quiet P n → Quiet P (if b then m else n)
  Quiet-if true m n qm qn = qm
  Quiet-if false m n qm qn = qn

module _ {W : Type 0} {P : Action → Type 0} where
  pub Quiet-tell : (a : Action) → P a → Quiet {W = W} P (tell a)
  unfolding tell
  Quiet-tell a h = record {
    cluster = λ s. refl;
    busy = λ s. refl;
    grown = λ s. (a ∷ [], refl, (h, tt));
  }

  pub Quiet-recorded :
      (act : Result (Unit {0}) → Action) (f : W → Result (Unit {0}) × W)
      → ((r : Result (Unit {0})) → P (act r))
      → Quiet P (recorded act f)
  unfolding recorded
  Quiet-recorded act f h = record {
    cluster = λ s. refl;
    busy = λ s. refl;
    grown = λ s. (act (f s.world).0 ∷ [], refl, (h (f s.world).0, tt));
  }

  pub Quiet-created_or_exists : (r : Result (Unit {0})) → Quiet {W = W} P (created_or_exists r)
  unfolding created_or_exists
  Quiet-created_or_exists (ok a) = Quiet-pure true
  Quiet-created_or_exists (err Error.already_exists) = Quiet-pure false
  Quiet-created_or_exists (err e) = Quiet-raise _

  pub Quiet-ignore_exists : (r : Result (Unit {0})) → Quiet {W = W} P (ignore_exists r)
  unfolding ignore_exists
  Quiet-ignore_exists (ok a) = Quiet-pure tt
  Quiet-ignore_exists (err Error.already_exists) = Quiet-pure tt
  Quiet-ignore_exists (err e) = Quiet-raise _

  pub Quiet-ignore_conflict : (r : Result (Unit {0})) → Quiet {W = W} P (ignore_conflict r)
  unfolding ignore_conflict
  Quiet-ignore_conflict (ok a) = Quiet-pure tt
  Quiet-ignore_conflict (err Error.conflict) = Quiet-pure tt
  Quiet-ignore_conflict (err e) = Quiet-raise _

module _ {W A B : Type 0} {P : Action → Type 0} where
  Quiet-continue :
      (r : Result A) (f : A → Exec W B) → ((a : A) → Quiet P (f a)) → Quiet P (continue r f)
  Quiet-continue (ok a) f q = q a
  Quiet-continue (err e) f q = record {
    cluster = λ s. refl;
    busy = λ s. refl;
    grown = λ s. Grown-refl s.log;
  }

  pub Quiet-bind :
      (m : Exec W A) (f : A → Exec W B) → Quiet P m → ((a : A) → Quiet P (f a)) → Quiet P (m >>= f)
  unfolding ◌>>=◌
  Quiet-bind m f qm qf = record {
    cluster = λ s. let (r, s') = m s in (Quiet-continue r f qf).cluster s' ∙ qm.cluster s;
    busy = λ s. let (r, s') = m s in (Quiet-continue r f qf).busy s' ∙ qm.busy s;
    grown = λ s. let (r, s') = m s in Grown-trans (qm.grown s) ((Quiet-continue r f qf).grown s');
  }

pub ruleset quiet_rules = (
  Quiet-pure, Quiet-raise, Quiet-lift, Quiet-gets, Quiet-call, Quiet-call_ok, Quiet-attempt,
  Quiet-if, Quiet-tell, Quiet-recorded, Quiet-created_or_exists, Quiet-ignore_exists,
  Quiet-ignore_conflict, Quiet-bind,
)
