-- ===== src/Kube/Succeeds.antt =====
-- Runs that return no error, whatever the calls return.
use ark_asa_operator.Prelude.{◌≡◌, refl, sym}
use mathlib.Core.Path.{subst}
use ark_asa_operator.Kube.Objects.{Result, ok}
use ark_asa_operator.Kube.Monad.{Sys, Exec, pure, gets, attempt, call_ok, continue, ◌>>=◌}

pub record Succeeds {W A : Type 0} (m : Exec W A) : Type 0 where
  pub result : (s : Sys W) → (a : A) × ((m s).0 ≡ ok a)

module _ {W A : Type 0} where
  pub Succeeds-pure : (a : A) → Succeeds (pure {W = W} a)
  unfolding pure
  Succeeds-pure a = record { result = λ s. (a, refl) }

  pub Succeeds-gets : (f : Sys W → A) → Succeeds (gets f)
  unfolding gets
  Succeeds-gets f = record { result = λ s. (f s, refl) }

  pub Succeeds-attempt : (m : Exec W A) → Succeeds (attempt m)
  unfolding attempt
  Succeeds-attempt m = record { result = λ s. ((m s).0, refl) }

  pub Succeeds-call_ok : (f : W → A × W) → Succeeds (call_ok f)
  unfolding call_ok
  Succeeds-call_ok f = record { result = λ s. ((f s.world).0, refl) }

module _ {W A B : Type 0} where
  pub Succeeds-bind :
      (m : Exec W A) (f : A → Exec W B)
      → Succeeds m
      → ((a : A) → Succeeds (f a))
      → Succeeds (m >>= f)
  unfolding ◌>>=◌
  Succeeds-bind m f qm qf = record {
    result = λ s.
        let (a, e) = qm.result s in
        subst (λ (r : Result A). (b : B) × ((continue r f (m s).1).0 ≡ ok b)) (sym e)
          ((qf a).result (m s).1);
  }

pub ruleset succeeds_rules =
    (Succeeds-pure, Succeeds-gets, Succeeds-attempt, Succeeds-call_ok, Succeeds-bind)
