-- ===== src/Controller/Settled/Ends.antt =====
-- The ends of the flows: the busy flag is set, or the map's entry is in a phase that needs no haste.
use mathlib.Core.Path.{subst}
use ark_asa_operator.Prelude.{
  ◌≡◌, refl, sym, ◌⊎◌, inl, inr, Bool, true, false, if◌then◌else◌, List, [], ◌∷◌, modify, Text, ℕ,
  zero, suc, arith,
}
use ark_asa_operator.Api.{MapStatus, MapPhase, Condition}
use ark_asa_operator.Kube.{Result, ok, err, Sys, Client, Exec, continue, set_busy, ◌>>=◌, ◌>>◌}
use ark_asa_operator.Kube.Quiet.{quiet_rules}
use ark_asa_operator.Controller.Base.{update_map, set_condition_of}
use ark_asa_operator.Reconcile.Status.{set_map_condition}
use ark_asa_operator.Controller.Settled.{view_of, view, Local, Local-same, Local-Quiet, Local-bind}

-- A phase that changes by itself no more.
abbrev pub IsSettled : MapPhase → Type 0
IsSettled phase = (phase ≡ MapPhase.running) ⊎ (phase ≡ MapPhase.failed)

-- The entry at a position, if there is one, is in such a phase.
abbrev pub SettledAt : ℕ → List (Text × MapPhase) → Type 0
SettledAt p [] = Unit
SettledAt zero (e ∷ l) = IsSettled e.1
SettledAt (suc p) (e ∷ l) = SettledAt p l

abbrev pub Rests : {W : Type 0} → ℕ → Sys W → Type 0
Rests p s = (s.busy ≡ true) ⊎ SettledAt p (view s.cluster)

-- However the run ends, and if it ends without an error.
pub record Done {W A : Type 0} (p : ℕ) (m : Exec W A) : Type 0 where
  pub rests : (s : Sys W) → Rests p (m s).1

pub record Ends {W A : Type 0} (p : ℕ) (m : Exec W A) : Type 0 where
  pub rests : (s : Sys W) (x : A) → (m s).0 ≡ ok x → Rests p (m s).1

module _ {W A : Type 0} (p : ℕ) where
  pub Ends-Done : {m : Exec W A} → Done p m → Ends p m
  Ends-Done q = record { rests = λ s x e. q.rests s }

  pub Ends-if : (b : Bool) (m n : Exec W A) → Ends p m → Ends p n → Ends p (if b then m else n)
  Ends-if true m n qm qn = qm
  Ends-if false m n qm qn = qn

  -- The busy flag is set first.
  pub Done-set_busy : (m : Exec W A) → Local p m → Done p (set_busy >> m)
  unfolding set_busy ◌>>=◌
  Done-set_busy m q = record { rests = λ s. inl (q.busy (record s { busy = true }) refl) }

module _ {W A B : Type 0} (p : ℕ) where
  Ends-continue :
      (r : Result A) (f : A → Exec W B) → ((a : A) → Ends p (f a)) → Ends p (continue r f)
  Ends-continue (ok a) f q = q a
  Ends-continue (err x) f q = record { rests = λ s y e. ground (arith, e) }

  -- Whatever comes before.
  pub Ends-bind : (m : Exec W A) (f : A → Exec W B) → ((a : A) → Ends p (f a)) → Ends p (m >>= f)
  unfolding ◌>>=◌
  Ends-bind m f q = record { rests = λ s x e. (Ends-continue (m s).0 f q).rests (m s).1 x e }

pub Ends-busy : {W : Type 0} (p : ℕ) → Ends {W = W} p set_busy
unfolding set_busy
Ends-busy p = record { rests = λ s x e. inl refl }

view_of-set_map_condition :
    (now : ℕ) (id : Text) (c : Condition) (maps : List MapStatus)
    → view_of (set_map_condition now id c maps) ≡ view_of maps
unfolding set_map_condition
view_of-set_map_condition now id c [] = refl
view_of-set_map_condition now id c (m ∷ maps) =
    ground (arith, view_of-set_map_condition now id c maps)

modify-SettledAt :
    (p : ℕ) (f : MapStatus → MapStatus) (maps : List MapStatus)
    → ((m : MapStatus) → IsSettled (f m).phase)
    → SettledAt p (view_of (modify maps p f))
modify-SettledAt p f [] h = tt
modify-SettledAt zero f (m ∷ maps) h = h m
modify-SettledAt (suc p) f (m ∷ maps) h = modify-SettledAt p f maps h

module _ {W : Type 0} (k : Client W) (p : ℕ) where
  condition_view :
      (id : Text) (c : Condition) (s : Sys W)
      → view (set_condition_of k id c s).1.cluster ≡ view s.cluster
  unfolding set_condition_of ◌>>=◌
  condition_view id c s = view_of-set_map_condition (k.now s.world).0 id c s.cluster.status.maps

  pub set_condition_of-Local : (id : Text) (c : Condition) → Local p (set_condition_of k id c)
  unfolding set_condition_of
  set_condition_of-Local id c =
      Local-bind p _ _ (Local-Quiet p {P = λ a. Unit} (search quiet_rules))
        λ now. Local-same p _ (λ x. view_of-set_map_condition now id c x.status.maps) λ x. refl

  -- The phase is set, and then a condition.
  pub Done-phase :
      (f : MapStatus → MapStatus) (id : Text) (c : Condition)
      → ((m : MapStatus) → IsSettled (f m).phase)
      → Done p (update_map p f >> set_condition_of k id c)
  unfolding ◌>>=◌
  Done-phase f id c h = record {
    rests = λ s. inr (
        subst (SettledAt p) (sym (condition_view id c (update_map p f s).1))
          (modify-SettledAt p f s.cluster.status.maps h));
  }
