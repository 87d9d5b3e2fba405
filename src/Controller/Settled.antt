-- ===== src/Controller/Settled.antt =====
-- Which passes may leave a cluster to the slow requeue: what the flows do to the phases of the maps and
-- to the busy flag.
pub mod Ends
pub mod Flows
pub mod Rolls
pub mod Views
pub mod Maps
pub mod Loop
pub mod Pass
use mathlib.Core.Path.{subst}
use ark_asa_operator.Prelude.{
  ◌≡◌, refl, sym, ap, ◌∙◌, ◌⊎◌, inl, inr, Bool, true, false, if◌then◌else◌, List, [], ◌∷◌, map,
  modify, get_elem?, Option, none, some, Text, ℕ, zero, suc, arith,
}
use ark_asa_operator.Api.{ArkCluster, MapStatus, MapPhase}
use ark_asa_operator.Kube.{
  Result, ok, err, Error, Action, Sys, Exec, attempt, continue, modify_cluster, set_busy, ◌>>=◌,
}
use ark_asa_operator.Kube.Quiet.{Quiet}
use ark_asa_operator.Controller.Base.{update_map}

-- The IDs and the phases of the entries.
abbrev pub view_of : List MapStatus → List (Text × MapPhase)
view_of maps = map (λ m. (m.id, m.phase)) maps

abbrev pub view : ArkCluster → List (Text × MapPhase)
view c = view_of c.status.maps

abbrev pub with_phase : (MapPhase → MapPhase) → Text × MapPhase → Text × MapPhase
with_phase g e = (e.0, g e.1)

-- At most the phase of the entry at `p` has changed.
abbrev pub Changes : ℕ → List (Text × MapPhase) → List (Text × MapPhase) → Type 0
Changes p old now = (g : MapPhase → MapPhase) × (now ≡ modify old p (with_phase g))

pub Changes-refl : (p : ℕ) (l : List (Text × MapPhase)) → Changes p l l
Changes-refl p l = (λ x. x, same p l)
  where
    same : (p : ℕ) (l : List (Text × MapPhase)) → l ≡ modify l p (with_phase (λ x. x))
    same p [] = refl
    same zero (e ∷ l) = refl
    same (suc p) (e ∷ l) = ap (λ (t : List (Text × MapPhase)). e ∷ t) (same p l)

modify_twice :
    (p : ℕ) (l : List (Text × MapPhase)) (f g : MapPhase → MapPhase)
    → modify (modify l p (with_phase f)) p (with_phase g) ≡ modify l p (with_phase (λ x. g (f x)))
modify_twice p [] f g = refl
modify_twice zero (e ∷ l) f g = refl
modify_twice (suc p) (e ∷ l) f g = ap (λ (t : List (Text × MapPhase)). e ∷ t) (modify_twice p l f g)

pub Changes-trans :
    (p : ℕ) (a : List (Text × MapPhase)) {b c : List (Text × MapPhase)}
    → Changes p a b
    → Changes p b c
    → Changes p a c
Changes-trans p a (f, e) (g, e') = (
  λ x. g (f x),
  e' ∙ ap (λ (l : List (Text × MapPhase)). modify l p (with_phase g)) e ∙ modify_twice p a f g,
)

-- Assignments through the pointer.
view-modify :
    (f : MapStatus → MapStatus) (g : MapPhase → MapPhase) (maps : List MapStatus) (q : ℕ)
    → ((m : MapStatus) → (f m).id ≡ m.id)
    → ((m : MapStatus) → (f m).phase ≡ g m.phase)
    → view_of (modify maps q f) ≡ modify (view_of maps) q (with_phase g)
view-modify f g [] q same phase = refl
view-modify f g (m ∷ maps) zero same phase = rw (same m, phase m) refl
view-modify f g (m ∷ maps) (suc q) same phase =
    ap (λ (l : List (Text × MapPhase)). (m.id, m.phase) ∷ l) (view-modify f g maps q same phase)

-- A run for the map at `p`: it changes no other entry's phase and not the spec, and leaves the busy flag
-- once it is set.
pub record Local {W A : Type 0} (p : ℕ) (m : Exec W A) : Type 0 where
  pub changes : (s : Sys W) → Changes p (view s.cluster) (view (m s).1.cluster)
  pub busy : (s : Sys W) → s.busy ≡ true → (m s).1.busy ≡ true
  pub spec : (s : Sys W) → (m s).1.cluster.spec ≡ s.cluster.spec

module _ {W A : Type 0} (p : ℕ) where
  pub Local-Quiet : {P : Action → Type 0} {m : Exec W A} → Quiet P m → Local p m
  Local-Quiet q = record {
    changes = λ s.
        subst (λ (c : ArkCluster). Changes p (view s.cluster) (view c)) (sym (q.cluster s))
          (Changes-refl p (view s.cluster));
    busy = λ s e. q.busy s ∙ e;
    spec = λ s. ap (λ (c : ArkCluster). c.spec) (q.cluster s);
  }

  pub Local-attempt : (m : Exec W A) → Local p m → Local p (attempt m)
  unfolding attempt
  Local-attempt m q = record { changes = q.changes; busy = q.busy; spec = q.spec }

  pub Local-if : (b : Bool) (m n : Exec W A) → Local p m → Local p n → Local p (if b then m else n)
  Local-if true m n qm qn = qm
  Local-if false m n qm qn = qn

module _ {W : Type 0} (p : ℕ) where
  pub Local-set_busy : Local {W = W} p set_busy
  unfolding set_busy
  Local-set_busy = record {
    changes = λ s. Changes-refl p (view s.cluster);
    busy = λ s e. refl;
    spec = λ s. refl;
  }

  -- A change of the cluster that touches no entry's ID or phase.
  pub Local-same :
      (f : ArkCluster → ArkCluster)
      → ((c : ArkCluster) → view (f c) ≡ view c)
      → ((c : ArkCluster) → (f c).spec ≡ c.spec)
      → Local {W = W} p (modify_cluster f)
  unfolding modify_cluster
  Local-same f h same = record {
    changes = λ s.
        subst (Changes p (view s.cluster)) (sym (h s.cluster)) (Changes-refl p (view s.cluster));
    busy = λ s e. e;
    spec = λ s. same s.cluster;
  }

  pub Local-update :
      (f : MapStatus → MapStatus) (g : MapPhase → MapPhase)
      → ((m : MapStatus) → (f m).id ≡ m.id)
      → ((m : MapStatus) → (f m).phase ≡ g m.phase)
      → Local {W = W} p (update_map p f)
  unfolding modify_cluster
  Local-update f g same phase = record {
    changes = λ s. (g, view-modify f g s.cluster.status.maps p same phase);
    busy = λ s e. e;
    spec = λ s. refl;
  }

module _ {W A B : Type 0} (p : ℕ) where
  Local-continue :
      (r : Result A) (f : A → Exec W B) → ((a : A) → Local p (f a)) → Local p (continue r f)
  Local-continue (ok a) f q = q a
  Local-continue (err e) f q = record {
    changes = λ s. Changes-refl p (view s.cluster);
    busy = λ s e. e;
    spec = λ s. refl;
  }

  pub Local-bind :
      (m : Exec W A) (f : A → Exec W B) → Local p m → ((a : A) → Local p (f a)) → Local p (m >>= f)
  unfolding ◌>>=◌
  Local-bind m f qm qf = record {
    changes = λ s. Changes-trans p _ (qm.changes s) ((Local-continue (m s).0 f qf).changes (m s).1);
    busy = λ s e. (Local-continue (m s).0 f qf).busy (m s).1 (qm.busy s e);
    spec = λ s. (Local-continue (m s).0 f qf).spec (m s).1 ∙ qm.spec s;
  }

pub ruleset local_rules = (Local-attempt, Local-if, Local-set_busy, Local-bind)
