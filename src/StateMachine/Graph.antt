-- ===== src/StateMachine/Graph.antt =====
-- The phase graph of internal/statemachine/transitions.go: what the table permits along whole runs.
use ark_asa_operator.Prelude.{
  ◌≡◌, refl, sym, ◌⊎◌, inl, inr, Bool, true, false, List, [], ◌∷◌, none, some, arith,
}
use mathlib.Core.List.{Memᴰ}
use ark_asa_operator.Api.{MapPhase, MapStatus}
use ark_asa_operator.StateMachine.{allowed_transition, transition, TransitionError}

-- `transition` either moves the phase to the one asked for and touches no other field, exactly when
-- the table allows it, or it returns an error and leaves the status as it was.
pub transition_cases :
    (s : MapStatus) (to : MapPhase)
    → ((allowed_transition s.phase to ≡ true) × (transition s to ≡ (record s { phase = to }, none)))
      ⊎ ((allowed_transition s.phase to ≡ false)
          × (transition s to ≡ (s, some (TransitionError.disallowed s.phase to))))
unfolding transition
transition_cases s to = ground arith

-- The transitions of one map, in order; a rejected one leaves the status as it was.
unfoldable pub run : MapStatus → List MapPhase → MapStatus
run s [] = s
run s (to ∷ rest) = run (transition s to).0 rest

failed_stuck : (s : MapStatus) (to : MapPhase) → s.phase ≡ MapPhase.failed → (transition s to).0 ≡ s
unfolding transition
failed_stuck s to h = ground arith

-- A failed map stays as it is, whatever transitions are asked for.
pub run-failed :
    (s : MapStatus) (steps : List MapPhase) → s.phase ≡ MapPhase.failed → run s steps ≡ s
unfolding run
run-failed s [] h = refl
run-failed s (to ∷ rest) h = rw (failed_stuck s to h) (run-failed s rest h)

-- What is left before a map can reach a phase: the table has no way round `through`.
abbrev Guards : MapPhase → (MapPhase → Bool) → Type 0
Guards through behind =
    (a b : MapPhase)
    → behind a ≡ true
    → allowed_transition a b ≡ true
    → (b ≡ through) ⊎ (behind b ≡ true)

run-visits :
    (through : MapPhase) (behind : MapPhase → Bool)
    → Guards through behind
    → (s : MapStatus) (steps : List MapPhase) → behind s.phase ≡ true
    → behind (run s steps).phase ≡ false
    → Memᴰ through steps
unfolding run
run-visits through behind g s [] h e = cc
run-visits through behind g s (to ∷ rest) h e = elim (transition_cases s to) [
  | inl (ok, moved) ↦ elim (g s.phase to h ok) [
    | inl here ↦ Memᴰ.head (sym here)
    | inr still ↦
        Memᴰ.tail
          (run-visits through behind g (record s { phase = to }) rest still (rw (moved, run) at e))
  ]
  | inr (bad, kept) ↦ Memᴰ.tail (run-visits through behind g s rest h (rw (kept, run) at e))
]

abbrev pub before_install : MapPhase → Bool
before_install MapPhase.unset = true
before_install MapPhase.pending = true
before_install MapPhase.provisioning = true
before_install MapPhase.failed = true
before_install _ = false

install_guard : Guards MapPhase.installing_active before_install
unfolding allowed_transition
install_guard a b h ok = ground arith

abbrev pub before_drain : MapPhase → Bool
before_drain MapPhase.swapping = false
before_drain MapPhase.draining_active = false
before_drain _ = true

drain_guard : Guards MapPhase.draining_active before_drain
unfolding allowed_transition
drain_guard a b h ok = ground arith

-- A fresh map that transitions bring to Running has been asked to go to InstallingActive.
pub running_needs_install :
    (s : MapStatus) (steps : List MapPhase)
    → s.phase ≡ MapPhase.unset
    → (run s steps).phase ≡ MapPhase.running
    → Memᴰ MapPhase.installing_active steps
running_needs_install s steps fresh up =
    run-visits MapPhase.installing_active before_install install_guard s steps (rw fresh) (rw up)

-- A running map that transitions bring to Swapping has been asked to go to DrainingActive.
pub swapping_needs_drain :
    (s : MapStatus) (steps : List MapPhase)
    → s.phase ≡ MapPhase.running
    → (run s steps).phase ≡ MapPhase.swapping
    → Memᴰ MapPhase.draining_active steps
swapping_needs_drain s steps up swap =
    run-visits MapPhase.draining_active before_drain drain_guard s steps (rw up) (rw swap)
