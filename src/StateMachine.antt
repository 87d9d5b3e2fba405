-- ===== src/StateMachine.antt =====
-- internal/statemachine: the table of legal map phases and the transition that consults it.
-- The laws of the table are in `StateMachine/Graph`.
pub mod Graph
use ark_asa_operator.Prelude.{◌==◌, Bool, true, false, if◌then◌else◌, Option, none, some, not}
use ark_asa_operator.Api.{MapPhase, MapPhase_eq, MapStatus}

-- `allowed[from][to]`: a missing row or column is false.
pub allowed : MapPhase → MapPhase → Bool
allowed MapPhase.unset MapPhase.pending = true
allowed MapPhase.pending MapPhase.provisioning = true
allowed MapPhase.pending MapPhase.failed = true
allowed MapPhase.provisioning MapPhase.installing_active = true
allowed MapPhase.provisioning MapPhase.failed = true
allowed MapPhase.installing_active MapPhase.running = true
allowed MapPhase.installing_active MapPhase.failed = true
allowed MapPhase.running MapPhase.installing_inactive = true
allowed MapPhase.running MapPhase.draining_active = true
allowed MapPhase.running MapPhase.failed = true
allowed MapPhase.installing_inactive MapPhase.draining_active = true
allowed MapPhase.installing_inactive MapPhase.running = true
allowed MapPhase.installing_inactive MapPhase.failed = true
allowed MapPhase.draining_active MapPhase.swapping = true
allowed MapPhase.draining_active MapPhase.running = true
allowed MapPhase.draining_active MapPhase.failed = true
allowed MapPhase.swapping MapPhase.running = true
allowed MapPhase.swapping MapPhase.failed = true
allowed _ _ = false

unfoldable pub allowed_transition : MapPhase → MapPhase → Bool
unfolding allowed
allowed_transition from to = if from == to then true else allowed from to

-- The error of `Transition`, with the two phases of its message.
pub data TransitionError : Type 0 where
  disallowed : MapPhase → MapPhase → TransitionError

-- The status is changed in place; the result is the error, if any.
unfoldable pub transition : MapStatus → MapPhase → MapStatus × Option TransitionError
unfolding allowed_transition
transition status to =
    if not (allowed_transition status.phase to)
    then (status, some (TransitionError.disallowed status.phase to))
    else (record status { phase = to }, none)
