-- ===== src/Process/Outcomes.antt =====
-- When a transition of a process is refused, and what it leaves.
use emergence_os.Base.{
  ℕ, ◌≡◌, ◌≢◌, ◌↔◌, ◌⊎◌, false, Option, String, returned, raised, value_error, arith,
}
use emergence_os.State.{ProcessState, process, is_valid_transition, process_eq}
use emergence_os.Process.{Process, transition_to, fail}

-- `transition_to` raises exactly for a new state that the table does not allow; a transition to
-- the present state is always accepted.
pub transition_to-eq-raised :
    (s : ProcessState) (now : ℕ) (p : Process)
    → (transition_to s now p ≡ raised value_error)
      ↔ ((s ≢ p.state) × (is_valid_transition (process p.state) (process s) ≡ returned false))
unfolding transition_to is_valid_transition
transition_to-eq-raised s now p = ground arith

-- An accepted transition ends in the state that was asked for.
pub state-transition_to :
    (s : ProcessState) (now : ℕ) (p q : Process) → transition_to s now p ≡ returned q → q.state ≡ s
unfolding transition_to
state-transition_to s now p q h = ground arith

-- `fail` is refused exactly in the states created, ready, completed and cancelled.
pub fail-eq-raised :
    (reason : Option String) (now : ℕ) (p : Process)
    → (fail reason now p ≡ raised value_error) ↔ (
        (p.state ≡ ProcessState.created)
        ⊎ (p.state ≡ ProcessState.ready)
        ⊎ (p.state ≡ ProcessState.completed)
        ⊎ (p.state ≡ ProcessState.cancelled))
unfolding fail
fail-eq-raised reason now p = ground arith
