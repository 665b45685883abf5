-- ===== src/Process/Times.antt =====
-- The times that a process carries agree with its state.
use emergence_os.Base.{ℕ, String, ◌≡◌, Bool, true, Option, some, is_some, returned, arith}
use emergence_os.State.{ProcessState}
use emergence_os.Process.{Process, is_terminal, transition_to, fail}

-- The states that a process reaches only through running.
abbrev pub has_run : ProcessState → Bool
has_run ProcessState.created = Bool.false
has_run ProcessState.ready = Bool.false
has_run ProcessState.cancelled = Bool.false
has_run _ = true

-- A process has a completion time exactly while it is in a terminal state, and a start time in
-- every state that it reaches through running.
pub record IsConsistent (p : Process) : Type 0 where
  pub finished : is_some p.completed_at ≡ is_terminal p.state
  pub started : has_run p.state ≡ true → is_some p.started_at ≡ true

-- A transition that is accepted keeps the times consistent.
pub transition_to-IsConsistent :
    (s : ProcessState) (now : ℕ) (p q : Process)
    → IsConsistent p
    → transition_to s now p ≡ returned q
    → IsConsistent q
unfolding transition_to
transition_to-IsConsistent s now p q c h = ground arith

pub fail-IsConsistent :
    (reason : Option String) (now : ℕ) (p q : Process)
    → IsConsistent p
    → fail reason now p ≡ returned q
    → IsConsistent q
unfolding fail
fail-IsConsistent reason now p q c h = ground arith

-- The first start time is never overwritten.
pub transition_to-started_at :
    (s : ProcessState) (now t : ℕ) (p q : Process)
    → p.started_at ≡ some t
    → transition_to s now p ≡ returned q
    → q.started_at ≡ some t
unfolding transition_to
transition_to-started_at s now t p q e h = ground arith
