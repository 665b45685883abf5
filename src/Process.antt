-- ===== src/Process.antt =====
-- emergence/core/process.py and emergence/kernel/lifecycle.py.
-- A process, its transitions and the operations of the lifecycle manager. The clock is an
-- argument: `now` is what `datetime.now(UTC)` returns.
pub mod Times
pub mod Outcomes
pub mod Identity
mod Examples
use emergence_os.Base.{
  ℕ, String, Bool, true, false, ◌||◌, ◌&&◌, not, Option, none, some, is_some, [], ◌∷◌, Outcome,
  returned, raised, value_error, if◌then◌else◌, ◌==◌, ◌>>=◌,
}
use emergence_os.Base.Bag
use emergence_os.State.{ProcessState, process_eq, process_transitions}
use emergence_os.Budget.{ResourceBudget}
use emergence_os.Definition.{ProcessDefinition}

pub record Process : Type 0 where
  pub definition : ProcessDefinition
  pub goal_id : Option ℕ
  pub budget : ResourceBudget
  pub parent_process_id : Option ℕ
  pub state : ProcessState
  pub created_at : ℕ
  pub started_at : Option ℕ
  pub completed_at : Option ℕ
  pub failure_reason : Option String
  pub process_id : ℕ

-- Process(definition=…, goal_id=…, parent_process_id=…, budget=…)
abbrev pub new_process :
    ProcessDefinition → Option ℕ → Option ℕ → ResourceBudget → (process_id now : ℕ) → Process
new_process definition goal_id parent budget process_id now = record {
  definition = definition;
  goal_id = goal_id;
  budget = budget;
  parent_process_id = parent;
  state = ProcessState.created;
  created_at = now;
  started_at = none;
  completed_at = none;
  failure_reason = none;
  process_id = process_id;
}

abbrev pub is_terminal : ProcessState → Bool
is_terminal ProcessState.completed = true
is_terminal ProcessState.failed = true
is_terminal ProcessState.cancelled = true
is_terminal _ = false

unfoldable pub is_finished : Process → Bool
is_finished p = is_terminal p.state

-- The assignments of `transition_to`, in the order of the source.
enter : ProcessState → (now : ℕ) → Process → Process
enter new_state now p = record p {
  state = new_state;
  started_at =
      if (new_state == ProcessState.running) && not (is_some p.started_at)
      then some now
      else p.started_at;
  completed_at = if is_terminal new_state then some now else p.completed_at;
}

unfoldable pub transition_to : ProcessState → (now : ℕ) → Process → Outcome Process
unfolding enter process_transitions Bag.has
transition_to new_state now p =
    if new_state == p.state
    then returned p
    else if not (Bag.has new_state (process_transitions p.state))
    then raised value_error
    else returned (enter new_state now p)

unfoldable pub ready : (now : ℕ) → Process → Outcome Process
unfolding transition_to
ready now p = transition_to ProcessState.ready now p

unfoldable pub start : (now : ℕ) → Process → Outcome Process
unfolding transition_to
start now p = transition_to ProcessState.running now p

unfoldable pub complete : (now : ℕ) → Process → Outcome Process
unfolding transition_to
complete now p = transition_to ProcessState.completed now p

unfoldable pub fail : (reason : Option String) (now : ℕ) → Process → Outcome Process
unfolding transition_to
fail reason now p =
    transition_to ProcessState.failed now p >>= λ q. returned (record q { failure_reason = reason })

unfoldable pub cancel : (now : ℕ) → Process → Outcome Process
unfolding transition_to
cancel now p = transition_to ProcessState.cancelled now p

unfoldable pub wait : (now : ℕ) → Process → Outcome Process
unfolding transition_to
wait now p = transition_to ProcessState.waiting now p

unfoldable pub block : (now : ℕ) → Process → Outcome Process
unfolding transition_to
block now p = transition_to ProcessState.blocked now p

unfoldable pub wake : (now : ℕ) → Process → Outcome Process
unfolding transition_to
wake now p =
    if p.state == ProcessState.waiting
    then transition_to ProcessState.ready now p
    else if p.state == ProcessState.blocked
    then transition_to ProcessState.ready now p
    else returned p
