-- ===== src/Cognitive/Entities.antt =====
-- emergence/core/goal.py, emergence/core/plan.py and emergence/core/task.py. The creation times,
-- the constraints of a plan and the metadata of a task, which no operation reads, are left out.
use emergence_os.Base.{
  ℕ, String, Bool, ◌||◌, not, Option, List, Outcome, returned, raised, value_error, if◌then◌else◌,
  ◌==◌,
}
use emergence_os.Base.Bag
use emergence_os.Base.Int.{ℤ}
use emergence_os.State.{
  GoalState, PlanState, TaskState, goal_eq, plan_eq, task_eq, goal_transitions, plan_transitions,
  task_transitions,
}

pub record Goal : Type 0 where
  pub goal_id : ℕ
  pub description : String
  pub state : GoalState

pub record Plan : Type 0 where
  pub plan_id : ℕ
  pub goal_id : ℕ
  pub state : PlanState
  pub priority : ℤ

pub record Task : Type 0 where
  pub task_id : ℕ
  pub plan_id : ℕ
  pub name : String
  pub process_definition_name : String
  pub state : TaskState
  pub dependencies : List ℕ
  pub assigned_process_id : Option ℕ
  pub expected_output : String
  pub priority : ℤ

-- The three `transition_to`.
unfoldable pub goal_to : GoalState → Goal → Outcome Goal
unfolding goal_transitions Bag.has
goal_to new_state g =
    if new_state == g.state
    then returned g
    else if not (Bag.has new_state (goal_transitions g.state))
    then raised value_error
    else returned (record g { state = new_state })

unfoldable pub plan_to : PlanState → Plan → Outcome Plan
unfolding plan_transitions Bag.has
plan_to new_state p =
    if new_state == p.state
    then returned p
    else if not (Bag.has new_state (plan_transitions p.state))
    then raised value_error
    else returned (record p { state = new_state })

unfoldable pub task_to : TaskState → Task → Outcome Task
unfolding task_transitions Bag.has
task_to new_state t =
    if new_state == t.state
    then returned t
    else if not (Bag.has new_state (task_transitions t.state))
    then raised value_error
    else returned (record t { state = new_state })

-- `Task.is_finished`
abbrev pub is_finished : Task → Bool
is_finished t =
    (t.state == TaskState.completed)
    || (t.state == TaskState.failed)
    || (t.state == TaskState.cancelled)
