-- ===== src/State.antt =====
-- emergence/core/state.py: the lifecycle states and the transition tables.
mod Codes
pub mod Order
pub use Codes.*
use emergence_os.Base.{Bool, List, [], ◌∷◌, Outcome, returned, raised, type_error}
use emergence_os.Base.Bag

-- The tables: the states that each state may go to.
unfoldable pub process_transitions : ProcessState → List ProcessState
process_transitions ProcessState.created = ProcessState.ready ∷ ProcessState.cancelled ∷ []
process_transitions ProcessState.ready = ProcessState.running ∷ ProcessState.cancelled ∷ []
process_transitions ProcessState.running =
    ProcessState.waiting ∷ ProcessState.blocked ∷ ProcessState.completed ∷ ProcessState.failed
    ∷ ProcessState.cancelled ∷ []
process_transitions ProcessState.waiting =
    ProcessState.ready ∷ ProcessState.cancelled ∷ ProcessState.failed ∷ []
process_transitions ProcessState.blocked =
    ProcessState.ready ∷ ProcessState.failed ∷ ProcessState.cancelled ∷ []
process_transitions ProcessState.completed = []
process_transitions ProcessState.failed = []
process_transitions ProcessState.cancelled = []

unfoldable pub task_transitions : TaskState → List TaskState
task_transitions TaskState.pending = TaskState.ready ∷ TaskState.cancelled ∷ []
task_transitions TaskState.ready = TaskState.running ∷ TaskState.cancelled ∷ []
task_transitions TaskState.running = TaskState.completed ∷ TaskState.failed ∷ []
task_transitions TaskState.completed = []
task_transitions TaskState.failed = []
task_transitions TaskState.cancelled = []

unfoldable pub goal_transitions : GoalState → List GoalState
goal_transitions GoalState.created = GoalState.planning ∷ GoalState.cancelled ∷ []
goal_transitions GoalState.planning =
    GoalState.in_progress ∷ GoalState.failed ∷ GoalState.cancelled ∷ []
goal_transitions GoalState.in_progress =
    GoalState.completed ∷ GoalState.failed ∷ GoalState.cancelled ∷ []
goal_transitions GoalState.completed = []
goal_transitions GoalState.failed = []
goal_transitions GoalState.cancelled = []

unfoldable pub plan_transitions : PlanState → List PlanState
plan_transitions PlanState.created = PlanState.active ∷ PlanState.cancelled ∷ []
plan_transitions PlanState.active =
    PlanState.completed ∷ PlanState.failed ∷ PlanState.cancelled ∷ []
plan_transitions PlanState.completed = []
plan_transitions PlanState.failed = []
plan_transitions PlanState.cancelled = []

unfoldable pub checkpoint_transitions : CheckpointState → List CheckpointState
checkpoint_transitions CheckpointState.created = CheckpointState.stored ∷ []
checkpoint_transitions CheckpointState.stored = CheckpointState.restored ∷ []
checkpoint_transitions CheckpointState.restored = []

-- A member of any of the five enums, as `is_valid_transition` takes it.
pub data AnyState : Type 0 where
  process : ProcessState → AnyState
  task : TaskState → AnyState
  goal : GoalState → AnyState
  plan : PlanState → AnyState
  checkpoint : CheckpointState → AnyState

unfoldable pub is_valid_transition : AnyState → AnyState → Outcome Bool
unfolding process_transitions task_transitions goal_transitions plan_transitions
    checkpoint_transitions Bag.has
is_valid_transition (process a) (process b) = returned (Bag.has b (process_transitions a))
is_valid_transition (task a) (task b) = returned (Bag.has b (task_transitions a))
is_valid_transition (goal a) (goal b) = returned (Bag.has b (goal_transitions a))
is_valid_transition (plan a) (plan b) = returned (Bag.has b (plan_transitions a))
is_valid_transition (checkpoint a) (checkpoint b) = returned (Bag.has b (checkpoint_transitions a))
is_valid_transition _ _ = raised type_error
