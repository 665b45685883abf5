-- ===== src/Cognitive.antt =====
-- emergence/cognitive/manager.py: goals, their plans and the tasks of a plan. An operation takes the
-- manager and returns its outcome with the manager it leaves, also where it raises.
mod Entities
pub mod Planning
pub mod Spawning
pub mod Started
pub mod Order
pub mod Lifecycle
mod Examples
unfoldable pub use Entities.*
use emergence_os.Base.{
  ℕ, String, Bool, true, false, not, ◌&&◌, Option, none, some, List, [], ◌∷◌, ◌++◌, map, Outcome,
  returned, raised, key_error, goal_not_found, plan_not_found, if◌then◌else◌, ◌==◌, ◌>>=◌, select,
  nat_eq, string_eq, is_some, Error,
}
use emergence_os.Base.Dict
use emergence_os.Base.Dict.{Dict}
use emergence_os.Base.Int.{ℤ, pos}
use emergence_os.Base.Value.{Value, integer, text}
use emergence_os.Event.{
  EventType, goal_created, goal_planning, goal_in_progress, goal_completed, goal_failed,
  plan_created, plan_completed, task_created, task_ready, task_started, task_completed, task_failed,
}
use emergence_os.State.{GoalState, PlanState, TaskState, plan_eq, task_eq}

-- What `_publish` gives to the bus.
pub record Published : Type 0 where
  pub event_type : EventType
  pub source_process : Option ℕ
  pub payload : Dict String Value

-- `published` is the log of the calls of `_publish`, the oldest first.
pub record CognitiveManager : Type 0 where
  pub goals : Dict ℕ Goal
  pub plans : Dict ℕ Plan
  pub tasks : Dict ℕ Task
  pub tasks_by_plan : Dict ℕ (List ℕ)
  pub task_name_index : Dict ℕ (Dict String ℕ)
  pub published : List Published

pub record TaskSpec : Type 0 where
  pub name : String
  pub process_definition_name : String
  pub dependencies : List String
  pub priority : ℤ
  pub expected_output : String

-- What a step leaves, and the steps after it, which an exception skips.
abbrev pub Done : Type 0 → Type 0 → Type 0
Done S A = Outcome A × S

abbrev pub and_then : {S A B : Type 0} → Done S A → (A → S → Done S B) → Done S B
and_then (returned a, m) f = f a m
and_then (raised e, m) f = (raised e, m)

abbrev pub or_error : {A : Type 0} → Error → Option A → Outcome A
or_error e none = raised e
or_error e (some a) = returned a

abbrev pub or_nothing : Option (List ℕ) → List ℕ
or_nothing none = []
or_nothing (some ids) = ids

abbrev pub id_of : ℕ → Value
id_of n = integer (pos n)

abbrev pub publish : EventType → Option ℕ → Dict String Value → CognitiveManager → CognitiveManager
publish kind source payload m = record m {
  published =
      m.published ++ record { event_type = kind; source_process = source; payload = payload } ∷ [];
}

-- The assignments to a goal, a plan or a task that the manager holds.
abbrev pub put_goal : Goal → CognitiveManager → CognitiveManager
put_goal g m = record m { goals = Dict.put g.goal_id g m.goals }

abbrev pub put_plan : Plan → CognitiveManager → CognitiveManager
put_plan p m = record m { plans = Dict.put p.plan_id p m.plans }

abbrev pub put_task : Task → CognitiveManager → CognitiveManager
put_task t m = record m { tasks = Dict.put t.task_id t m.tasks }

abbrev pub move_goal : GoalState → Goal → CognitiveManager → Done CognitiveManager (Unit {0})
move_goal s g m = and_then (goal_to s g, m) (λ g' m'. (returned tt, put_goal g' m'))

abbrev pub move_plan : PlanState → Plan → CognitiveManager → Done CognitiveManager (Unit {0})
move_plan s p m = and_then (plan_to s p, m) (λ p' m'. (returned tt, put_plan p' m'))

abbrev pub move_task : TaskState → Task → CognitiveManager → Done CognitiveManager (Unit {0})
move_task s t m = and_then (task_to s t, m) (λ t' m'. (returned tt, put_task t' m'))

-- `create_goal`, with the identifier that the constructor draws.
unfoldable pub create_goal : (goal_id : ℕ) → String → CognitiveManager → CognitiveManager
create_goal goal_id description m =
    publish goal_created none (("goal_id", id_of goal_id) ∷ ("description", text description) ∷ [])
      (put_goal (record { goal_id = goal_id; description = description; state = GoalState.created })
        m)

unfoldable pub start_planning : ℕ → CognitiveManager → Done CognitiveManager (Unit {0})
start_planning goal_id m =
    and_then (or_error goal_not_found (Dict.get goal_id m.goals), m)
      λ g m₁.
        and_then (move_goal GoalState.planning g m₁)
          λ _ m₂. (returned tt, publish goal_planning none (("goal_id", id_of goal_id) ∷ []) m₂)

-- `_dependencies_met`: a dependency that the manager does not hold raises.
unfoldable pub dependencies_met : List ℕ → Dict ℕ Task → Outcome Bool
dependencies_met [] tasks = returned true
dependencies_met (d ∷ deps) tasks =
    let rest = dependencies_met deps tasks in
    elim (Dict.get d tasks) [
      | none ↦ raised key_error
      | some dep ↦ if not (dep.state == TaskState.completed) then returned false else rest
    ]

-- The last part of a round of `_update_ready_tasks`, by whether the dependencies are met.
unfoldable pub make_ready :
    Bool → (plan_id : ℕ) → Task → CognitiveManager → Done CognitiveManager (Unit {0})
make_ready false plan_id task m = (returned tt, m)
make_ready true plan_id task m = and_then (move_task TaskState.ready task m) λ _ m₁. (
  returned tt,
  publish task_ready none (("task_id", id_of task.task_id) ∷ ("plan_id", id_of plan_id) ∷ []) m₁,
)

-- A round of the loop, by the state of its task.
unfoldable pub update_state :
    TaskState → (plan_id : ℕ) → Task → CognitiveManager → Done CognitiveManager (Unit {0})
unfolding make_ready dependencies_met
update_state TaskState.pending plan_id task m =
    and_then (dependencies_met task.dependencies m.tasks, m)
      λ met m₁. make_ready met plan_id task m₁
update_state _ plan_id task m = (returned tt, m)

unfoldable pub update_task : (plan_id tid : ℕ) → CognitiveManager → Done CognitiveManager (Unit {0})
unfolding update_state
update_task plan_id tid m =
    and_then (or_error key_error (Dict.get tid m.tasks), m)
      λ task m₁. update_state task.state plan_id task m₁

unfoldable pub update_tasks : ℕ → List ℕ → CognitiveManager → Done CognitiveManager (Unit {0})
update_tasks plan_id [] m = (returned tt, m)
update_tasks plan_id (tid ∷ tids) m =
    and_then (update_task plan_id tid m) λ _ m₁. update_tasks plan_id tids m₁

-- `_update_ready_tasks`
unfoldable pub update_ready_tasks : ℕ → CognitiveManager → Done CognitiveManager (Unit {0})
update_ready_tasks plan_id m =
    update_tasks plan_id (or_nothing (Dict.get plan_id m.tasks_by_plan)) m

-- `[self._tasks[tid] for tid in ...]`, which raises for a task that is not held.
unfoldable pub tasks_of : List ℕ → Dict ℕ Task → Outcome (List Task)
tasks_of [] tasks = returned []
tasks_of (tid ∷ tids) tasks = or_error key_error (Dict.get tid tasks) >>= λ task.
    tasks_of tids tasks >>= λ more. returned (task ∷ more)

unfoldable pub tasks_for_plan : ℕ → CognitiveManager → Outcome (List Task)
unfolding tasks_of
tasks_for_plan plan_id m = tasks_of (or_nothing (Dict.get plan_id m.tasks_by_plan)) m.tasks

unfoldable pub ready_tasks : ℕ → CognitiveManager → Outcome (List Task)
unfolding tasks_for_plan
ready_tasks plan_id m =
    tasks_for_plan plan_id m >>= λ tasks. returned (select (λ t. t.state == TaskState.ready) tasks)

all_completed : List Task → Bool
all_completed [] = true
all_completed (t ∷ tasks) = (t.state == TaskState.completed) && all_completed tasks

-- `if tasks and all(...)`
unfoldable pub is_done : List Task → Bool
unfolding all_completed
is_done [] = false
is_done (t ∷ tasks) = all_completed (t ∷ tasks)

-- The body of the `if` of `_check_plan_completion`.
unfoldable pub complete_plan :
    Bool → (plan_id : ℕ) → CognitiveManager → Done CognitiveManager (Unit {0})
complete_plan false plan_id m = (returned tt, m)
complete_plan true plan_id m =
    and_then (or_error key_error (Dict.get plan_id m.plans), m)
      λ plan m₁. and_then (move_plan PlanState.completed plan m₁) λ _ m₂.
        let m₃ = publish plan_completed none (("plan_id", id_of plan_id) ∷ []) m₂ in
        and_then (or_error key_error (Dict.get plan.goal_id m₃.goals), m₃)
          λ goal m₄. and_then (move_goal GoalState.completed goal m₄) λ _ m₅.
            (returned tt, publish goal_completed none (("goal_id", id_of plan.goal_id) ∷ []) m₅)

-- `_check_plan_completion`
unfoldable pub check_plan_completion : ℕ → CognitiveManager → Done CognitiveManager (Unit {0})
unfolding complete_plan is_done tasks_for_plan
check_plan_completion plan_id m =
    and_then (tasks_for_plan plan_id m, m) λ tasks m₁. complete_plan (is_done tasks) plan_id m₁

-- The first task in the order of creation that a process was assigned to.
unfoldable pub find_assigned : ℕ → Dict ℕ Task → Option Task
find_assigned process_id [] = none
find_assigned process_id ((tid, t) ∷ tasks) =
    if is_assigned t.assigned_process_id then some t else find_assigned process_id tasks
  where
    is_assigned : Option ℕ → Bool
    is_assigned none = false
    is_assigned (some p) = p == process_id

-- The body of `on_process_failed` for its task.
unfoldable pub fail_task :
    (process_id : ℕ) → Option Task → CognitiveManager → Done CognitiveManager (Unit {0})
fail_task process_id none m = (returned tt, m)
fail_task process_id (some task) m = and_then (move_task TaskState.failed task m) λ _ m₁.
    let m₂ = publish task_failed (some process_id) (("task_id", id_of task.task_id) ∷ []) m₁ in
    and_then (or_error key_error (Dict.get task.plan_id m₂.plans), m₂)
      λ plan m₃. and_then (move_plan PlanState.failed plan m₃) λ _ m₄.
        and_then (or_error key_error (Dict.get plan.goal_id m₄.goals), m₄)
          λ goal m₅. and_then (move_goal GoalState.failed goal m₅) λ _ m₆.
            (returned tt, publish goal_failed none (("goal_id", id_of plan.goal_id) ∷ []) m₆)

unfoldable pub on_process_failed : ℕ → CognitiveManager → Done CognitiveManager (Unit {0})
unfolding fail_task find_assigned
on_process_failed process_id m = fail_task process_id (find_assigned process_id m.tasks) m
