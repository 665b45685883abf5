-- ===== src/Cognitive/Planning.antt =====
-- emergence/cognitive/manager.py: the creation of a plan with its tasks. The identifiers that
-- `uuid4` draws come with the specifications.
use emergence_os.Base.{
  ℕ, String, Option, none, some, List, [], ◌∷◌, ◌++◌, Outcome, returned, ◌>>=◌, key_error,
  goal_not_found, string_eq, nat_eq,
}
use emergence_os.Base.Dict
use emergence_os.Base.Dict.{Dict}
use emergence_os.Base.Int.{ℤ}
use emergence_os.Base.Value.{text}
use emergence_os.Event.{task_created, plan_created, goal_in_progress}
use emergence_os.State.{GoalState, PlanState, TaskState}
use emergence_os.Cognitive.{
  CognitiveManager, Task, TaskSpec, Done, and_then, or_error, or_nothing, id_of, publish, put_plan,
  put_task, move_goal, move_plan, update_ready_tasks,
}

or_no_names : Option (Dict String ℕ) → Dict String ℕ
or_no_names none = []
or_no_names (some names) = names

abbrev pub new_task : (plan_id tid : ℕ) → TaskSpec → Task
new_task plan_id tid spec = record {
  task_id = tid;
  plan_id = plan_id;
  name = spec.name;
  process_definition_name = spec.process_definition_name;
  state = TaskState.pending;
  dependencies = [];
  assigned_process_id = none;
  expected_output = spec.expected_output;
  priority = spec.priority;
}

-- A round of the first loop.
unfoldable pub create_task : (plan_id tid : ℕ) → TaskSpec → CognitiveManager → CognitiveManager
unfolding or_no_names
create_task plan_id tid spec m =
    publish task_created none
      (("task_id", id_of tid) ∷ ("plan_id", id_of plan_id) ∷ ("name", text spec.name) ∷ [])
      (record (put_task (new_task plan_id tid spec) m) {
        tasks_by_plan =
            Dict.put plan_id (or_nothing (Dict.get plan_id m.tasks_by_plan) ++ tid ∷ [])
              m.tasks_by_plan;
        task_name_index =
            Dict.put plan_id
              (Dict.put spec.name tid (or_no_names (Dict.get plan_id m.task_name_index)))
              m.task_name_index;
      })

-- The first loop, with `name_to_id`: a name that comes twice stands for the last task.
unfoldable pub create_tasks :
    ℕ → List (ℕ × TaskSpec) → Dict String ℕ → CognitiveManager → Dict String ℕ × CognitiveManager
unfolding create_task
create_tasks plan_id [] names m = (names, m)
create_tasks plan_id ((tid, spec) ∷ specs) names m =
    create_tasks plan_id specs (Dict.put spec.name tid names) (create_task plan_id tid spec m)

-- `name_to_id[dep_name] for dep_name in ...`
unfoldable pub ids_of : List String → Dict String ℕ → Outcome (List ℕ)
ids_of [] names = returned []
ids_of (name ∷ more) names = or_error key_error (Dict.get name names) >>= λ d.
    ids_of more names >>= λ deps. returned (d ∷ deps)

-- The second loop.
unfoldable pub link_tasks :
    List (ℕ × TaskSpec) → Dict String ℕ → CognitiveManager → Done CognitiveManager (Unit {0})
unfolding ids_of
link_tasks [] names m = (returned tt, m)
link_tasks ((tid, spec) ∷ specs) names m =
    and_then (or_error key_error (Dict.get spec.name names), m)
      λ own m₁.
        and_then (or_error key_error (Dict.get own m₁.tasks), m₁)
          λ task m₂.
            and_then (ids_of spec.dependencies names, m₂)
              λ deps m₃. link_tasks specs names (put_task (record task { dependencies = deps }) m₃)

-- The plan and its empty lists.
unfoldable pub add_plan :
    (plan_id goal_id : ℕ) → (priority : ℤ) → CognitiveManager → CognitiveManager
add_plan plan_id goal_id priority m =
    record (put_plan
      (record {
        plan_id = plan_id;
        goal_id = goal_id;
        state = PlanState.created;
        priority = priority;
      })
      m) {
        tasks_by_plan = Dict.put plan_id [] m.tasks_by_plan;
        task_name_index = Dict.put plan_id [] m.task_name_index;
      }

-- The part of `create_plan` after the two loops.
unfoldable pub activate :
    (plan_id goal_id : ℕ) → CognitiveManager → Done CognitiveManager (Unit {0})
unfolding update_ready_tasks
activate plan_id goal_id m =
    and_then (or_error key_error (Dict.get plan_id m.plans), m)
      λ plan m₁. and_then (move_plan PlanState.active plan m₁) λ _ m₂.
        and_then (or_error goal_not_found (Dict.get goal_id m₂.goals), m₂)
          λ goal m₃. and_then (move_goal GoalState.in_progress goal m₃) λ _ m₄.
            update_ready_tasks plan_id (
              publish goal_in_progress none (("goal_id", id_of goal_id) ∷ []) (
                publish plan_created none
                  (("plan_id", id_of plan_id) ∷ ("goal_id", id_of goal_id) ∷ []) m₄))

unfoldable pub create_plan :
    (plan_id goal_id : ℕ)
    → List (ℕ × TaskSpec)
    → (priority : ℤ) → CognitiveManager
    → Done CognitiveManager (Unit {0})
unfolding add_plan create_tasks link_tasks activate
create_plan plan_id goal_id specs priority m =
    and_then (or_error goal_not_found (Dict.get goal_id m.goals), m)
      λ goal m₁.
        let (names, m₂) = create_tasks plan_id specs [] (add_plan plan_id goal_id priority m₁) in
        and_then (link_tasks specs names m₂) λ _ m₃. activate plan_id goal_id m₃
