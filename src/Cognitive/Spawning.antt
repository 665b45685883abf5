-- ===== src/Cognitive/Spawning.antt =====
-- emergence/cognitive/manager.py: the operations that start processes for tasks.
use emergence_os.Base.{
  ℕ, String, Bool, true, false, Option, none, some, List, [], ◌∷◌, Outcome, returned,
  plan_not_found, ◌==◌, nat_eq,
}
use emergence_os.Base.Dict
use emergence_os.Base.Int.{ℤ}
use emergence_os.Event.{task_started, task_completed}
use emergence_os.State.{PlanState, TaskState, plan_eq, task_eq}
use emergence_os.Cognitive.{
  CognitiveManager, Plan, Task, Done, and_then, or_error, id_of, publish, put_task, move_task,
  is_finished, ready_tasks, update_ready_tasks, check_plan_completion, find_assigned,
}

or_same : Task → Option Task → Task
or_same task none = task
or_same task (some now) = now

-- The object that a task of a list is, as it is by now.
unfoldable pub live : Task → CognitiveManager → Task
unfolding or_same
live task m = or_same task (Dict.get task.task_id m.tasks)

-- `spawn` stands for `kernel.context.registry.get` and `kernel.spawn`, which find the definition by
-- its name, and give the id of the new process or raise. They do not touch the manager.
module _ {W : Type 0} (spawn : String → (goal_id : ℕ) → (priority : ℤ) → W → Outcome ℕ × W) where
  -- `spawn` beside the manager.
  abbrev spawned : Plan → Task → CognitiveManager × W → Done (CognitiveManager × W) ℕ
  spawned plan task (m, w) =
      let (outcome, w') = spawn task.process_definition_name plan.goal_id task.priority w in
      (outcome, (m, w'))

  -- A step of the manager beside the kernel.
  abbrev beside : {A : Type 0} → Done CognitiveManager A → W → Done (CognitiveManager × W) A
  beside (outcome, m) w = (outcome, (m, w))

  -- A round of the loop of `_spawn_ready_tasks`, by the process that was assigned before.
  unfoldable pub spawn_unassigned :
      Option ℕ → Plan → Task → CognitiveManager × W → Done (CognitiveManager × W) (Unit {0})
  spawn_unassigned (some _) plan task s = (returned tt, s)
  spawn_unassigned none plan task s = and_then (spawned plan task s) λ process_id s₁.
      let assigned = record task { assigned_process_id = some process_id } in
      and_then (beside (move_task TaskState.running assigned (put_task assigned s₁.0)) s₁.1) λ _ s₂.
        (
          returned tt,
          (
            publish task_started (some process_id)
                (("task_id", id_of task.task_id) ∷ ("plan_id", id_of plan.plan_id) ∷ []) s₂.0,
            s₂.1,
          ),
        )

  unfoldable pub spawn_each :
      Plan → List Task → CognitiveManager × W → Done (CognitiveManager × W) (Unit {0})
  unfolding spawn_unassigned live
  spawn_each plan [] s = (returned tt, s)
  spawn_each plan (task ∷ tasks) s =
      let now = live task s.0 in
      and_then (spawn_unassigned now.assigned_process_id plan now s)
        λ _ s₁. spawn_each plan tasks s₁

  -- `_spawn_ready_tasks` for a plan that is held, by whether it is active.
  unfoldable pub spawn_active :
      Bool → Plan → CognitiveManager × W → Done (CognitiveManager × W) (Unit {0})
  unfolding spawn_each ready_tasks
  spawn_active false plan s = (returned tt, s)
  spawn_active true plan s =
      and_then (ready_tasks plan.plan_id s.0, s) λ tasks s₁. spawn_each plan tasks s₁

  -- `_spawn_ready_tasks`, which is also `execute_plan`.
  unfoldable pub spawn_ready_tasks :
      ℕ → CognitiveManager × W → Done (CognitiveManager × W) (Unit {0})
  unfolding spawn_active
  spawn_ready_tasks plan_id s =
      and_then (or_error plan_not_found (Dict.get plan_id s.0.plans), s)
        λ plan s₁. spawn_active (plan.state == PlanState.active) plan s₁

  -- The body of `on_process_completed` for its task, by whether the task is finished.
  unfoldable pub complete_task :
      Bool → (process_id : ℕ) → Task → CognitiveManager × W → Done (CognitiveManager × W) (Unit {0})
  unfolding update_ready_tasks spawn_ready_tasks check_plan_completion
  complete_task true process_id task s = (returned tt, s)
  complete_task false process_id task (m, w) =
      and_then (beside (move_task TaskState.completed task m) w) λ _ s₁.
        let m₂ =
          publish task_completed (some process_id)
            (("task_id", id_of task.task_id) ∷ ("plan_id", id_of task.plan_id) ∷ []) s₁.0 in
        and_then (beside (update_ready_tasks task.plan_id m₂) s₁.1) λ _ s₃.
          and_then (spawn_ready_tasks task.plan_id s₃)
            λ _ s₄. beside (check_plan_completion task.plan_id s₄.0) s₄.1

  complete_found :
      (process_id : ℕ) → Option Task → CognitiveManager × W → Done (CognitiveManager × W) (Unit {0})
  unfolding complete_task
  complete_found process_id none s = (returned tt, s)
  complete_found process_id (some task) s = complete_task (is_finished task) process_id task s

  unfoldable pub on_process_completed :
      ℕ → CognitiveManager × W → Done (CognitiveManager × W) (Unit {0})
  unfolding complete_found find_assigned
  on_process_completed process_id s =
      complete_found process_id (find_assigned process_id s.0.tasks) s
