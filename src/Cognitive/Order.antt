-- ===== src/Cognitive/Order.antt =====
-- Marking tasks as ready in emergence/cognitive/manager.py, and the tasks they depend on.
use emergence_os.Base.{
  ℕ, ◌≡◌, ◌⊎◌, inr, refl, ap, ◌∙◌, Bool, true, false, Option, none, some, List, [], ◌∷◌, Outcome,
  returned, raised, key_error, nat_eq,
}
use emergence_os.Base.Dict
use emergence_os.Base.Dict.{Dict}
use emergence_os.State.{TaskState}
use emergence_os.Cognitive.{
  CognitiveManager, Task, Done, and_then, or_error, or_nothing, move_task, task_to, make_ready,
  update_state, update_task, update_tasks, update_ready_tasks, dependencies_met,
}
use emergence_os.Cognitive.Started.{
  has_begun, InOrder, AllCompleted, put-InOrder, task_to-Follows, dependencies_met-AllCompleted,
}

-- The invariant, after a step.
abbrev Kept : {A : Type 0} → Done CognitiveManager A → Type 0
Kept r = InOrder r.1.tasks

move_task-InOrder :
    (s : TaskState) (t : Task) (m : CognitiveManager)
    → InOrder m.tasks
    → Dict.get t.task_id m.tasks ≡ some t
    → (has_begun t.state ≡ true) ⊎ AllCompleted t.dependencies m.tasks
    → Kept (move_task s t m)
move_task-InOrder s t m v h a = moved (task_to s t) refl
  where
    moved :
        (o : Outcome Task)
        → task_to s t ≡ o
        → Kept (
            and_then
              (o, m)
              (λ t' m'. (returned tt, record m' { tasks = Dict.put t'.task_id t' m'.tasks })))
    moved (returned t') e = put-InOrder t t' m.tasks v (task_to-Follows s t t' m.tasks h a e)
    moved (raised e') e = v

-- A chain of steps that each keep the tasks.
and_then-Kept :
    {A B : Type 0} (r : Done CognitiveManager A)
    (f : A → CognitiveManager → Done CognitiveManager B)
    → Kept r
    → ((a : A) (m : CognitiveManager) → InOrder m.tasks → Kept (f a m))
    → Kept (and_then r f)
and_then-Kept (returned a, m) f v h = h a m v
and_then-Kept (raised e, m) f v h = v

make_ready-InOrder :
    (b : Bool) (plan_id : ℕ) (t : Task) (m : CognitiveManager)
    → InOrder m.tasks
    → Dict.get t.task_id m.tasks ≡ some t
    → (b ≡ true → AllCompleted t.dependencies m.tasks)
    → Kept (make_ready b plan_id t m)
unfolding make_ready
make_ready-InOrder false plan_id t m v h a = v
make_ready-InOrder true plan_id t m v h a =
    and_then-Kept (move_task TaskState.ready t m) _
      (move_task-InOrder TaskState.ready t m v h (inr (a refl))) (λ _ m' v'. v')

update_state-InOrder :
    (s : TaskState) (plan_id : ℕ) (t : Task) (m : CognitiveManager)
    → InOrder m.tasks
    → Dict.get t.task_id m.tasks ≡ some t
    → Kept (update_state s plan_id t m)
unfolding update_state
update_state-InOrder TaskState.pending plan_id t m v h =
    tested (dependencies_met t.dependencies m.tasks) refl
  where
    tested :
        (o : Outcome Bool)
        → dependencies_met t.dependencies m.tasks ≡ o
        → Kept (and_then (o, m) (λ met m'. make_ready met plan_id t m'))
    tested (returned b) e =
        make_ready-InOrder b plan_id t m v h
          (λ yes_b. dependencies_met-AllCompleted t.dependencies m.tasks (e ∙ ap returned yes_b))
    tested (raised e') e = v
update_state-InOrder TaskState.ready plan_id t m v h = v
update_state-InOrder TaskState.running plan_id t m v h = v
update_state-InOrder TaskState.completed plan_id t m v h = v
update_state-InOrder TaskState.failed plan_id t m v h = v
update_state-InOrder TaskState.cancelled plan_id t m v h = v

update_task-InOrder :
    (plan_id tid : ℕ) (m : CognitiveManager) → InOrder m.tasks → Kept (update_task plan_id tid m)
unfolding update_task
update_task-InOrder plan_id tid m v = looked_up (Dict.get tid m.tasks) refl
  where
    looked_up :
        (o : Option Task)
        → Dict.get tid m.tasks ≡ o
        → Kept (
            and_then (or_error key_error o, m) (λ task m'. update_state task.state plan_id task m'))
    looked_up none e = v
    looked_up (some t) e =
        update_state-InOrder t.state plan_id t m v
          (ap (λ i. Dict.get i m.tasks) (v.keyed tid t e) ∙ e)

update_tasks-InOrder :
    (plan_id : ℕ) (tids : List ℕ) (m : CognitiveManager)
    → InOrder m.tasks
    → Kept (update_tasks plan_id tids m)
unfolding update_tasks
update_tasks-InOrder plan_id [] m v = v
update_tasks-InOrder plan_id (tid ∷ tids) m v =
    and_then-Kept (update_task plan_id tid m) _ (update_task-InOrder plan_id tid m v)
      (λ _ m' v'. update_tasks-InOrder plan_id tids m' v')

-- Marking the tasks of a plan as ready keeps it true, also where it raises, that every task is held
-- under its own id and that no task has begun before all its dependencies completed.
pub update_ready_tasks-InOrder :
    (plan_id : ℕ) (m : CognitiveManager)
    → InOrder m.tasks
    → InOrder (update_ready_tasks plan_id m).1.tasks
unfolding update_ready_tasks
update_ready_tasks-InOrder plan_id m v =
    update_tasks-InOrder plan_id (or_nothing (Dict.get plan_id m.tasks_by_plan)) m v
