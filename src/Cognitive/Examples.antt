-- ===== src/Cognitive/Examples.antt =====
-- A plan of two tasks, the second of which depends on the first.
use emergence_os.Base.{
  ℕ, ◌≡◌, ◌≢◌, ◌⊎◌, inl, inr, refl, sym, ap, ◌∙◌, subst, some-injective, returned, arith,
  Bool-cases, ◌==◌, true, false, none, some, [], ◌∷◌, nat_eq, string_eq,
}
use emergence_os.Base.Dict
use emergence_os.Base.Int.{pos}
use emergence_os.State.{TaskState}
use emergence_os.Cognitive.{
  CognitiveManager, TaskSpec, Task, update_ready_tasks, update_tasks, update_task, task_to,
}
use emergence_os.Cognitive.Planning.{new_task}
use emergence_os.Cognitive.Started.{has_begun, InOrder}
use emergence_os.Cognitive.Lifecycle.{a_task, state_of, task_moved, Run, here, next, Run_never_back}
use emergence_os.Cognitive.Order.{update_ready_tasks-InOrder}

abbrev collect : TaskSpec
collect = record {
  name = "collect";
  process_definition_name = "worker";
  dependencies = [];
  priority = pos 1;
  expected_output = "";
}

abbrev task : Task
task = record (new_task 5 1 collect) { dependencies = [] }

abbrev later : Task
later = record (new_task 5 2 collect) { dependencies = 1 ∷ [] }

abbrev manager : CognitiveManager
manager = record {
  goals = [];
  plans = [];
  tasks = (1, task) ∷ (2, later) ∷ [];
  tasks_by_plan = (5, 1 ∷ 2 ∷ []) ∷ [];
  task_name_index = [];
  published = [];
}

found :
    (i : ℕ) (t : Task)
    → Dict.get i manager.tasks ≡ some t
    → ((task ≡ t) × (1 ≡ i)) ⊎ ((later ≡ t) × (2 ≡ i))
unfolding Dict.get
found i t h = elim (Bool-cases (1 == i)) [
  | inl first ↦ inl (some-injective task t (sym (rw first refl) ∙ h), (nat_eq.same_iff 1 i).0 first)
  | inr other ↦ elim (Bool-cases (2 == i)) [
    | inl second ↦
        inr (
          some-injective later t (sym (rw (other, second) refl) ∙ h),
          (nat_eq.same_iff 2 i).0 second,
        )
    | inr neither ↦ absurd (none_or_some (sym (rw (other, neither) refl) ∙ h))
  ]
]
  where
    none_or_some : none ≡ some t → ⊥
    none_or_some h = cc

manager-InOrder : InOrder manager.tasks
manager-InOrder = record {
  keyed = λ i t h. elim (found i t h) [
    | inl (e, k) ↦ ap (λ (x : Task). x.task_id) (sym e) ∙ k
    | inr (e, k) ↦ ap (λ (x : Task). x.task_id) (sym e) ∙ k
  ];
  begun = λ i t h b. elim (found i t h) [
    | inl (e, k) ↦ absurd (not_begun (subst (λ (x : Task). has_begun x.state ≡ true) (sym e) b))
    | inr (e, k) ↦ absurd (not_begun (subst (λ (x : Task). has_begun x.state ≡ true) (sym e) b))
  ];
}
  where
    not_begun : false ≡ true → ⊥
    not_begun h = cc

only_the_first :
    (update_ready_tasks 5 manager).1.tasks
    ≡ (1, record task { state = TaskState.ready }) ∷ (2, later) ∷ []
unfolding update_ready_tasks update_tasks update_task Dict.get Dict.put task_to
only_the_first = refl

update_ready_tasks-InOrder_example : InOrder (update_ready_tasks 5 manager).1.tasks
update_ready_tasks-InOrder_example = update_ready_tasks-InOrder 5 manager manager-InOrder

-- The task becomes ready, which is asked for twice, and runs.
abbrev ready_task : Task
ready_task = record task { state = TaskState.ready }

abbrev running_task : Task
running_task = record task { state = TaskState.running }

to_ready : task_to TaskState.ready task ≡ returned ready_task
unfolding task_to
to_ready = refl

still_ready : task_to TaskState.ready ready_task ≡ returned ready_task
unfolding task_to
still_ready = refl

to_running : task_to TaskState.running ready_task ≡ returned running_task
unfolding task_to
to_running = refl

abbrev made_ready : Run (a_task task) (a_task ready_task)
made_ready =
    next (next here (task_moved TaskState.ready task ready_task to_ready))
      (task_moved TaskState.ready ready_task ready_task still_ready)

abbrev set_running : Run (a_task ready_task) (a_task running_task)
set_running = next here (task_moved TaskState.running ready_task running_task to_running)

no_longer_pending : state_of (a_task ready_task) ≢ state_of (a_task task)
no_longer_pending h = ground arith

Run_never_back_example : state_of (a_task running_task) ≢ state_of (a_task task)
Run_never_back_example = Run_never_back made_ready no_longer_pending set_running
