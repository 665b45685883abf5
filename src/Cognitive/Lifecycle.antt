-- ===== src/Cognitive/Lifecycle.antt =====
-- The lives of the entities of emergence/core/goal.py, emergence/core/plan.py and
-- emergence/core/task.py, whose states change by `transition_to` alone.
use emergence_os.Base.{◌<◌, ◌≡◌, ◌≢◌, ◌⊎◌, inl, inr, refl, ◌∙◌, subst, sym, returned, arith}
use emergence_os.State.{
  GoalState, PlanState, TaskState, AnyState, goal, plan, task, goal_eq, plan_eq, task_eq,
}
use emergence_os.State.Order.{rank}
use emergence_os.Cognitive.{Goal, Plan, Task, goal_to, plan_to, task_to}

pub data Entity : Type 0 where
  a_goal : Goal → Entity
  a_plan : Plan → Entity
  a_task : Task → Entity

abbrev pub state_of : Entity → AnyState
state_of (a_goal g) = goal g.state
state_of (a_plan p) = plan p.state
state_of (a_task t) = task t.state

-- A call of `transition_to` that does not raise.
pub data Move : Entity → Entity → Type 0 where
  goal_moved :
      (new : GoalState) (g h : Goal) → goal_to new g ≡ returned h → Move (a_goal g) (a_goal h)
  plan_moved :
      (new : PlanState) (p q : Plan) → plan_to new p ≡ returned q → Move (a_plan p) (a_plan q)
  task_moved :
      (new : TaskState) (t u : Task) → task_to new t ≡ returned u → Move (a_task t) (a_task u)

pub data Run (a : Entity) : Entity → Type 0 where
  here : Run a a
  next : {b c : Entity} → Run a b → Move b c → Run a c

abbrev Rises : AnyState → AnyState → Type 0
Rises s t = (s ≡ t) ⊎ (rank s < rank t)

goal_to-Rises :
    (new : GoalState) (g h : Goal)
    → goal_to new g ≡ returned h
    → Rises (goal g.state) (goal h.state)
unfolding goal_to
goal_to-Rises new g h e = ground arith

plan_to-Rises :
    (new : PlanState) (p q : Plan)
    → plan_to new p ≡ returned q
    → Rises (plan p.state) (plan q.state)
unfolding plan_to
plan_to-Rises new p q e = ground arith

task_to-Rises :
    (new : TaskState) (t u : Task)
    → task_to new t ≡ returned u
    → Rises (task t.state) (task u.state)
unfolding task_to
task_to-Rises new t u e = ground arith

Move-Rises : {a b : Entity} → Move a b → Rises (state_of a) (state_of b)
Move-Rises (goal_moved new g h e) = goal_to-Rises new g h e
Move-Rises (plan_moved new p q e) = plan_to-Rises new p q e
Move-Rises (task_moved new t u e) = task_to-Rises new t u e

Rises-trans : (s t u : AnyState) → Rises s t → Rises t u → Rises s u
Rises-trans s t u (inl e) h = subst (λ x. Rises x u) (sym e) h
Rises-trans s t u (inr l) (inl e) = inr (subst (λ x. rank s < rank x) e l)
Rises-trans s t u (inr l) (inr h) = inr (omega (arith, l, h))

Run-Rises : {a b : Entity} → Run a b → Rises (state_of a) (state_of b)
Run-Rises here = inl refl
Run-Rises (next r m) = Rises-trans _ _ _ (Run-Rises r) (Move-Rises m)

-- A goal, a plan or a task that has left a state by calls of `transition_to` is never in that state
-- again, whatever calls of `transition_to` follow, also those that change nothing.
pub Run_never_back :
    {a b c : Entity} → Run a b → state_of b ≢ state_of a → Run b c → state_of c ≢ state_of a
Run_never_back {a = a} {b = b} r left after back = elim (Run-Rises r) [
  | inl e ↦ left (sym e)
  | inr l ↦ elim (Run-Rises after) [
    | inl e ↦ left (e ∙ back)
    | inr m ↦ omega (arith, l, subst (λ x. rank (state_of b) < rank x) back m)
  ]
]
