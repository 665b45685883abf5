-- ===== src/Cognitive/Started.antt =====
-- The tasks of emergence/cognitive/manager.py that have begun, and what they depend on.
use emergence_os.Base.{
  ℕ, ◌≡◌, ◌⊎◌, inl, inr, refl, sym, ap, ◌∙◌, subst, Bool, true, false, Option, none, some,
  some-injective, List, [], ◌∷◌, All, All-map, Outcome, returned, raised, key_error, not,
  if◌then◌else◌, ◌==◌, nat_eq, Bool-cases, arith,
}
use emergence_os.Base.Dict
use emergence_os.Base.Dict.{Dict}
use emergence_os.State.{TaskState, task_eq}
use emergence_os.Cognitive.{Task, task_to, dependencies_met}

-- The states from ready on.
abbrev pub has_begun : TaskState → Bool
has_begun TaskState.pending = false
has_begun TaskState.cancelled = false
has_begun _ = true

is_completed : Option Task → Bool
is_completed none = false
is_completed (some t) = t.state == TaskState.completed

-- All of these are completed tasks.
unfoldable pub AllCompleted : List ℕ → Dict ℕ Task → Type 0
unfolding is_completed
AllCompleted deps tasks = All (λ d. is_completed (Dict.get d tasks) ≡ true) deps

-- Every task is held under its own id, and no task has begun before its dependencies completed.
pub record InOrder (tasks : Dict ℕ Task) : Type 0 where
  pub keyed : (i : ℕ) (t : Task) → Dict.get i tasks ≡ some t → t.task_id ≡ i
  pub begun :
      (i : ℕ) (t : Task)
      → Dict.get i tasks ≡ some t
      → has_begun t.state ≡ true
      → AllCompleted t.dependencies tasks

-- A new version of a task, which keeps its id and dependencies, stays completed and begins only
-- when it may.
pub record Follows (old new : Task) (tasks : Dict ℕ Task) : Type 0 where
  pub held : Dict.get new.task_id tasks ≡ some old
  pub same : new.dependencies ≡ old.dependencies
  pub stays : (old.state == TaskState.completed) ≡ true → (new.state == TaskState.completed) ≡ true
  pub allowed :
      has_begun new.state ≡ true
      → (has_begun old.state ≡ true) ⊎ AllCompleted old.dependencies tasks

get-put_cases :
    (k i : ℕ) (v w : Task) (tasks : Dict ℕ Task)
    → Dict.get i (Dict.put k v tasks) ≡ some w
    → ((k ≡ i) × (v ≡ w)) ⊎ (Dict.get i tasks ≡ some w)
get-put_cases k i v w tasks h = elim (Bool-cases (k == i)) [
  | inl this ↦ inl (
    (nat_eq.same_iff k i).0 this,
    some-injective v w (sym (Dict.get-put k i v tasks ∙ rw this refl) ∙ h),
  )
  | inr other ↦ inr (sym (Dict.get-put k i v tasks ∙ rw other refl) ∙ h)
]

completed_after :
    (old new : Task) (tasks : Dict ℕ Task) (d : ℕ)
    → Follows old new tasks
    → is_completed (Dict.get d tasks) ≡ true
    → is_completed (Dict.get d (Dict.put new.task_id new tasks)) ≡ true
unfolding is_completed
completed_after old new tasks d f h = elim (Bool-cases (new.task_id == d)) [
  | inl this ↦
      let named = (nat_eq.same_iff new.task_id d).0 this in
      rw (Dict.get-put new.task_id d new tasks, this)
        (f.stays
          (subst (λ o. is_completed o ≡ true) (ap (λ x. Dict.get x tasks) (sym named) ∙ f.held) h))
  | inr other ↦ rw (Dict.get-put new.task_id d new tasks, other) h
]

AllCompleted-put :
    (old new : Task) (tasks : Dict ℕ Task) (deps : List ℕ)
    → Follows old new tasks
    → AllCompleted deps tasks
    → AllCompleted deps (Dict.put new.task_id new tasks)
unfolding AllCompleted
AllCompleted-put old new tasks deps f a =
    All-map _ _ deps (λ (d : ℕ) h. completed_after old new tasks d f h) a

pub put-InOrder :
    (old new : Task) (tasks : Dict ℕ Task)
    → InOrder tasks
    → Follows old new tasks
    → InOrder (Dict.put new.task_id new tasks)
put-InOrder old new tasks v f = record {
  keyed = λ i t h. elim (get-put_cases new.task_id i new t tasks h) [
    | inl (k, e) ↦ ap (λ (x : Task). x.task_id) (sym e) ∙ k
    | inr before ↦ v.keyed i t before
  ];
  begun = λ i t h b. elim (get-put_cases new.task_id i new t tasks h) [
    | inl (k, e) ↦
        subst (λ (x : Task). AllCompleted x.dependencies (Dict.put new.task_id new tasks)) e
          (subst (λ l. AllCompleted l (Dict.put new.task_id new tasks)) (sym f.same)
            (AllCompleted-put old new tasks old.dependencies f
              (now (f.allowed (subst (λ (x : Task). has_begun x.state ≡ true) (sym e) b)))))
    | inr before ↦ AllCompleted-put old new tasks t.dependencies f (v.begun i t before b)
  ];
}
  where
    now :
        (has_begun old.state ≡ true) ⊎ AllCompleted old.dependencies tasks
        → AllCompleted old.dependencies tasks
    now (inl early) = v.begun new.task_id old f.held early
    now (inr all) = all

task_to_keeps :
    (s : TaskState) (t t' : Task)
    → task_to s t ≡ returned t'
    → (t'.task_id ≡ t.task_id)
      × (t'.dependencies ≡ t.dependencies)
      × ((t.state == TaskState.completed) ≡ true → (t'.state == TaskState.completed) ≡ true)
unfolding task_to
task_to_keeps s t t' e = ground arith

-- A transition of a task that is held.
pub task_to-Follows :
    (s : TaskState) (t t' : Task) (tasks : Dict ℕ Task)
    → Dict.get t.task_id tasks ≡ some t
    → (has_begun t.state ≡ true) ⊎ AllCompleted t.dependencies tasks
    → task_to s t ≡ returned t'
    → Follows t t' tasks
task_to-Follows s t t' tasks h a e =
    let (named, same, stays) = task_to_keeps s t t' e in
    record {
      held = ap (λ i. Dict.get i tasks) named ∙ h;
      same = same;
      stays = stays;
      allowed = λ b. a;
    }

-- The test of the code says the truth.
pub dependencies_met-AllCompleted :
    (deps : List ℕ) (tasks : Dict ℕ Task)
    → dependencies_met deps tasks ≡ returned true
    → AllCompleted deps tasks
unfolding dependencies_met AllCompleted is_completed
dependencies_met-AllCompleted [] tasks h = tt
dependencies_met-AllCompleted (d ∷ deps) tasks h =
    let (here, more) = by_held (Dict.get d tasks) (dependencies_met deps tasks) h in
    (here, dependencies_met-AllCompleted deps tasks more)
  where
    by_held :
        (o : Option Task) (rest : Outcome Bool)
        → (elim o [
          | none ↦ raised key_error
          | some dep ↦ if not (dep.state == TaskState.completed) then returned false else rest
        ])
          ≡ returned true
        → (is_completed o ≡ true) × (rest ≡ returned true)
    by_held none rest h = cc
    by_held (some dep) rest h = ground arith
