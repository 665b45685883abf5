-- ===== src/State/Order.antt =====
-- Runs of the transition tables of emergence/core/state.py.
use emergence_os.Base.{
  ℕ, ◌<◌, ◌≡◌, ◌≢◌, ◌↔◌, ◌⊎◌, inl, inr, refl, ◌∙◌, subst, true, false, List, [], ◌∷◌, returned,
  raised, type_error, arith,
}
use emergence_os.Base.Bag
use emergence_os.State.{
  ProcessState, TaskState, GoalState, PlanState, CheckpointState, AnyState, process, task, goal,
  plan, checkpoint, process_eq, is_valid_transition,
}

abbrev pub kind : AnyState → ℕ
kind (process _) = 0
kind (task _) = 1
kind (goal _) = 2
kind (plan _) = 3
kind (checkpoint _) = 4

-- How far along its lifecycle a state stands. The process states form cycles and have no rank.
abbrev pub rank : AnyState → ℕ
rank (process _) = 0
rank (task TaskState.pending) = 0
rank (task TaskState.ready) = 1
rank (task TaskState.running) = 2
rank (task _) = 3
rank (goal GoalState.created) = 0
rank (goal GoalState.planning) = 1
rank (goal GoalState.in_progress) = 2
rank (goal _) = 3
rank (plan PlanState.created) = 0
rank (plan PlanState.active) = 1
rank (plan _) = 2
rank (checkpoint CheckpointState.created) = 0
rank (checkpoint CheckpointState.stored) = 1
rank (checkpoint CheckpointState.restored) = 2

-- `is_valid_transition` raises TypeError exactly when the two states are of different enums.
pub is_valid_transition-type_error :
    (a b : AnyState) → (is_valid_transition a b ≡ raised type_error) ↔ (kind a ≢ kind b)
unfolding is_valid_transition
is_valid_transition-type_error a b = ground arith

-- A valid transition of a task, a goal, a plan or a checkpoint rises in the order of its lifecycle.
is_valid_transition-rank :
    (a b : AnyState) → kind a ≢ 0 → is_valid_transition a b ≡ returned true → rank a < rank b
unfolding is_valid_transition
is_valid_transition-rank (task a) (task b) h v = ground arith
is_valid_transition-rank (goal a) (goal b) h v = ground arith
is_valid_transition-rank (plan a) (plan b) h v = ground arith
is_valid_transition-rank (checkpoint a) (checkpoint b) h v = ground arith
is_valid_transition-rank (process a) b h v = absurd (h refl)
is_valid_transition-rank _ _ h v = cc

-- A sequence of valid process transitions, from `s` on.
pub data Run (s : ProcessState) : ProcessState → Type 0 where
  here : Run s s
  next :
      {t u : ProcessState}
      → Run s t
      → is_valid_transition (process t) (process u) ≡ returned true
      → Run s u

-- The states that a run leaves.
abbrev pub left : {s t : ProcessState} → Run s t → List ProcessState
left here = []
left (next {t = t} r v) = t ∷ left r

abbrev pub IsTerminal : ProcessState → Type 0
IsTerminal s =
    (s ≡ ProcessState.completed) ⊎ (s ≡ ProcessState.failed) ⊎ (s ≡ ProcessState.cancelled)

abbrev pub IsUnstarted : ProcessState → Type 0
IsUnstarted s = (s ≡ ProcessState.created) ⊎ (s ≡ ProcessState.ready) ⊎ (s ≡ ProcessState.cancelled)

step-IsTerminal :
    (s t : ProcessState)
    → IsTerminal s
    → is_valid_transition (process s) (process t) ≡ returned true
    → s ≡ t
unfolding is_valid_transition
step-IsTerminal s t h v = ground arith

-- No run leaves a terminal state: completed, failed and cancelled are final.
pub Run-IsTerminal : {s t : ProcessState} → IsTerminal s → Run s t → s ≡ t
Run-IsTerminal h here = refl
Run-IsTerminal h (next {t = t} {u = u} r v) =
    let same = Run-IsTerminal h r in same ∙ step-IsTerminal t u (subst IsTerminal same h) v

step-IsUnstarted :
    (s t : ProcessState)
    → IsUnstarted s
    → is_valid_transition (process s) (process t) ≡ returned true
    → IsUnstarted t ⊎ (t ≡ ProcessState.running)
unfolding is_valid_transition
step-IsUnstarted s t h v = ground arith

-- A run from created that never leaves running ends in created, ready, running or cancelled: no
-- process completes, fails, waits or blocks before it has run.
pub Run-IsUnstarted :
    {t : ProcessState} (r : Run ProcessState.created t)
    → Bag.has ProcessState.running (left r) ≡ false
    → IsUnstarted t ⊎ (t ≡ ProcessState.running)
unfolding Bag.has
Run-IsUnstarted here h = inl (inl refl)
Run-IsUnstarted (next {t = t} {u = u} r v) h = elim (Run-IsUnstarted r (ground arith)) [
  | inl early ↦ step-IsUnstarted t u early v
  | inr started ↦ absurd (ground arith)
]
