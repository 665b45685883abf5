-- ===== src/State/Codes.antt =====
-- The five enums of emergence/core/state.py, and `==` on each.
use emergence_os.Base.{ℕ, ◌≡◌, ◌↔◌, true, arith, Hashable, nat_beq}

pub data ProcessState : Type 0 where
  created ready running waiting blocked completed failed cancelled : ProcessState

pub data TaskState : Type 0 where
  pending ready running completed failed cancelled : TaskState

pub data GoalState : Type 0 where
  created planning in_progress completed failed cancelled : GoalState

pub data PlanState : Type 0 where
  created active completed failed cancelled : PlanState

pub data CheckpointState : Type 0 where
  created stored restored : CheckpointState

abbrev pub process_code : ProcessState → ℕ
process_code ProcessState.created = 0
process_code ProcessState.ready = 1
process_code ProcessState.running = 2
process_code ProcessState.waiting = 3
process_code ProcessState.blocked = 4
process_code ProcessState.completed = 5
process_code ProcessState.failed = 6
process_code ProcessState.cancelled = 7

abbrev pub task_code : TaskState → ℕ
task_code TaskState.pending = 0
task_code TaskState.ready = 1
task_code TaskState.running = 2
task_code TaskState.completed = 3
task_code TaskState.failed = 4
task_code TaskState.cancelled = 5

abbrev pub goal_code : GoalState → ℕ
goal_code GoalState.created = 0
goal_code GoalState.planning = 1
goal_code GoalState.in_progress = 2
goal_code GoalState.completed = 3
goal_code GoalState.failed = 4
goal_code GoalState.cancelled = 5

abbrev pub plan_code : PlanState → ℕ
plan_code PlanState.created = 0
plan_code PlanState.active = 1
plan_code PlanState.completed = 2
plan_code PlanState.failed = 3
plan_code PlanState.cancelled = 4

abbrev pub checkpoint_code : CheckpointState → ℕ
checkpoint_code CheckpointState.created = 0
checkpoint_code CheckpointState.stored = 1
checkpoint_code CheckpointState.restored = 2

pub process_code_iff :
    (a b : ProcessState) → (nat_beq (process_code a) (process_code b) ≡ true) ↔ (a ≡ b)
process_code_iff a b = ground arith

pub task_code_iff : (a b : TaskState) → (nat_beq (task_code a) (task_code b) ≡ true) ↔ (a ≡ b)
task_code_iff a b = ground arith

pub goal_code_iff : (a b : GoalState) → (nat_beq (goal_code a) (goal_code b) ≡ true) ↔ (a ≡ b)
goal_code_iff a b = ground arith

pub plan_code_iff : (a b : PlanState) → (nat_beq (plan_code a) (plan_code b) ≡ true) ↔ (a ≡ b)
plan_code_iff a b = ground arith

pub checkpoint_code_iff :
    (a b : CheckpointState) → (nat_beq (checkpoint_code a) (checkpoint_code b) ≡ true) ↔ (a ≡ b)
checkpoint_code_iff a b = ground arith

instance abbrev pub process_eq : Hashable ProcessState
process_eq = record {
  same = λ a b. nat_beq (process_code a) (process_code b);
  same_iff = process_code_iff;
}

instance abbrev pub task_eq : Hashable TaskState
task_eq = record { same = λ a b. nat_beq (task_code a) (task_code b); same_iff = task_code_iff }

instance abbrev pub goal_eq : Hashable GoalState
goal_eq = record { same = λ a b. nat_beq (goal_code a) (goal_code b); same_iff = goal_code_iff }

instance abbrev pub plan_eq : Hashable PlanState
plan_eq = record { same = λ a b. nat_beq (plan_code a) (plan_code b); same_iff = plan_code_iff }

instance abbrev pub checkpoint_eq : Hashable CheckpointState
checkpoint_eq = record {
  same = λ a b. nat_beq (checkpoint_code a) (checkpoint_code b);
  same_iff = checkpoint_code_iff;
}
