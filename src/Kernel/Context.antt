-- ===== src/Kernel/Context.antt =====
-- What the kernel holds: the parts of emergence/kernel/context.py that its own code reads or changes,
-- the fields of emergence/kernel/supervisor.py, and emergence/core/wait_conditions.py.
use emergence_os.Base.{
  ℕ, String, Bool, Option, none, some, List, Outcome, returned, raised, ltb, leb, nat_eq,
}
use emergence_os.Base.Dict
use emergence_os.Base.Dict.{Dict}
use emergence_os.Checkpoint.{Recoverable}
use emergence_os.Cognitive.{CognitiveManager}
use emergence_os.Event.{Event}
use emergence_os.Goals.{GoalRegistry, GoalRecord, goal_for_process}
use emergence_os.Mailbox
use emergence_os.Mailbox.{MailboxManager}
use emergence_os.Process.{Process}
use emergence_os.Registries.Executor.{Executor}
use emergence_os.Registries.ProcessRegistry.{ProcessRegistry}
use emergence_os.Registries.ProcessTable.{ProcessTable}
use emergence_os.Scheduler.{Scheduler}
use emergence_os.Security.{CapabilityManager}
use emergence_os.StateStore
use emergence_os.StateStore.{StateStore}

-- The four wait conditions. The key of an approval is `approval:` and the id of the request.
pub data WaitCondition : Type 0 where
  message : (pid : ℕ) → WaitCondition
  state_key : (key : String) → WaitCondition
  timer : (wake_at : ℕ) → WaitCondition
  approval : (key : String) → WaitCondition

pub data RecoveryAction : Type 0 where
  retry restore terminate : RecoveryAction

pub record RecoveryDecision : Type 0 where
  pub action : RecoveryAction
  pub process_id : ℕ
  pub delay_seconds : ℕ

-- `clock` is the time that `datetime.now` returns, and `next_id` the number that stands for the next
-- UUID: the two inputs that the operations read. `published` is the log of the process
-- events, and `event_count` what the event store counts.
pub record Kernel : Type 0 where
  pub registry : ProcessRegistry
  pub executor : Executor
  pub process_table : ProcessTable
  pub scheduler : Scheduler WaitCondition
  pub recoverable : Recoverable
  pub mailboxes : MailboxManager
  pub capabilities : CapabilityManager
  pub state : StateStore
  pub cognitive : CognitiveManager
  pub goals : GoalRegistry
  pub active_space : String
  pub retry_counts : Dict ℕ ℕ
  pub decisions : List RecoveryDecision
  pub published : List Event
  pub event_count : ℕ
  pub clock : ℕ
  pub next_id : ℕ

-- `is_satisfied` of each condition.
unfoldable pub is_satisfied : WaitCondition → Kernel → Bool
is_satisfied (message pid) k = ltb 0 (Mailbox.pending pid k.mailboxes)
is_satisfied (state_key key) k = StateStore.exists key k.state
is_satisfied (timer wake_at) k = leb wake_at k.clock
is_satisfied (approval key) k = StateStore.exists key k.state

space_of_record : String → Option GoalRecord → String
space_of_record active none = active
space_of_record active (some r) = r.space_id

space_of_goal : Option ℕ → Kernel → String
unfolding space_of_record
space_of_goal none k = k.active_space
space_of_goal (some goal_id) k = space_of_record k.active_space (Dict.get goal_id k.goals.records)

-- `_space_for_process`, the resolver that the boot code binds.
unfoldable pub space_for_process : Kernel → (process_id : ℕ) → String
unfolding space_of_goal
space_for_process k process_id = space_of_goal (goal_for_process process_id k.goals) k

-- A change of an object of the process table.
abbrev pub put_process : Process → Kernel → Kernel
put_process p k = record k { process_table = Dict.put p.process_id p k.process_table }

-- What a method leaves, and the statements after it, which an exception skips.
abbrev pub Did : Type 0 → Type 0
Did A = Outcome A × Kernel

abbrev pub and_then : {A B : Type 0} → Did A → (A → Kernel → Did B) → Did B
and_then (returned a, k) f = f a k
and_then (raised e, k) f = (raised e, k)

-- A transition of a process of the table, which raises or is kept.
abbrev pub change : Outcome Process → Kernel → Did Process
change (returned p) k = (returned p, put_process p k)
change (raised e) k = (raised e, k)
