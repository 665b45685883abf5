-- ===== src/Kernel/Examples.antt =====
-- A kernel with one running process that has no checkpoint.
use emergence_os.Base.{
  ℕ, string_eq, false, ◌&&◌, ◌||◌, ◌+◌, ◌-◌, ◌≡◌, refl, ap, sym, ◌∙◌, min, none, some, true,
  some-injective, Bool-cases, inl, inr, ltb, if◌then◌else◌, ◌==◌, [], ◌∷◌, nat_eq, arith, returned,
}
use emergence_os.Base.Bag
use emergence_os.Base.Dict
use emergence_os.Base.Int.{pos, ◌+ℤ◌}
use emergence_os.Budget.{check_timeout, default_budget, can_dispatch, within_limits, usage}
use emergence_os.Checkpoint
use emergence_os.Checkpoint.{latest_for_process}
use emergence_os.Cognitive.{find_assigned}
use emergence_os.Event.{Event, process_started}
use emergence_os.Kernel.Wake.{event_of}
use emergence_os.Kernel.Completion.{after_body-finished}
use emergence_os.Definition.{ProcessDefinition}
use emergence_os.Goals.{new_registry}
use emergence_os.Kernel.{Kernel}
use emergence_os.Kernel.Dispatch.{after_body, Body, finished, fail_process, run_process}
use emergence_os.Kernel.Kept.{IsKeyed}
use emergence_os.Kernel.Revival.{is_raised, fail_process_retries, run_process-cancelled}
use emergence_os.Kernel.Newborn.{newborn, spawn-admits}
use emergence_os.Kernel.Spawn.{SpawnRequest, spawn}
use emergence_os.Mailbox
use emergence_os.Security.{capability_eq, has, tool_shell, default_process_capabilities}
use emergence_os.Security.Grants.{declared}
use emergence_os.Kernel.Retries.{IsPlain, fail_times, terminations, fail_times_counts}
use emergence_os.Kernel.Supervisor.{retries_of, resumed}
use emergence_os.Process
use emergence_os.Process.{Process, new_process}
use emergence_os.Scheduler
use emergence_os.State.{ProcessState}
use emergence_os.StateStore.{new_store}

abbrev pub job : ProcessDefinition
job = record {
  process_definition_id = 1;
  name = "job";
  version = "1.0.0";
  implementation = "jobs:run";
  execution_spec = none;
  default_budget = default_budget;
  required_permissions = [];
}

abbrev pub seven : Process
seven = record (new_process job none none default_budget 7 100) { state = ProcessState.running }

abbrev pub kernel : Kernel
kernel = record {
  registry = [];
  executor = [];
  process_table = (7, seven) ∷ [];
  scheduler = Scheduler.clear;
  recoverable = record {
    checkpoints = Checkpoint.clear;
    memory = record { entries = []; index = []; published = [] };
    budgets = [];
    published = [];
  };
  mailboxes = [];
  capabilities = [];
  state = new_store;
  cognitive = record {
    goals = [];
    plans = [];
    tasks = [];
    tasks_by_plan = [];
    task_name_index = [];
    published = [];
  };
  goals = new_registry;
  active_space = "default";
  retry_counts = [];
  decisions = [];
  published = [];
  event_count = 0;
  clock = 100;
  next_id = 50;
}

seven-IsPlain : IsPlain seven 3 kernel
unfolding Dict.get latest_for_process
seven-IsPlain = record { held = refl; limited = refl; unsaved = refl }

no_retries : retries_of 7 kernel ≡ 0
unfolding retries_of Dict.get
no_retries = refl

fail_times_counts_example :
    (retries_of 7 (fail_times 5 7 kernel) ≡ min (retries_of 7 kernel + 5) 3)
    × (terminations (fail_times 5 7 kernel).decisions
        ≡ terminations kernel.decisions + (retries_of 7 kernel + 5 - 3))
fail_times_counts_example =
    fail_times_counts 5 seven 3 kernel seven-IsPlain (ground (arith, no_retries))

abbrev failed_seven : Process
failed_seven = record seven {
  state = ProcessState.failed;
  completed_at = some 100;
  failure_reason = some "no";
}

may_fail : Process.fail (some "no") kernel.clock seven ≡ returned failed_seven
unfolding Process.fail
may_fail = refl

pub alone-IsKeyed : (p : Process) → IsKeyed ((p.process_id, p) ∷ [])
unfolding Dict.get
alone-IsKeyed p i q h = elim (Bool-cases (p.process_id == i)) [
  | inl same ↦
      ap (λ (x : Process). x.process_id) (some-injective q p (sym h ∙ rw same refl))
      ∙ (nat_eq.same_iff p.process_id i).0 same
  | inr other ↦ absurd (none_or_some (sym (rw other refl) ∙ h))
]
  where
    none_or_some : none ≡ some q → ⊥
    none_or_some h = cc

fail_process_retries_example :
    (Dict.get 7 (fail_process seven "no" kernel).1.process_table
      ≡ some (if ltb (retries_of 7 kernel) 3 then resumed failed_seven else failed_seven))
    × (retries_of 7 (fail_process seven "no" kernel).1
        ≡ (if ltb (retries_of 7 kernel) 3 then retries_of 7 kernel + 1 else retries_of 7 kernel))
fail_process_retries_example =
    fail_process_retries seven failed_seven "no" 3 kernel may_fail (alone-IsKeyed seven)
      seven-IsPlain

-- The process was cancelled while it was queued.
abbrev cancelled_seven : Process
cancelled_seven = record seven { state = ProcessState.cancelled; completed_at = some 100 }

abbrev after_cancel : Kernel
after_cancel = record kernel { process_table = (7, cancelled_seven) ∷ [] }

cancelled-IsPlain : IsPlain cancelled_seven 3 after_cancel
unfolding Dict.get latest_for_process
cancelled-IsPlain = record { held = refl; limited = refl; unsaved = refl }

no_cancel_retries : retries_of 7 after_cancel ≡ 0
unfolding retries_of Dict.get
no_cancel_retries = refl

abbrev idle : Body
idle runner p k = (finished, k)

allowed : (can_dispatch 7 default_budget after_cancel.recoverable.budgets).0 ≡ true
unfolding can_dispatch within_limits usage ◌+ℤ◌ Dict.put Dict.get Dict.has
allowed = refl

run_process-cancelled_example :
    (is_raised (run_process idle 7 after_cancel).0 ≡ true)
    × (Dict.get 7 (run_process idle 7 after_cancel).1.process_table
        ≡ some (resumed cancelled_seven))
run_process-cancelled_example =
    run_process-cancelled idle cancelled_seven 3 after_cancel refl allowed
      (alone-IsKeyed cancelled_seven) cancelled-IsPlain (ground (arith, no_cancel_retries))

-- A process without a goal, of a definition that names a permission.
abbrev plain_request : SpawnRequest
plain_request = record {
  goal_id = none;
  parent_process_id = none;
  priority = pos 0;
  depends_on = [];
  causation_id = none;
  correlation_id = none;
  budget = none;
}

abbrev shell_job : ProcessDefinition
shell_job = record job { required_permissions = "tool.shell" ∷ [] }

fifty_is_new : Dict.has 50 kernel.process_table ≡ false
unfolding Dict.has
fifty_is_new = refl

spawn-admits_example :
    ((spawn shell_job plain_request kernel).0 ≡ returned 50)
    × (Dict.get 50 (spawn shell_job plain_request kernel).1.process_table ≡ (
        if ◌==◌ {K = ℕ} 50 50
        then some (newborn shell_job plain_request kernel)
        else Dict.get 50 kernel.process_table))
    × (has 50 tool_shell (spawn shell_job plain_request kernel).1.capabilities ≡ (
        ((◌==◌ {K = ℕ} 50 50)
          && (declared tool_shell shell_job.required_permissions
              || Bag.has tool_shell default_process_capabilities))
        || has 50 tool_shell kernel.capabilities))
    × (Mailbox.exists 50 (spawn shell_job plain_request kernel).1.mailboxes ≡ true)
spawn-admits_example = spawn-admits shell_job plain_request kernel 50 tool_shell fifty_is_new tt

abbrev start : Event
start = event_of process_started 7 none none kernel

-- The process ends at time 100.
abbrev done_seven : Process
done_seven = record seven { state = ProcessState.completed; completed_at = some 100 }

may_complete : Process.complete kernel.clock seven ≡ returned done_seven
unfolding Process.complete
may_complete = refl

seven_is_held : Dict.get 7 kernel.process_table ≡ some seven
unfolding Dict.get
seven_is_held = refl

in_time : check_timeout seven.started_at seven.budget kernel.clock ≡ false
unfolding check_timeout
in_time = refl

no_task : find_assigned 7 kernel.cognitive.tasks ≡ none
unfolding find_assigned
no_task = refl

after_body-finished_example :
    ((after_body finished seven start 100 kernel).0 ≡ returned tt)
    × (Dict.get 7 (after_body finished seven start 100 kernel).1.process_table ≡ some done_seven)
    × (has 7 tool_shell (after_body finished seven start 100 kernel).1.capabilities ≡ false)
    × (Mailbox.exists 7 (after_body finished seven start 100 kernel).1.mailboxes ≡ false)
after_body-finished_example =
    after_body-finished seven done_seven tool_shell start 100 kernel may_complete seven_is_held
      (alone-IsKeyed seven) in_time no_task
