-- ===== src/Kernel/Supervisor.antt =====
-- emergence/kernel/supervisor.py
use emergence_os.Base.{
  ℕ, ◌+◌, ◌^◌, min, Bool, true, false, Option, none, some, [], ◌∷◌, ◌++◌, Outcome, returned, raised,
  nat_eq,
}
use emergence_os.Base.Dict
use emergence_os.Base.Int.{pos, ltb_ℤ}
use emergence_os.Budget.{record_retry}
use emergence_os.Checkpoint.{Checkpoint, Recoverable, latest_for_process, restore_checkpoint}
use emergence_os.Kernel.{
  Kernel, RecoveryAction, retry, restore, terminate, Did, and_then, put_process, space_for_process,
}
use emergence_os.Mailbox
use emergence_os.Process.{Process}
use emergence_os.Registries.ProcessTable
use emergence_os.Scheduler.{enqueue}
use emergence_os.Security
use emergence_os.Security.{capabilities_for_definition, grant_all}
use emergence_os.State.{ProcessState}

-- The process that `_prepare_for_resume` leaves.
abbrev pub resumed : Process → Process
resumed p = record p { state = ProcessState.ready; failure_reason = none; completed_at = none }

-- `_prepare_for_resume`. The state is assigned, whatever it was, and the priority is the default.
unfoldable pub prepare_for_resume : Process → Kernel → Kernel
prepare_for_resume p k = record (put_process (resumed p) k) {
  mailboxes = Mailbox.create p.process_id k.mailboxes;
  capabilities =
      grant_all p.process_id (capabilities_for_definition p.definition)
        (Security.clear p.process_id k.capabilities);
  scheduler = enqueue p.process_id (pos 0) [] k.scheduler;
}

abbrev count_retry : (process_id : ℕ) → Kernel → Kernel
count_retry process_id k = record k {
  recoverable = record k.recoverable { budgets = record_retry process_id k.recoverable.budgets };
}

-- `_apply_retry`
unfoldable pub apply_retry : Process → Kernel → Kernel
unfolding prepare_for_resume
apply_retry p k = count_retry p.process_id (prepare_for_resume p k)

-- The end of `_apply_restore`, with what `restore_checkpoint` gave.
unfoldable pub after_restore :
    Outcome (Checkpoint × Recoverable) → Process → Kernel → Did (Unit {0})
unfolding prepare_for_resume
after_restore (raised e) p k = (raised e, k)
after_restore (returned (c, r)) p k =
    (returned tt, count_retry p.process_id (prepare_for_resume p (record k { recoverable = r })))

abbrev decide : RecoveryAction → (process_id delay : ℕ) → Kernel → Kernel
decide action process_id delay k = record k {
  decisions =
      k.decisions
      ++ record { action = action; process_id = process_id; delay_seconds = delay } ∷ [];
}

abbrev pub or_zero : Option ℕ → ℕ
or_zero none = 0
or_zero (some n) = n

-- The two last parts of `_on_process_failed`, by `retries < max_retries`.
unfoldable pub retry_or_terminate : Bool → (retries : ℕ) → Process → Kernel → Kernel
unfolding apply_retry
retry_or_terminate true retries p k = apply_retry p (
    decide retry p.process_id (min (2 ^ retries) 30)
      (record k { retry_counts = Dict.put p.process_id (retries + 1) k.retry_counts }))
retry_or_terminate false retries p k = decide terminate p.process_id 0 k

unfoldable pub retries_of : (process_id : ℕ) → Kernel → ℕ
retries_of process_id k = or_zero (Dict.get process_id k.retry_counts)

-- `_on_process_failed` for a process that was found, by its latest checkpoint.
unfoldable pub recover : Option Checkpoint → Process → Kernel → Did (Unit {0})
unfolding after_restore retry_or_terminate retries_of
recover (some c) p k =
    let k₁ = decide restore p.process_id 0 k in
    after_restore (restore_checkpoint (space_for_process k₁) c.checkpoint_id p k₁.recoverable) p k₁
recover none p k =
    let retries = retries_of p.process_id k in
    (returned tt, retry_or_terminate (ltb_ℤ (pos retries) p.budget.max_retries) retries p k)

-- `_on_process_failed`. A process that is not in the table raises, since `except KeyError` does not
-- catch that error.
unfoldable pub on_process_failed : (process_id : ℕ) → Kernel → Did (Unit {0})
unfolding recover
on_process_failed process_id k =
    and_then (ProcessTable.get process_id k.process_table, k)
      λ p k₁.
        and_then (latest_for_process process_id k₁.recoverable.checkpoints, k₁)
          λ latest k₂. recover latest p k₂
