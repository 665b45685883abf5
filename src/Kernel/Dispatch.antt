-- ===== src/Kernel/Dispatch.antt =====
-- emergence/kernel/kernel.py: `run_next`. What the body of a process does through its facades is a
-- parameter.
use emergence_os.Base.{
  ℕ, ◌-◌, String, Bool, true, false, Option, none, some, [], Outcome, returned, raised, nat_eq,
}
use emergence_os.Base.Dict
use emergence_os.Base.Int.{ℤ, pos}
use emergence_os.Budget
use emergence_os.Budget.{can_dispatch, record_execution, check_timeout}
use emergence_os.Checkpoint.{create_checkpoint}
use emergence_os.Cognitive
use emergence_os.Cognitive.{CognitiveManager}
use emergence_os.Cognitive.Spawning.{on_process_completed}
use emergence_os.Event.{Event, process_started, process_completed, process_failed, process_waiting}
use emergence_os.Kernel.{Kernel, WaitCondition, Did, and_then, change, space_for_process}
use emergence_os.Kernel.Publish.{publish_event}
use emergence_os.Kernel.Spawn.{spawn}
use emergence_os.Kernel.Wake.{evaluate}
use emergence_os.Mailbox
use emergence_os.Process
use emergence_os.Process.{Process, is_finished}
use emergence_os.Registries.Executor.{execute}
use emergence_os.Registries.ProcessRegistry
use emergence_os.Registries.ProcessTable
use emergence_os.Scheduler
use emergence_os.Scheduler.{dequeue, mark_waiting}
use emergence_os.Security

-- How the body of a process ends: it returns, it raises `ProcessWaiting`, or another exception.
pub data Ran : Type 0 where
  finished : Ran
  waits : WaitCondition → Ran
  crashed : (reason : String) → Ran

abbrev pub Body : Type 0
Body = (runner : ℕ) → Process → Kernel → Ran × Kernel

-- `_cleanup_process`, on the process as it is by now.
unfoldable pub cleanup_found : Bool → (process_id : ℕ) → Kernel → Kernel
cleanup_found false process_id k = k
cleanup_found true process_id k = record k {
  capabilities = Security.clear process_id k.capabilities;
  mailboxes = Mailbox.delete process_id k.mailboxes;
  recoverable = record k.recoverable { budgets = Budget.clear process_id k.recoverable.budgets };
}

-- The process that a local variable refers to, which is an object of the table.
unfoldable pub now : Process → Kernel → Process
now p k = in_table (Dict.get p.process_id k.process_table)
  where
    in_table : Option Process → Process
    in_table none = p
    in_table (some q) = q

unfoldable pub cleanup_process : Process → Kernel → Kernel
unfolding cleanup_found now
cleanup_process p k = cleanup_found (is_finished (now p k)) p.process_id k

-- `cognitive.on_process_failed`
unfoldable pub tell_failure : (process_id : ℕ) → Kernel → Did (Unit {0})
tell_failure process_id k =
    let (outcome, m) = Cognitive.on_process_failed process_id k.cognitive in
    (outcome, record k { cognitive = m })

-- After the `finally` block: what `fail` raised goes on, unless the block itself raised.
unfoldable pub after_failure : Outcome Process → Process → Did (Unit {0}) → Did (Unit {0})
unfolding cleanup_process
after_failure (raised e) p (returned _, k) = (raised e, k)
after_failure (returned _) p (returned _, k) = (returned tt, cleanup_process p k)
after_failure _ p (raised e, k) = (raised e, k)

-- `_fail_process`
unfoldable pub fail_process : Process → (reason : String) → Kernel → Did (Unit {0})
unfolding tell_failure publish_event after_failure
fail_process p reason k =
    let (outcome, k₁) = change (Process.fail (some reason) k.clock (now p k)) k in
    let (_, k₂) = publish_event process_failed p.process_id none none k₁ in
    after_failure outcome p (tell_failure p.process_id k₂)

-- A goal's task is started by its definition's name.
unfoldable pub spawn_named : String → (goal_id : ℕ) → (priority : ℤ) → Kernel → Did ℕ
unfolding spawn
spawn_named name goal_id priority k =
    and_then (ProcessRegistry.get name k.registry, k)
      λ d k₁.
        spawn d
          (record {
            goal_id = some goal_id;
            parent_process_id = none;
            priority = priority;
            depends_on = [];
            causation_id = none;
            correlation_id = none;
            budget = none;
          })
          k₁

-- `cognitive.on_process_completed`
unfoldable pub tell_completion : (process_id : ℕ) → Kernel → Did (Unit {0})
unfolding on_process_completed spawn_named
tell_completion process_id k =
    let (outcome, (m, k')) = on_process_completed spawn_named process_id (k.cognitive, k) in
    (outcome, record k' { cognitive = m })

-- The handlers of the exceptions of the `try` block.
unfoldable pub suspend : Process → WaitCondition → Kernel → Did (Unit {0})
unfolding create_checkpoint publish_event now
suspend p condition k =
    let (_, r) =
      create_checkpoint (space_for_process k) k.next_id k.clock k.event_count (now p k)
        k.recoverable in
    let k₁ = record k { recoverable = r } in
    and_then (change (Process.wait k₁.clock (now p k₁)) k₁) λ _ k₂.
      let k₃ = record k₂ { scheduler = mark_waiting p.process_id condition k₂.scheduler } in
      let (_, k₄) = publish_event process_waiting p.process_id none none k₃ in (returned tt, k₄)

-- The rest of the `try` block after the execution, and the clean-up behind it. An exception of the
-- block is handled by `_fail_process`.
unfoldable pub finish : Process → (started : Event) → Kernel → Did (Unit {0})
unfolding tell_completion publish_event
finish p started k = and_then (change (Process.complete k.clock (now p k)) k) λ _ k₁.
    let (_, k₂) =
      publish_event process_completed p.process_id started.correlation_id (some started.event_id)
        k₁ in
    tell_completion p.process_id k₂

unfoldable pub or_fail : Process → Did (Unit {0}) → Did (Unit {0})
unfolding fail_process cleanup_process
or_fail p (returned _, k) = (returned tt, cleanup_process p k)
or_fail p (raised e, k) = fail_process p "error" k

-- `_fail_process` inside the `try` block: what it raises is handled by `_fail_process` again.
unfoldable pub or_fail_again : Process → Did (Unit {0}) → Did (Unit {0})
unfolding fail_process
or_fail_again p (returned _, k) = (returned tt, k)
or_fail_again p (raised e, k) = fail_process p "error" k

-- The time budget, after the execution is on record.
unfoldable pub settle : Bool → Process → (started : Event) → Kernel → Did (Unit {0})
unfolding finish or_fail or_fail_again fail_process
settle true p started k = or_fail_again p (fail_process p "Execution time budget exceeded." k)
settle false p started k = or_fail p (finish p started k)

-- What the body leaves, by how it ended.
unfoldable pub after_body :
    Ran → Process → (started : Event) → (start_time : ℕ) → Kernel → Did (Unit {0})
unfolding suspend settle fail_process
after_body (waits condition) p started start_time k = suspend p condition k
after_body (crashed reason) p started start_time k = fail_process p reason k
after_body finished p started start_time k =
    let used =
      record_execution p.process_id (pos 0) (pos 0) (pos 0) (pos (k.clock - start_time))
        k.recoverable.budgets in
    let k₁ = record k { recoverable = record k.recoverable { budgets = used } } in
    settle (check_timeout (now p k₁).started_at p.budget k₁.clock) p started k₁

module _ (body : Body) where
  -- `executor.execute(context)`; a runner that is not registered raises.
  unfoldable pub run_body : Process → Kernel → Ran × Kernel
  unfolding execute
  run_body p k = outcome (execute (λ runner d. returned (body runner p k)) p.definition k.executor)
    where
      outcome : Outcome (Ran × Kernel) → Ran × Kernel
      outcome (returned r) = r
      outcome (raised e) = (crashed "no runner", k)

  -- The `try` block from the start on.
  unfoldable pub start_process : Process → Kernel → Did (Unit {0})
  unfolding run_body after_body publish_event
  start_process p k = let (outcome, k₁) = change (Process.start k.clock p) k in started outcome k₁
    where
      started : Outcome Process → Kernel → Did (Unit {0})
      started (raised e) k₁ = fail_process p "invalid transition" k₁
      started (returned q) k₁ =
          let (event, k₂) = publish_event process_started p.process_id none none k₁ in
          let (ran, k₃) = run_body (now p k₂) k₂ in after_body ran p event k₂.clock k₃

  -- `run_next` for a process that was dequeued, by the answer of the budget tracker.
  unfoldable pub dispatch : Bool → Process → Kernel → Did (Unit {0})
  unfolding start_process fail_process
  dispatch false p k = fail_process p "Resource budget exhausted before dispatch." k
  dispatch true p k = start_process p k

  unfoldable pub run_process : (process_id : ℕ) → Kernel → Did (Option ℕ)
  unfolding dispatch
  run_process process_id k =
      and_then (ProcessTable.get process_id k.process_table, k)
        λ p k₁.
          let (allowed, budgets) = can_dispatch p.process_id p.budget k₁.recoverable.budgets in
          let k₂ = record k₁ { recoverable = record k₁.recoverable { budgets = budgets } } in
          and_then (dispatch allowed p k₂) λ _ k₃. (returned (some process_id), k₃)

  unfoldable pub run_dequeued :
      Outcome (ℕ × Scheduler.Scheduler WaitCondition) → Kernel → Did (Option ℕ)
  unfolding run_process
  run_dequeued (raised e) k = (returned none, k)
  run_dequeued (returned (process_id, s)) k = run_process process_id (record k { scheduler = s })

  unfoldable pub run_next : Kernel → Did (Option ℕ)
  unfolding run_dequeued evaluate
  run_next k = and_then (evaluate k) λ _ k₁. run_dequeued (dequeue k₁.scheduler) k₁
