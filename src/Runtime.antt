-- ===== src/Runtime.antt =====
-- emergence/kernel/kernel.py: what drives the kernel and what its clients call, over Kernel and
-- Schedules.
pub mod Presence
pub mod Cancellation
mod Examples
use emergence_os.Base.{
  ℕ, ◌+◌, String, Bool, true, false, ◌&&◌, not, Option, none, some, List, [], ◌∷◌, ◌++◌, Outcome,
  returned, raised, if◌then◌else◌, ◌==◌, ltb, nat_eq,
}
use emergence_os.Base.Dict
use emergence_os.Base.Value.{boolean}
use emergence_os.Cognitive
use emergence_os.Cognitive.Spawning.{spawn_ready_tasks}
use emergence_os.Event.{process_cancelled}
use emergence_os.Goals
use emergence_os.Goals.{GoalKind, GoalRecord, all_process_ids}
use emergence_os.Kernel.{Kernel, WaitCondition, Did, and_then, put_process}
use emergence_os.Kernel.Dispatch.{now, spawn_named, cleanup_process}
use emergence_os.Kernel.Publish.{publish_event}
use emergence_os.Kernel.Wake.{evaluate}
use emergence_os.Mailbox
use emergence_os.Process
use emergence_os.Process.{Process, is_finished}
use emergence_os.Registries.ProcessTable
use emergence_os.Scheduler
use emergence_os.Schedules.{ScheduleManager, process_due}
use emergence_os.StateStore
use emergence_os.State.{ProcessState, process_eq}

-- A process that waits while its mailbox has a message.
unfoldable pub has_mail : Process → Kernel → Bool
has_mail p k = (p.state == ProcessState.waiting) && ltb 0 (Mailbox.pending p.process_id k.mailboxes)

-- The loop of `has_work`, over the processes of the table.
unfoldable pub mail_wakes : List Process → Kernel → Did Bool
unfolding has_mail evaluate now
mail_wakes [] k = (returned false, k)
mail_wakes (p ∷ ps) k =
    let rest = mail_wakes ps in
    if has_mail (now p k) k
    then and_then (evaluate k)
        (λ _ k₁. if Scheduler.is_empty k₁.scheduler then rest k₁ else (returned true, k₁))
    else rest k

unfoldable pub has_work : Kernel → Did Bool
unfolding mail_wakes evaluate
has_work k =
    if not (Scheduler.is_empty k.scheduler)
    then (returned true, k)
    else and_then (evaluate k) λ _ k₁.
      if not (Scheduler.is_empty k₁.scheduler)
      then (returned true, k₁)
      else mail_wakes (ProcessTable.all k₁.process_table) k₁

-- The loop of `tick`, which evaluates once at most.
unfoldable pub mail_tick : List Process → Kernel → Did (Unit {0})
unfolding has_mail evaluate
mail_tick [] k = (returned tt, k)
mail_tick (p ∷ ps) k =
    let rest = mail_tick ps in
    if has_mail p k then and_then (evaluate k) (λ _ k₁. (returned tt, k₁)) else rest k

unfoldable pub tick : Kernel × ScheduleManager → Outcome (Unit {0}) × (Kernel × ScheduleManager)
unfolding mail_tick evaluate
tick (k, m) = evaluated (evaluate k)
  where
    ticked :
        Outcome (List ℕ) × (Kernel × ScheduleManager)
        → Outcome (Unit {0}) × (Kernel × ScheduleManager)
    ticked (raised e, w) = (raised e, w)
    ticked (returned _, (k₂, m₂)) =
        let (outcome, k₃) = mail_tick (ProcessTable.all k₂.process_table) k₂ in (outcome, (k₃, m₂))

    evaluated : Did (List ℕ) → Outcome (Unit {0}) × (Kernel × ScheduleManager)
    evaluated (raised e, k₁) = (raised e, (k₁, m))
    evaluated (returned _, k₁) = ticked (process_due k₁.clock (k₁, m))

unfinished : List Process → ℕ
unfinished [] = 0
unfinished (p ∷ ps) = (if is_finished p then 0 else 1) + unfinished ps

unfoldable pub live_process_count : Kernel → ℕ
unfolding unfinished
live_process_count k = unfinished (ProcessTable.all k.process_table)

-- The event of a process that is cancelled, and its clean-up.
unfoldable pub announce_cancelled : Process → Kernel → Kernel
unfolding publish_event cleanup_process
announce_cancelled q k =
    cleanup_process q (publish_event process_cancelled q.process_id none none (put_process q k)).1

-- `fail` where `cancel` is refused; where both are, nothing happens.
unfoldable pub fail_over : Outcome Process → Process → Kernel → List ℕ × Kernel
unfolding announce_cancelled
fail_over (returned q) p k = (p.process_id ∷ [], announce_cancelled q k)
fail_over (raised e) p k = ([], k)

unfoldable pub cancel_over : Outcome Process → Process → Kernel → List ℕ × Kernel
unfolding announce_cancelled fail_over
cancel_over (returned q) p k = (p.process_id ∷ [], announce_cancelled q k)
cancel_over (raised e) p k = fail_over (Process.fail (some "cancelled") k.clock p) p k

-- One round of the loop of `cancel_goal_processes`, by what the table holds under the id.
unfoldable pub cancel_found : Option Process → Kernel → List ℕ × Kernel
unfolding cancel_over
cancel_found none k = ([], k)
cancel_found (some p) k =
    if is_finished p then ([], k) else cancel_over (Process.cancel k.clock p) p k

unfoldable pub cancel_all : List ℕ → Kernel → List ℕ × Kernel
unfolding cancel_found
cancel_all [] k = ([], k)
cancel_all (pid ∷ pids) k =
    let (one, k₁) = cancel_found (Dict.get pid k.process_table) k in
    let (more, k₂) = cancel_all pids k₁ in (one ++ more, k₂)

cancel_record : Option GoalRecord → Kernel → List ℕ × Kernel
unfolding cancel_all all_process_ids
cancel_record none k = ([], k)
cancel_record (some r) k = cancel_all (all_process_ids r) k

unfoldable pub cancel_goal_processes : (goal_id : ℕ) → Kernel → List ℕ × Kernel
unfolding cancel_record
cancel_goal_processes goal_id k = cancel_record (Dict.get goal_id k.goals.records) k

-- `create_goal`, with the id that the cognitive manager draws.
unfoldable pub create_goal : (goal_id : ℕ) → String → GoalKind → Kernel → Kernel
unfolding Cognitive.create_goal Goals.register
create_goal goal_id description kind k = record k {
  cognitive = Cognitive.create_goal goal_id description k.cognitive;
  goals = Goals.register goal_id description kind none k.clock k.goals;
}

unfoldable pub start_planning : (goal_id : ℕ) → Kernel → Did (Unit {0})
unfolding Cognitive.start_planning
start_planning goal_id k =
    let (outcome, m) = Cognitive.start_planning goal_id k.cognitive in
    (outcome, record k { cognitive = m })

-- `execute_plan`
unfoldable pub execute_plan : (plan_id : ℕ) → Kernel → Did (Unit {0})
unfolding spawn_ready_tasks spawn_named
execute_plan plan_id k =
    let (outcome, (m, k')) = spawn_ready_tasks spawn_named plan_id (k.cognitive, k) in
    (outcome, record k' { cognitive = m })

-- `grant_user_approval`, where `key` is `approval:` and the id of the request. The callbacks that
-- watch the key are left out.
unfoldable pub grant_user_approval : (key : String) → Kernel → Did (Unit {0})
unfolding StateStore.set evaluate
grant_user_approval key k =
    and_then (evaluate (record k { state = (StateStore.set key (boolean true) k.state).0 }))
      λ _ k₁. (returned tt, k₁)
