-- ===== src/Kernel/Completion.antt =====
-- The end of a process of emergence/kernel/kernel.py whose body returned.
use emergence_os.Base.{
  ℕ, ◌-◌, ◌≡◌, refl, ap, ◌∙◌, subst, Bool, true, false, Option, none, some, Outcome, returned,
  raised, process_not_found, ==_refl, nat_eq, arith,
}
use emergence_os.Base.Dict
use emergence_os.Base.Int.{pos}
use emergence_os.Budget.{check_timeout, record_execution}
use emergence_os.Cognitive.{find_assigned}
use emergence_os.Cognitive.Spawning.{on_process_completed}
use emergence_os.Event.{Event, process_completed, process_ready}
use emergence_os.Kernel.{Kernel, and_then, change, put_process, is_satisfied}
use emergence_os.Kernel.Dispatch.{
  after_body, settle, finish, or_fail, tell_completion, cleanup_process, cleanup_found, now,
  finished,
}
use emergence_os.Kernel.Kept.{IsKeyed, put-IsKeyed, tell_scheduler-Keeps}
use emergence_os.Kernel.Publish.{publish_event, deliver, tell_scheduler}
use emergence_os.Kernel.Revival.{now-held}
use emergence_os.Kernel.Wake.{event_of, log, is_asleep, wake_found, wake_process}
use emergence_os.Mailbox
use emergence_os.Process
use emergence_os.Process.{Process, is_finished}
use emergence_os.Process.Identity.{complete-eq-returned}
use emergence_os.Registries.{or_raise}
use emergence_os.Registries.ProcessTable
use emergence_os.Scheduler.World.{on_event-keeps}
use emergence_os.Security.{Capability, capability_eq, has}
use emergence_os.Security.Grants.{has-clear}
use emergence_os.State.{ProcessState}

-- Waking a process leaves the tasks alone.
cognitive-wake_found :
    (b : Bool) (q : Process) (k : Kernel) → (wake_found b q k).1.cognitive ≡ k.cognitive
unfolding wake_found
cognitive-wake_found false q k = refl
cognitive-wake_found true q k = by_outcome (Process.wake k.clock q)
  where
    by_outcome :
        (o : Outcome Process)
        → (and_then (change o k) λ r k₁.
            (returned tt, log (event_of process_ready r.process_id none none k₁) k₁)).1.cognitive
          ≡ k.cognitive
    by_outcome (raised e) = refl
    by_outcome (returned r) = refl

cognitive-wake_process : (i : ℕ) (k : Kernel) → (wake_process i k).1.cognitive ≡ k.cognitive
unfolding wake_process ProcessTable.get
cognitive-wake_process i k = by_entry (Dict.get i k.process_table)
  where
    by_entry :
        (o : Option Process)
        → (and_then
            (or_raise process_not_found o, k)
            λ q k₁. wake_found (is_asleep q.state) q k₁).1.cognitive
          ≡ k.cognitive
    by_entry none = refl
    by_entry (some q) = cognitive-wake_found (is_asleep q.state) q k

cognitive-tell_scheduler :
    (event : Event) (k : Kernel) → (tell_scheduler event k).cognitive ≡ k.cognitive
unfolding tell_scheduler
cognitive-tell_scheduler event k =
    on_event-keeps is_satisfied wake_process (λ w. w.cognitive ≡ k.cognitive)
      (λ i w same. cognitive-wake_process i w ∙ same) event k.scheduler k refl

-- The event of the completion, for a process that the table holds.
published :
    (q : Process) (correlation causation : Option ℕ) (k : Kernel)
    → is_asleep q.state ≡ false
    → Dict.get q.process_id k.process_table ≡ some q
    → IsKeyed k.process_table
    → (Dict.get q.process_id
          (publish_event process_completed q.process_id correlation causation k).1.process_table
        ≡ some q)
      × ((publish_event process_completed q.process_id correlation causation k).1.cognitive
          ≡ k.cognitive)
unfolding publish_event deliver
published q correlation causation k up held keyed =
    let event = event_of process_completed q.process_id correlation causation k in
    (
      (tell_scheduler-Keeps q event k (log event k) up
          (record { held = held; keyed = keyed; retries = refl; saved = refl })).held,
      cognitive-tell_scheduler event (log event k),
    )

-- A process without a task: its completion is nothing to the plans.
tell_completion-none :
    (i : ℕ) (k : Kernel)
    → find_assigned i k.cognitive.tasks ≡ none
    → tell_completion i k ≡ (returned tt, k)
unfolding tell_completion on_process_completed
tell_completion-none i k h = rw h refl

-- The clean-up of a finished process.
cleaned :
    (p q : Process) (c : Capability) (k : Kernel)
    → q.process_id ≡ p.process_id
    → is_finished q ≡ true
    → Dict.get p.process_id k.process_table ≡ some q
    → (Dict.get p.process_id (cleanup_process p k).process_table ≡ some q)
      × (has p.process_id c (cleanup_process p k).capabilities ≡ false)
      × (Mailbox.exists p.process_id (cleanup_process p k).mailboxes ≡ false)
unfolding cleanup_process cleanup_found now Mailbox.exists Mailbox.delete
cleaned p q c k id over held =
    rw (held, over)
      (
        held,
        has-clear p.process_id p.process_id c k.capabilities ∙ rw (==_refl p.process_id) refl,
        Dict.has-pop p.process_id p.process_id k.mailboxes ∙ rw (==_refl p.process_id) refl,
      )

completed_over : (q : Process) → q.state ≡ ProcessState.completed → is_finished q ≡ true
unfolding is_finished
completed_over q h = ground arith

-- The kernel after the event of the completion.
abbrev told : Process → Process → Event → Kernel → Kernel
told p q started k =
    (publish_event process_completed p.process_id started.correlation_id (some started.event_id)
      (put_process q k)).1

told-holds :
    (p q : Process) (started : Event) (k : Kernel)
    → q.process_id ≡ p.process_id
    → q.state ≡ ProcessState.completed
    → IsKeyed k.process_table
    → (Dict.get p.process_id (told p q started k).process_table ≡ some q)
      × ((told p q started k).cognitive ≡ k.cognitive)
told-holds p q started k id state keyed =
    subst
      (λ i.
        (Dict.get i
            (publish_event process_completed i started.correlation_id (some started.event_id)
              (put_process q k)).1.process_table
          ≡ some q)
        × ((publish_event process_completed i started.correlation_id (some started.event_id)
              (put_process q k)).1.cognitive
            ≡ k.cognitive))
      id
      (published q started.correlation_id (some started.event_id) (put_process q k)
        (ap is_asleep state)
        (Dict.get-put q.process_id q.process_id q k.process_table ∙ rw (==_refl q.process_id) refl)
        (put-IsKeyed q k.process_table keyed))

finish-told :
    (p q : Process) (started : Event) (k : Kernel)
    → Process.complete k.clock (now p k) ≡ returned q
    → find_assigned p.process_id (told p q started k).cognitive.tasks ≡ none
    → finish p started k ≡ (returned tt, told p q started k)
unfolding finish
finish-told p q started k went free =
    rw went (tell_completion-none p.process_id (told p q started k) free)

-- When the body of a process returns within its time: a process that may complete and that no task is
-- assigned to is completed and stays in the table so, and it has no capability and no mailbox any
-- more; this for a table that holds the process, and each process under its own id.
pub after_body-finished :
    (p q : Process) (c : Capability) (started : Event) (start_time : ℕ) (k : Kernel)
    → Process.complete k.clock p ≡ returned q
    → Dict.get p.process_id k.process_table ≡ some p
    → IsKeyed k.process_table
    → check_timeout p.started_at p.budget k.clock ≡ false
    → find_assigned p.process_id k.cognitive.tasks ≡ none
    → ((after_body finished p started start_time k).0 ≡ returned tt)
      × (Dict.get p.process_id (after_body finished p started start_time k).1.process_table
          ≡ some q)
      × (has p.process_id c (after_body finished p started start_time k).1.capabilities ≡ false)
      × (Mailbox.exists p.process_id (after_body finished p started start_time k).1.mailboxes
          ≡ false)
unfolding after_body settle or_fail
after_body-finished p q c started start_time k went held keyed in_time free =
    let used =
      record_execution p.process_id (pos 0) (pos 0) (pos 0) (pos (k.clock - start_time))
        k.recoverable.budgets in
    let k₁ = record k { recoverable = record k.recoverable { budgets = used } } in
    let (id, state) = complete-eq-returned k.clock p q went in
    let (holds, plans) = told-holds p q started k₁ id state keyed in
    let here : now p k₁ ≡ p = now-held p k₁ held in
    let late : check_timeout (now p k₁).started_at p.budget k₁.clock ≡ false =
      ap (λ (x : Process). check_timeout x.started_at p.budget k₁.clock) here ∙ in_time in
    let ended : finish p started k₁ ≡ (returned tt, told p q started k₁) =
      finish-told p q started k₁ (ap (λ x. Process.complete k₁.clock x) here ∙ went)
        (ap (λ m. find_assigned p.process_id m.tasks) plans ∙ free) in
    let clean = cleaned p q c (told p q started k₁) id (completed_over q state) holds in
    rw (late, ended) (refl, clean.0, clean.1, clean.2)
