-- ===== src/Runtime/Presence.antt =====
-- No part of emergence/kernel/kernel.py takes a process out of the table.
use emergence_os.Base.{
  ℕ, ◌≡◌, refl, ap, sym, ◌∙◌, subst, Bool, true, false, Option, none, some, Outcome, returned,
  raised, process_not_found, if◌then◌else◌, ◌==◌, nat_eq, Bool-cases, inl, inr,
}
use emergence_os.Base.Dict
use emergence_os.Event.{process_cancelled, process_ready}
use emergence_os.Kernel.{Kernel, put_process, is_satisfied, and_then, change}
use emergence_os.Kernel.Dispatch.{cleanup_process, cleanup_found}
use emergence_os.Kernel.Kept.{IsKeyed, put-IsKeyed}
use emergence_os.Kernel.Publish.{publish_event, deliver, tell_scheduler}
use emergence_os.Kernel.Wake.{event_of, log, is_asleep, wake_process, wake_found}
use emergence_os.Process
use emergence_os.Process.{Process, is_finished}
use emergence_os.Registries.{or_raise}
use emergence_os.Registries.ProcessTable
use emergence_os.Runtime.{announce_cancelled, fail_over, cancel_over, cancel_found}
use emergence_os.Scheduler.World.{on_event-keeps}

-- The table holds a process under the id, and each process under its own id.
pub record IsPresent (i : ℕ) (k : Kernel) : Type 0 where
  pub process : Process
  pub held : Dict.get i k.process_table ≡ some process
  pub keyed : IsKeyed k.process_table

elsewhere-IsPresent :
    (i : ℕ) (k k' : Kernel) → k'.process_table ≡ k.process_table → IsPresent i k → IsPresent i k'
elsewhere-IsPresent i k k' same h = record {
  process = h.process;
  held = ap (λ d. Dict.get i d) same ∙ h.held;
  keyed = subst (λ d. IsKeyed d) (sym same) h.keyed;
}

put-IsPresent : (i : ℕ) (q : Process) (k : Kernel) → IsPresent i k → IsPresent i (put_process q k)
put-IsPresent i q k h = elim (Bool-cases (q.process_id == i)) [
  | inl same ↦ record {
    process = q;
    held = Dict.get-put q.process_id i q k.process_table ∙ rw same refl;
    keyed = put-IsKeyed q k.process_table h.keyed;
  }
  | inr other ↦ record {
    process = h.process;
    held = Dict.get-put q.process_id i q k.process_table ∙ if_false (q.process_id == i) other;
    keyed = put-IsKeyed q k.process_table h.keyed;
  }
]
  where
    if_false :
        (b : Bool) → b ≡ false → (if b then some q else Dict.get i k.process_table) ≡ some h.process
    if_false true off = cc
    if_false false off = h.held

wake_found-IsPresent :
    (b : Bool) (i : ℕ) (q : Process) (k : Kernel) → IsPresent i k → IsPresent i (wake_found b q k).1
unfolding wake_found
wake_found-IsPresent false i q k h = h
wake_found-IsPresent true i q k h = by_outcome (Process.wake k.clock q)
  where
    by_outcome :
        (o : Outcome Process)
        → IsPresent i
            (and_then
              (change o k)
              λ r k₁. (returned tt, log (event_of process_ready r.process_id none none k₁) k₁)).1
    by_outcome (raised e) = h
    by_outcome (returned r) = elsewhere-IsPresent i (put_process r k) _ refl (put-IsPresent i r k h)

wake_process-IsPresent : (i j : ℕ) (k : Kernel) → IsPresent i k → IsPresent i (wake_process j k).1
unfolding wake_process ProcessTable.get
wake_process-IsPresent i j k h = by_entry (Dict.get j k.process_table)
  where
    by_entry :
        (o : Option Process)
        → IsPresent i
            (and_then
              (or_raise process_not_found o, k)
              λ q k₁. wake_found (is_asleep q.state) q k₁).1
    by_entry none = h
    by_entry (some q) = wake_found-IsPresent (is_asleep q.state) i q k h

published-IsPresent :
    (i j : ℕ) (k : Kernel)
    → IsPresent i k
    → IsPresent i (publish_event process_cancelled j none none k).1
unfolding publish_event deliver tell_scheduler
published-IsPresent i j k h =
    let event = event_of process_cancelled j none none k in
    elsewhere-IsPresent i _ _ refl (
      on_event-keeps is_satisfied wake_process (IsPresent i) (λ p w. wake_process-IsPresent i p w)
        event k.scheduler (log event k) (elsewhere-IsPresent i k (log event k) refl h))

cleanup_found-IsPresent :
    (c : Bool) (i j : ℕ) (k : Kernel) → IsPresent i k → IsPresent i (cleanup_found c j k)
unfolding cleanup_found
cleanup_found-IsPresent true i j k h = elsewhere-IsPresent i k _ refl h
cleanup_found-IsPresent false i j k h = h

announced-IsPresent :
    (i : ℕ) (q : Process) (k : Kernel) → IsPresent i k → IsPresent i (announce_cancelled q k)
unfolding announce_cancelled cleanup_process
announced-IsPresent i q k h =
    cleanup_found-IsPresent _ i q.process_id _
      (published-IsPresent i q.process_id (put_process q k) (put-IsPresent i q k h))

fail_over-IsPresent :
    (i : ℕ) (o : Outcome Process) (p : Process) (k : Kernel)
    → IsPresent i k
    → IsPresent i (fail_over o p k).1
unfolding fail_over
fail_over-IsPresent i (returned q) p k h = announced-IsPresent i q k h
fail_over-IsPresent i (raised e) p k h = h

cancel_over-IsPresent :
    (i : ℕ) (o : Outcome Process) (p : Process) (k : Kernel)
    → IsPresent i k
    → IsPresent i (cancel_over o p k).1
unfolding cancel_over
cancel_over-IsPresent i (returned q) p k h = announced-IsPresent i q k h
cancel_over-IsPresent i (raised e) p k h =
    fail_over-IsPresent i (Process.fail (some "cancelled") k.clock p) p k h

pub cancel_found-IsPresent :
    (i : ℕ) (o : Option Process) (k : Kernel) → IsPresent i k → IsPresent i (cancel_found o k).1
unfolding cancel_found
cancel_found-IsPresent i none k h = h
cancel_found-IsPresent i (some p) k h = elim (Bool-cases (is_finished p)) [
  | inl done ↦ rw done h
  | inr live ↦ rw live (cancel_over-IsPresent i (Process.cancel k.clock p) p k h)
]
