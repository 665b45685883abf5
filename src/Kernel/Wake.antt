-- ===== src/Kernel/Wake.antt =====
-- emergence/kernel/kernel.py: the log of the events, and the waking of processes by the scheduler.
use emergence_os.Base.{
  ℕ, Bool, true, false, Option, none, some, List, [], ◌∷◌, ◌++◌, ◌+◌, returned, nat_eq,
}
use emergence_os.Event.{EventType, Event, process_ready}
use emergence_os.Kernel.{Kernel, Did, and_then, change, is_satisfied}
use emergence_os.Process
use emergence_os.Process.{Process}
use emergence_os.Registries.ProcessTable
use emergence_os.Scheduler.{evaluate_waiting}
use emergence_os.State.{ProcessState}

-- The event of `_publish_event`.
abbrev pub event_of :
    EventType → (process_id : ℕ) → (correlation causation : Option ℕ) → Kernel → Event
event_of kind process_id correlation causation k = record {
  event_type = kind;
  source_process = some process_id;
  correlation_id = correlation;
  causation_id = causation;
  payload = [];
  attributes = [];
  timestamp = k.clock;
  event_id = k.next_id;
}

-- An event enters the log. The text of an error, its payload, is left out.
abbrev pub log : Event → Kernel → Kernel
log event k = record k {
  published = k.published ++ event ∷ [];
  event_count = k.event_count + 1;
  next_id = k.next_id + 1;
}

-- The states from which a process is woken.
abbrev pub is_asleep : ProcessState → Bool
is_asleep ProcessState.waiting = true
is_asleep ProcessState.blocked = true
is_asleep _ = false

-- `_wake_process` for a process that was found. No part of the kernel handles PROCESS_READY.
unfoldable pub wake_found : Bool → Process → Kernel → Did (Unit {0})
wake_found false p k = (returned tt, k)
wake_found true p k =
    and_then (change (Process.wake k.clock p) k)
      λ q k₁. (returned tt, log (event_of process_ready q.process_id none none k₁) k₁)

unfoldable pub wake_process : (process_id : ℕ) → Kernel → Did (Unit {0})
unfolding wake_found
wake_process process_id k =
    and_then (ProcessTable.get process_id k.process_table, k)
      λ p k₁. wake_found (is_asleep p.state) p k₁

-- `scheduler.evaluate_waiting()` with the kernel's callback.
unfoldable pub evaluate : Kernel → Did (List ℕ)
unfolding evaluate_waiting wake_process is_satisfied
evaluate k =
    let (outcome, (s, k')) = evaluate_waiting is_satisfied wake_process (k.scheduler, k) in
    (outcome, record k' { scheduler = s })
