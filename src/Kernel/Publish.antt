-- ===== src/Kernel/Publish.antt =====
-- emergence/kernel/kernel.py: the publication of a process event to the handlers that the boot code
-- subscribes, the scheduler first and then the supervisor. The bus drops what a handler raises, and
-- goes on with what the handler left.
use emergence_os.Base.{ℕ, Option, none, some}
use emergence_os.Event.{EventType, Event, process_completed, process_failed, process_cancelled}
use emergence_os.Kernel.{Kernel, is_satisfied}
use emergence_os.Kernel.Supervisor.{on_process_failed}
use emergence_os.Kernel.Wake.{event_of, log, wake_process}
use emergence_os.Scheduler.{on_event}

-- The scheduler's handler.
unfoldable pub tell_scheduler : Event → Kernel → Kernel
unfolding on_event
tell_scheduler event k =
    let (outcome, (s, k')) = on_event is_satisfied wake_process event (k.scheduler, k) in
    record k' { scheduler = s }

-- The handlers of an event type. The supervisor is there when the kernel was built with one.
unfoldable pub deliver : EventType → Event → Kernel → Kernel
unfolding tell_scheduler on_process_failed
deliver process_completed event k = tell_scheduler event k
deliver process_failed event k = supervise event.source_process (tell_scheduler event k)
  where
    supervise : Option ℕ → Kernel → Kernel
    supervise none k = k
    supervise (some process_id) k = (on_process_failed process_id k).1
deliver process_cancelled event k = tell_scheduler event k
deliver _ event k = k

-- `_publish_event`
unfoldable pub publish_event :
    EventType → (process_id : ℕ) → (correlation causation : Option ℕ) → Kernel → Event × Kernel
unfolding deliver
publish_event kind process_id correlation causation k =
    let event = event_of kind process_id correlation causation k in
    (event, deliver kind event (log event k))
