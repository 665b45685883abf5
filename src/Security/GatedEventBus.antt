-- ===== src/Security/GatedEventBus.antt =====
-- emergence/security/gated_event_bus.py: the facade of a process to the event bus.
use emergence_os.Base.{ℕ, Outcome, returned, ◌>>=◌}
use emergence_os.Event.{EventType, Event}
use emergence_os.EventBus
use emergence_os.EventBus.{EventBus, HandlerId, Handlers}
use emergence_os.Security.{CapabilityManager, require, event_publish}

module _ {W : Type 0} (call : Handlers W) (manager : CapabilityManager) (pid : ℕ) where
  unfoldable pub publish : Event → EventBus × W → Outcome (EventBus × W)
  publish event s =
      require pid event_publish manager >>= λ _. returned (EventBus.publish call event s)

unfoldable pub subscribe : EventType → HandlerId → EventBus → EventBus
subscribe kind handler bus = EventBus.subscribe kind handler bus

unfoldable pub unsubscribe : EventType → HandlerId → EventBus → EventBus
unsubscribe kind handler bus = EventBus.unsubscribe kind handler bus
