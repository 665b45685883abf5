-- ===== src/Event.antt =====
-- emergence/core/event.py, and the event subclasses that the state store publishes
-- (emergence/events/state_created_event.py, state_changed_event.py, state_deleted_event.py).
mod Kind
unfoldable pub use Kind.*
use emergence_os.Base.{ℕ, String, Bool, Option, none, some, [], ◌∷◌}
use emergence_os.Base.Dict.{Dict}
use emergence_os.Base.Value.{Value, text}

-- `attributes` holds the fields that a subclass adds, by name. Identifiers are numbers, drawn by
-- the caller in place of `uuid4`, and points in time are microseconds.
pub record Event : Type 0 where
  pub event_type : EventType
  pub source_process : Option ℕ
  pub correlation_id : Option ℕ
  pub causation_id : Option ℕ
  pub payload : Dict String Value
  pub attributes : Dict String Value
  pub timestamp : ℕ
  pub event_id : ℕ

-- The fields of an event that the constructor draws itself.
pub record Stamp : Type 0 where
  pub timestamp : ℕ
  pub event_id : ℕ

-- An event of a subclass, made with its attributes alone.
abbrev pub attribute_event : EventType → Dict String Value → Stamp → Event
attribute_event kind attributes stamp = record {
  event_type = kind;
  source_process = none;
  correlation_id = none;
  causation_id = none;
  payload = [];
  attributes = attributes;
  timestamp = stamp.timestamp;
  event_id = stamp.event_id;
}

unfoldable pub state_created_event : String → Value → Stamp → Event
state_created_event key value =
    attribute_event state_created (("key", text key) ∷ ("value", value) ∷ [])

unfoldable pub state_changed_event : String → (old_value new_value : Value) → Stamp → Event
state_changed_event key old_value new_value =
    attribute_event state_changed
      (("key", text key) ∷ ("old_value", old_value) ∷ ("new_value", new_value) ∷ [])

unfoldable pub state_deleted_event : String → (old_value : Value) → Stamp → Event
state_deleted_event key old_value =
    attribute_event state_deleted (("key", text key) ∷ ("old_value", old_value) ∷ [])
