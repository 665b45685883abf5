-- ===== src/Replay.antt =====
-- emergence/events/replay.py
pub mod Rebuild
mod Examples
use emergence_os.Base.{ℕ, ◌+◌, String, Bool, Option, none, some, List, [], ◌∷◌, string_eq, nat_eq}
use emergence_os.Base.Dict
use emergence_os.Base.Dict.{Dict}
use emergence_os.Base.Value.{Value, none_value, text, py_or}
use emergence_os.State.{ProcessState}
use emergence_os.Event.{
  EventType, Event, process_created, process_ready, process_started, process_waiting,
  process_completed, process_failed, process_cancelled, state_created, state_changed, state_deleted,
}
use emergence_os.EventStore.{EventStore, replay_from}

pub record ReplaySnapshot : Type 0 where
  pub state : Dict String Value
  pub process_states : Dict ℕ ProcessState
  pub event_count : ℕ

abbrev pub new_snapshot : ReplaySnapshot
new_snapshot = record { state = []; process_states = []; event_count = 0 }

-- The state that an event of a process reports.
abbrev pub reported : EventType → Option ProcessState
reported process_created = some ProcessState.created
reported process_ready = some ProcessState.ready
reported process_started = some ProcessState.running
reported process_waiting = some ProcessState.waiting
reported process_completed = some ProcessState.completed
reported process_failed = some ProcessState.failed
reported process_cancelled = some ProcessState.cancelled
reported _ = none

report : Option ProcessState → Option ℕ → ReplaySnapshot → ReplaySnapshot
report (some state) (some pid) snapshot = record snapshot {
  process_states = Dict.put pid state snapshot.process_states;
}
report _ _ snapshot = snapshot

-- `getattr(event, name, None) or event.payload.get(name)`
unfoldable pub field_of : String → Event → Option Value
unfolding py_or
field_of name event = py_or (Dict.get name event.attributes) (Dict.get name event.payload)

-- `None` where the payload has no such key either.
abbrev or_none_value : Option Value → Value
or_none_value none = none_value
or_none_value (some v) = v

-- A key of the snapshot: only a text can be one here, and `None` leaves the snapshot alone.
store_at : Option Value → Value → ReplaySnapshot → ReplaySnapshot
store_at (some (text key)) value snapshot = record snapshot {
  state = Dict.put key value snapshot.state;
}
store_at _ value snapshot = snapshot

drop_at : Option Value → ReplaySnapshot → ReplaySnapshot
drop_at (some (text key)) snapshot = record snapshot { state = Dict.pop key snapshot.state }
drop_at _ snapshot = snapshot

apply_state : EventType → Event → ReplaySnapshot → ReplaySnapshot
unfolding store_at drop_at field_of
apply_state state_created event snapshot =
    store_at (field_of "key" event) (or_none_value (field_of "value" event)) snapshot
apply_state state_changed event snapshot =
    store_at (field_of "key" event) (or_none_value (field_of "new_value" event)) snapshot
apply_state state_deleted event snapshot = drop_at (field_of "key" event) snapshot
apply_state _ event snapshot = snapshot

-- `_apply`
unfoldable pub apply : Event → ReplaySnapshot → ReplaySnapshot
unfolding apply_state report
apply event snapshot =
    apply_state event.event_type event
      (report (reported event.event_type) event.source_process snapshot)

-- The loop of `replay`.
unfoldable pub replay_onto : List Event → ReplaySnapshot → ReplaySnapshot
replay_onto [] snapshot = snapshot
replay_onto (event ∷ events) snapshot =
    replay_onto events (apply event (record snapshot { event_count = snapshot.event_count + 1 }))

unfoldable pub replay : (since : Option ℕ) → EventStore → ReplaySnapshot
unfolding replay_onto apply replay_from
replay since store = replay_onto (replay_from since store) new_snapshot
