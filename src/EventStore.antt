-- ===== src/EventStore.antt =====
-- emergence/events/event_store.py, without the file of `JsonlEventStore`.
use emergence_os.Base.{
  ℕ, Bool, true, Option, none, some, List, [], ◌∷◌, ◌++◌, length, select, leb, if◌then◌else◌, ◌==◌,
  nat_eq,
}
use emergence_os.Event.{EventType, Event, event_type_eq}

-- `_events`, the oldest first.
abbrev pub EventStore : Type 0
EventStore = List Event

unfoldable pub append : Event → EventStore → EventStore
append event store = store ++ event ∷ []

-- `value == filter`, where no filter accepts everything.
abbrev accepts : Option ℕ → Option ℕ → Bool
accepts none value = true
accepts (some wanted) none = Bool.false
accepts (some wanted) (some value) = value == wanted

abbrev accepts_type : Option EventType → EventType → Bool
accepts_type none value = true
accepts_type (some wanted) value = value == wanted

abbrev is_since : Option ℕ → ℕ → Bool
is_since none timestamp = true
is_since (some since) timestamp = leb since timestamp

unfoldable pub query :
    (event_type : Option EventType) (source_process correlation_id since : Option ℕ)
    → EventStore
    → List Event
unfolding select
query event_type source_process correlation_id since store =
    select (λ e. is_since since e.timestamp)
      (select (λ e. accepts correlation_id e.correlation_id)
        (select (λ e. accepts source_process e.source_process)
          (select (λ e. accepts_type event_type e.event_type) store)))

unfoldable pub replay_from : (since : Option ℕ) → EventStore → List Event
unfolding select
replay_from since store = select (λ e. is_since since e.timestamp) store

unfoldable pub get : ℕ → EventStore → Option Event
get target [] = none
get target (e ∷ store) = if e.event_id == target then some e else get target store

unfoldable pub count : EventStore → ℕ
count store = length store
