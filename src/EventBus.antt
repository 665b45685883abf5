-- ===== src/EventBus.antt =====
-- emergence/events/event_bus.py
-- The bus: handlers by event type, in the order of registration. A handler is known by a number,
-- and what it does when it is called is a parameter of `publish`.
pub mod Subscriptions
pub mod Delivery
mod Examples
use emergence_os.Base.{
  ℕ, ◌+◌, Bool, Option, none, some, is_some, List, [], ◌∷◌, ◌++◌, length, if◌then◌else◌, nat_eq,
}
use emergence_os.Base.Bag
use emergence_os.Base.Dict
use emergence_os.Base.Dict.{Dict}
use emergence_os.Event.{EventType, Event, event_type_eq}

abbrev pub HandlerId : Type 0
HandlerId = ℕ

-- `_subscribers`
abbrev pub EventBus : Type 0
EventBus = Dict EventType (List HandlerId)

-- The constructor, and the state that `clear` leaves.
abbrev pub clear : EventBus
clear = []

abbrev pub or_empty : Option (List HandlerId) → List HandlerId
or_empty none = []
or_empty (some handlers) = handlers

-- `self._subscribers.get(event_type, [])`
unfoldable pub handlers_of : EventType → EventBus → List HandlerId
handlers_of kind bus = or_empty (Dict.get kind bus)

unfoldable pub subscribe : EventType → HandlerId → EventBus → EventBus
subscribe kind handler bus =
    let handlers = handlers_of kind bus in
    Dict.put kind (if Bag.has handler handlers then handlers else handlers ++ handler ∷ []) bus

-- The dictionary after a removal that leaves `handlers`: an empty list goes.
keep_or_drop : EventType → List HandlerId → EventBus → EventBus
keep_or_drop kind [] bus = Dict.pop kind bus
keep_or_drop kind (h ∷ handlers) bus = Dict.put kind (h ∷ handlers) bus

unsubscribe_from : EventType → HandlerId → Option (List HandlerId) → EventBus → EventBus
unfolding keep_or_drop
unsubscribe_from kind handler none bus = bus
unsubscribe_from kind handler (some handlers) bus =
    if Bag.has handler handlers then keep_or_drop kind (Bag.remove handler handlers) bus else bus

unfoldable pub unsubscribe : EventType → HandlerId → EventBus → EventBus
unfolding unsubscribe_from
unsubscribe kind handler bus = unsubscribe_from kind handler (Dict.get kind bus) bus

unfoldable pub has_subscribers : EventType → EventBus → Bool
unfolding handlers_of
has_subscribers kind bus = elim (handlers_of kind bus) [ [] ↦ Bool.false | _ ∷ _ ↦ Bool.true ]

unfoldable pub subscriber_count : EventType → EventBus → ℕ
unfolding handlers_of
subscriber_count kind bus = length (handlers_of kind bus)

-- `__len__`
unfoldable pub total : EventBus → ℕ
total [] = 0
total ((kind, handlers) ∷ bus) = length handlers + total bus

-- `call` runs a handler on an event: it may change the bus and the rest of the system, and the
-- flag says whether it raised.
abbrev pub Handlers : Type 0 → Type 0
Handlers W = HandlerId → Event → EventBus × W → (EventBus × W) × Bool

module _ {W : Type 0} (call : Handlers W) where
  -- The loop of `publish`, over the copy of the handlers; what a handler raises is dropped.
  unfoldable pub deliver : List HandlerId → Event → EventBus × W → EventBus × W
  deliver [] event s = s
  deliver (h ∷ handlers) event s = deliver handlers event (call h event s).0

  unfoldable pub publish : Event → EventBus × W → EventBus × W
  unfolding deliver
  publish event s = deliver (handlers_of event.event_type s.0) event s
