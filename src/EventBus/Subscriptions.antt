-- ===== src/EventBus/Subscriptions.antt =====
-- Who is subscribed, after any registration or removal.
use emergence_os.Base.{
  ◌≡◌, refl, ◌≢◌, false, Option, none, some, List, [], ◌∷◌, ◌++◌, if◌then◌else◌, arith, inl, inr,
  nat_eq, ◌==◌, ==_refl, ==_ne, Bool-cases,
}
use emergence_os.Base.Bag
use emergence_os.Base.Bag.{Distinct}
use emergence_os.Base.Dict
use emergence_os.Event.{EventType, event_type_eq}
use emergence_os.EventBus.{
  HandlerId, EventBus, or_empty, handlers_of, subscribe, unsubscribe, keep_or_drop,
  unsubscribe_from,
}

handlers_of-put :
    (k j : EventType) (hs : List HandlerId) (bus : EventBus)
    → handlers_of j (Dict.put k hs bus) ≡ (if k == j then hs else handlers_of j bus)
unfolding handlers_of
handlers_of-put k j hs bus = ground (arith, Dict.get-put k j hs bus)

handlers_of-pop :
    (k j : EventType) (bus : EventBus)
    → handlers_of j (Dict.pop k bus) ≡ (if k == j then [] else handlers_of j bus)
unfolding handlers_of
handlers_of-pop k j bus = ground (arith, Dict.get-pop k j bus)

handlers_of-keep_or_drop :
    (k j : EventType) (hs : List HandlerId) (bus : EventBus)
    → handlers_of j (keep_or_drop k hs bus) ≡ (if k == j then hs else handlers_of j bus)
unfolding keep_or_drop
handlers_of-keep_or_drop k j [] bus = handlers_of-pop k j bus
handlers_of-keep_or_drop k j (h ∷ hs) bus = handlers_of-put k j (h ∷ hs) bus

remove_absent : (h : HandlerId) (hs : List HandlerId) → Bag.has h hs ≡ false → Bag.remove h hs ≡ hs
unfolding Bag.has Bag.remove
remove_absent h [] e = refl
remove_absent h (x ∷ hs) e = ground (arith, remove_absent h hs)

handlers_of-unsubscribe_from :
    (k j : EventType) (h : HandlerId) (o : Option (List HandlerId)) (bus : EventBus)
    → Dict.get k bus ≡ o
    → handlers_of j (unsubscribe_from k h o bus)
      ≡ (if k == j then Bag.remove h (or_empty o) else handlers_of j bus)
unfolding unsubscribe_from handlers_of Bag.remove
handlers_of-unsubscribe_from k j h none bus e = ground (arith, event_type_eq.same_iff k j)
handlers_of-unsubscribe_from k j h (some hs) bus e = elim (Bool-cases (Bag.has h hs)) [
  | inl found ↦ rw found (unfold keep_or_drop in handlers_of-keep_or_drop k j (Bag.remove h hs) bus)
  | inr missing ↦
      rw (missing, remove_absent h hs missing) (ground (arith, event_type_eq.same_iff k j))
]

pub handlers_of-unsubscribe :
    (k j : EventType) (h : HandlerId) (bus : EventBus)
    → handlers_of j (unsubscribe k h bus)
      ≡ (if k == j then Bag.remove h (handlers_of k bus) else handlers_of j bus)
unfolding unsubscribe handlers_of
handlers_of-unsubscribe k j h bus = handlers_of-unsubscribe_from k j h (Dict.get k bus) bus refl

pub handlers_of-subscribe :
    (k j : EventType) (h : HandlerId) (bus : EventBus)
    → handlers_of j (subscribe k h bus) ≡ (
        if k == j
        then (if Bag.has h (handlers_of k bus)
            then handlers_of k bus
            else handlers_of k bus ++ h ∷ [])
        else handlers_of j bus)
unfolding subscribe
handlers_of-subscribe k j h bus = handlers_of-put k j _ bus

-- No handler is registered twice for one event type.
abbrev pub IsDistinct : EventBus → Type 0
IsDistinct bus = (k : EventType) → Distinct (handlers_of k bus)

pub subscribe-IsDistinct :
    (k : EventType) (h : HandlerId) (bus : EventBus)
    → IsDistinct bus
    → IsDistinct (subscribe k h bus)
subscribe-IsDistinct k h bus d j = rw handlers_of-subscribe (elim (Bool-cases (k == j)) [
  | inl same ↦ elim (Bool-cases (Bag.has h (handlers_of k bus))) [
    | inl old ↦ rw (same, old) (d k)
    | inr new ↦ rw (same, new) (Bag.Distinct-append_one h (handlers_of k bus) new (d k))
  ]
  | inr other ↦ rw other (d j)
])

pub unsubscribe-IsDistinct :
    (k : EventType) (h : HandlerId) (bus : EventBus)
    → IsDistinct bus
    → IsDistinct (unsubscribe k h bus)
unsubscribe-IsDistinct k h bus d j = rw handlers_of-unsubscribe (elim (Bool-cases (k == j)) [
  | inl same ↦ rw same (Bag.Distinct-remove h (handlers_of k bus) (d k))
  | inr other ↦ rw other (d j)
])

-- On a bus without repetition, a handler that was unsubscribed from an event type is not among the
-- handlers of that type, and the handlers of every other type are as before.
pub has-unsubscribe :
    (k j : EventType) (h : HandlerId) (bus : EventBus)
    → IsDistinct bus
    → (Bag.has h (handlers_of k (unsubscribe k h bus)) ≡ false)
      × (k ≢ j → handlers_of j (unsubscribe k h bus) ≡ handlers_of j bus)
has-unsubscribe k j h bus d = (
  rw (handlers_of-unsubscribe, ==_refl k) (Bag.has-remove_self h (handlers_of k bus) (d k)),
  λ n. rw (handlers_of-unsubscribe, ==_ne k j n) refl,
)

-- Subscribing a new handler and unsubscribing it leaves the handlers of every type as they were.
pub unsubscribe-subscribe :
    (k j : EventType) (h : HandlerId) (bus : EventBus)
    → Bag.has h (handlers_of k bus) ≡ false
    → handlers_of j (unsubscribe k h (subscribe k h bus)) ≡ handlers_of j bus
unsubscribe-subscribe k j h bus new = ground (
  arith,
  ==_refl k,
  event_type_eq.same_iff k j,
  handlers_of-unsubscribe k j h (subscribe k h bus),
  handlers_of-subscribe k k h bus,
  handlers_of-subscribe k j h bus,
  Bag.remove-append_one h (handlers_of k bus),
)
