-- ===== src/EventBus/Examples.antt =====
-- A bus with two handlers, the first of which raises.
use emergence_os.Base.{ℕ, zero, suc, ◌≡◌, refl, true, false, none, []}
use emergence_os.Base.{nat_eq}
use emergence_os.Base.Bag
use emergence_os.Base.Bag.{Distinct}
use emergence_os.Base.Dict
use emergence_os.Event.{Event, process_failed}
use emergence_os.EventBus.{EventBus, Handlers, clear, handlers_of, subscribe, unsubscribe, publish}
use emergence_os.EventBus.Subscriptions.{IsDistinct, subscribe-IsDistinct}
use emergence_os.EventBus.Delivery.{traced, publish_delivers}

abbrev bus : EventBus
bus = subscribe process_failed 2 (subscribe process_failed 1 clear)

abbrev failure : Event
failure = record {
  event_type = process_failed;
  source_process = none;
  correlation_id = none;
  causation_id = none;
  payload = [];
  attributes = [];
  timestamp = 0;
  event_id = 1;
}

-- Handler 1 unsubscribes handler 2 and raises; handler 2 counts its calls.
abbrev call : Handlers ℕ
call zero event s = (s, false)
call (suc zero) event (b, n) = ((unsubscribe process_failed 2 b, n), true)
call _ event (b, n) = ((b, suc n), false)

second_is_called : (publish call failure (bus, 0)).1 ≡ 1
unfolding publish handlers_of subscribe unsubscribe Dict.get Dict.put Bag.has Bag.remove
second_is_called = refl

publish_delivers_example :
    publish (traced call) failure (bus, (0, []))
    ≡ (let (b, n) = publish call failure (bus, 0) in (b, (n, handlers_of process_failed bus)))
publish_delivers_example = publish_delivers call failure bus 0

clear-IsDistinct : IsDistinct clear
unfolding handlers_of Dict.get
clear-IsDistinct k = tt

bus-IsDistinct : IsDistinct bus
bus-IsDistinct =
    subscribe-IsDistinct process_failed 2 (subscribe process_failed 1 clear)
      (subscribe-IsDistinct process_failed 1 clear clear-IsDistinct)

three_is_new : Bag.has 3 (handlers_of process_failed bus) ≡ false
unfolding handlers_of subscribe Dict.get Dict.put Bag.has
three_is_new = refl
