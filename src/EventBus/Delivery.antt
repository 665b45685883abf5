-- ===== src/EventBus/Delivery.antt =====
-- Whom an event reaches.
use emergence_os.Base.{◌≡◌, refl, List, [], ◌∷◌, ◌++◌}
use mathlib.Core.List.{append-nil, append_assoc}
use emergence_os.Event.{Event}
use emergence_os.EventBus.{HandlerId, EventBus, Handlers, handlers_of, deliver, publish}

module _ {W : Type 0} (call : Handlers W) where
  -- The handlers, with a log of which of them were called.
  abbrev pub traced : Handlers (W × List HandlerId)
  traced h event (bus, (w, log)) =
      let ((bus', w'), failed) = call h event (bus, w) in ((bus', (w', log ++ h ∷ [])), failed)

  deliver-traced :
      (handlers : List HandlerId) (event : Event) (bus : EventBus) (w : W) (log : List HandlerId)
      → deliver traced handlers event (bus, (w, log))
        ≡ (let (bus', w') = deliver call handlers event (bus, w) in (bus', (w', log ++ handlers)))
  unfolding deliver
  deliver-traced [] event bus w log = rw append-nil refl
  deliver-traced (h ∷ handlers) event bus w log =
      let ((bus', w'), failed) = call h event (bus, w) in
      rw (← append_assoc log (h ∷ []) handlers)
        (deliver-traced handlers event bus' w' (log ++ h ∷ []))

  -- Whatever the handlers do, an event is given to exactly the handlers that were subscribed to its
  -- type when it was published, each once and in the order of registration: also if some of them
  -- raise, subscribe or unsubscribe. The log has no influence on the rest of the state.
  pub publish_delivers :
      (event : Event) (bus : EventBus) (w : W)
      → publish traced event (bus, (w, [])) ≡ (
          let (bus', w') = publish call event (bus, w) in
          (bus', (w', handlers_of event.event_type bus)))
  unfolding publish
  publish_delivers event bus w = deliver-traced (handlers_of event.event_type bus) event bus w []
