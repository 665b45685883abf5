-- ===== src/Scheduler/Runs.antt =====
-- Everything that can happen to the scheduler of emergence/scheduler/scheduler.py, in any order.
use emergence_os.Base.{
  ℕ, ◌≡◌, Bool, Option, none, some, List, [], ◌∷◌, Outcome, returned, raised, nat_eq, inl, inr,
  Bool-cases,
}
use emergence_os.Base.Dict.{Dict}
use emergence_os.Base.Int.{ℤ}
use emergence_os.Event.{Event}
use emergence_os.Scheduler.{
  Scheduler, clear, enqueue, dequeue, mark_waiting, notify_completed, wake_all, evaluate_waiting,
  notify_source, on_event, unless_raised, finish_event, is_terminal_event,
}
use emergence_os.Scheduler.Invariant.{
  WellFormed, clear-WellFormed, enqueue-WellFormed, mark_waiting-WellFormed, dequeue-WellFormed,
  notify_completed-WellFormed, requeue-WellFormed,
}

module _ {C : Type 0} where
  notify_source-WellFormed :
      (source : Option ℕ) (s : Scheduler C) → WellFormed s → WellFormed (notify_source source s)
  unfolding notify_source
  notify_source-WellFormed none s v = v
  notify_source-WellFormed (some source) s v =
      unfold notify_completed in notify_completed-WellFormed source s v

  finish_event-WellFormed :
      {W : Type 0} (o : Outcome (List ℕ)) (event : Event) (s : Scheduler C) (w : W)
      → WellFormed s
      → WellFormed (finish_event o event s w).1.0
  unfolding finish_event
  finish_event-WellFormed (raised e) event s w v = v
  finish_event-WellFormed (returned _) event s w v =
      elim (Bool-cases (is_terminal_event event.event_type)) [
        | inl terminal ↦ rw terminal (notify_source-WellFormed event.source_process s v)
        | inr other ↦ rw other v
      ]

module _ {C W : Type 0} (is_satisfied : C → W → Bool)
    (on_wake : ℕ → W → Outcome (Unit {0}) × W) where
  wake_all-WellFormed :
      (items : Dict ℕ C) (woken : List ℕ) (s : Scheduler C) (w : W)
      → WellFormed s
      → WellFormed (wake_all is_satisfied on_wake items woken (s, w)).1.0
  unfolding wake_all
  wake_all-WellFormed [] woken s w v = v
  wake_all-WellFormed ((pid, condition) ∷ items) woken s w v =
      let v' = requeue-WellFormed pid s v in
      elim (Bool-cases (is_satisfied condition w)) [
        | inl met ↦ rw met (resumed (on_wake pid w).0 _ _ (wake_all-WellFormed items _ _ _ v') v')
        | inr unmet ↦ rw unmet (wake_all-WellFormed items woken s w v)
      ]
    where
      resumed :
          (o : Outcome (Unit {0})) (r : Outcome (List ℕ) × (Scheduler C × W))
          (stopped : Scheduler C × W)
          → WellFormed r.1.0
          → WellFormed stopped.0
          → WellFormed (unless_raised o r stopped).1.0
      resumed (returned _) r stopped a b = a
      resumed (raised e) r stopped a b = b

  pub evaluate_waiting-WellFormed :
      (s : Scheduler C) (w : W)
      → WellFormed s
      → WellFormed (evaluate_waiting is_satisfied on_wake (s, w)).1.0
  unfolding evaluate_waiting
  evaluate_waiting-WellFormed s w v = wake_all-WellFormed s.waiting [] s w v

  pub on_event-WellFormed :
      (event : Event) (s : Scheduler C) (w : W)
      → WellFormed s
      → WellFormed (on_event is_satisfied on_wake event (s, w)).1.0
  unfolding on_event
  on_event-WellFormed event s w v =
      let (outcome, (s', w')) = evaluate_waiting is_satisfied on_wake (s, w) in
      finish_event-WellFormed outcome event s' w' (evaluate_waiting-WellFormed s w v)

  -- What can happen to a scheduler and the world around it. A dequeue of an empty queue raises and
  -- changes nothing.
  pub data Step : Scheduler C × W → Scheduler C × W → Type 0 where
    enqueued :
        (pid : ℕ) (priority : ℤ) (deps : List ℕ) (s : Scheduler C) (w : W)
        → Step (s, w) (enqueue pid priority deps s, w)
    dequeued :
        (pid : ℕ) (s s' : Scheduler C) (w : W)
        → dequeue s ≡ returned (pid, s')
        → Step (s, w) (s', w)
    marked : (pid : ℕ) (c : C) (s : Scheduler C) (w : W) → Step (s, w) (mark_waiting pid c s, w)
    evaluated :
        (s : Scheduler C) (w : W) → Step (s, w) (evaluate_waiting is_satisfied on_wake (s, w)).1
    completed : (pid : ℕ) (s : Scheduler C) (w : W) → Step (s, w) ((notify_completed pid s).1, w)
    received :
        (event : Event) (s : Scheduler C) (w : W)
        → Step (s, w) (on_event is_satisfied on_wake event (s, w)).1
    cleared : (s : Scheduler C) (w : W) → Step (s, w) (clear, w)
    world_changed : (s : Scheduler C) (w w' : W) → Step (s, w) (s, w')

  pub data Reachable : Scheduler C × W → Type 0 where
    initial : (w : W) → Reachable (clear, w)
    next : {x y : Scheduler C × W} → Reachable x → Step x y → Reachable y

  Step-WellFormed : {x y : Scheduler C × W} → Step x y → WellFormed x.0 → WellFormed y.0
  Step-WellFormed (enqueued pid priority deps s w) v = enqueue-WellFormed pid priority deps s v
  Step-WellFormed (dequeued pid s s' w h) v = dequeue-WellFormed s s' pid v h
  Step-WellFormed (marked pid c s w) v = mark_waiting-WellFormed pid c s v
  Step-WellFormed (evaluated s w) v = evaluate_waiting-WellFormed s w v
  Step-WellFormed (completed pid s w) v = notify_completed-WellFormed pid s v
  Step-WellFormed (received event s w) v = on_event-WellFormed event s w v
  Step-WellFormed (cleared s w) v = clear-WellFormed
  Step-WellFormed (world_changed s w w') v = v

  -- Every scheduler that any sequence of operations, events and changes of the world can produce is
  -- well formed.
  pub Reachable-WellFormed : {x : Scheduler C × W} → Reachable x → WellFormed x.0
  Reachable-WellFormed (initial w) = clear-WellFormed
  Reachable-WellFormed (next r st) = Step-WellFormed st (Reachable-WellFormed r)
