-- ===== src/Scheduler/Examples.antt =====
-- A scheduler with three processes and Boolean conditions.
use emergence_os.Base.{
  if◌then◌else◌, ◌||◌, some, none, ℕ, ◌+◌, ◌≡◌, refl, Bool, false, not, [], ◌∷◌, returned, Outcome,
  select,
}
use emergence_os.Base.{nat_eq}
use emergence_os.Base.Bag
use emergence_os.Base.Dict
use emergence_os.Base.Int.{pos, neg}
use emergence_os.Scheduler.Waking.{evaluate_waiting-wakes}
use emergence_os.Scheduler.{
  Scheduler, clear, enqueue, add_to_queue, dequeue, mark_waiting, contains, queued_ids,
  evaluate_waiting, notify_completed,
}
use emergence_os.Scheduler.Queue.{heappush, heapify, earlier}
use emergence_os.Scheduler.Invariant.{WellFormed, clear-WellFormed, enqueue-WellFormed}
use emergence_os.Scheduler.Runs.{initial, next, enqueued, marked, evaluated, Reachable-WellFormed}
use emergence_os.Scheduler.Priority.{IsFirst, dequeue-IsFirst, IsPlaced, enqueue-IsPlaced}

-- A condition is a number, which the world has to reach.
abbrev reached : ℕ → ℕ → Bool
reached n w = not (Bag.has n (w ∷ []))

abbrev no_wake : ℕ → ℕ → Outcome (Unit {0}) × ℕ
no_wake pid w = (returned tt, w)

abbrev two : Scheduler ℕ
two = enqueue 12 (pos 5) [] (enqueue 11 (pos 1) [] clear)

abbrev three : Scheduler ℕ
three = enqueue 13 (pos 5) [] two

opened : Unit {0}
unfolding enqueue add_to_queue dequeue mark_waiting contains queued_ids evaluate_waiting
    notify_completed heappush heapify earlier neg select Bag.has Bag.add Bag.discard Dict.has
    Dict.put Dict.get Dict.pop
opened = tt

-- The higher priority first, and equal priorities in the order of arrival.
order : queued_ids three ≡ 12 ∷ 13 ∷ 11 ∷ []
unfolding opened
order = refl

-- A process that depends on another comes into the queue when that one has completed.
released : queued_ids (notify_completed 12 (enqueue 14 (pos 9) (12 ∷ []) two)).1 ≡ 14 ∷ 12 ∷ 11 ∷ []
unfolding opened
released = refl

woken : (evaluate_waiting reached no_wake (mark_waiting 12 3 two, 4)).0 ≡ returned (12 ∷ [])
unfolding opened
woken = refl

two-WellFormed : WellFormed two
two-WellFormed =
    enqueue-WellFormed 12 (pos 5) [] _ (enqueue-WellFormed 11 (pos 1) [] clear clear-WellFormed)

Reachable-WellFormed_example :
    WellFormed (evaluate_waiting reached no_wake (mark_waiting 12 3 two, 4)).1.0
Reachable-WellFormed_example = Reachable-WellFormed reached no_wake (
    next
      (next (next (next (initial 4) (enqueued 11 (pos 1) [] clear 4)) (enqueued 12 (pos 5) [] _ 4))
        (marked 12 3 two 4))
      (evaluated (mark_waiting 12 3 two) 4))

abbrev rest : Scheduler ℕ
rest = record (enqueue 11 (pos 1) [] clear) { seq = 2; priorities = (11, pos 1) ∷ (12, pos 5) ∷ [] }

twelve_first : dequeue two ≡ returned (12, rest)
unfolding opened
twelve_first = refl

dequeue-IsFirst_example : IsFirst 12 two rest
dequeue-IsFirst_example = dequeue-IsFirst two rest 12 two-WellFormed twelve_first

thirteen_is_new : (contains 13 two ≡ false) × (Dict.has 13 two.waiting ≡ false)
unfolding opened
thirteen_is_new = (refl, refl)

enqueue-IsPlaced_example :
    IsPlaced (record { key = neg (pos 5); seq = two.seq + 1; pid = 13 }) two.queue three.queue
enqueue-IsPlaced_example =
    enqueue-IsPlaced 13 (pos 5) two two-WellFormed thirteen_is_new.0 thirteen_is_new.1

-- Process 12 waits until the count 3 is reached.
abbrev one_waits : Scheduler ℕ
one_waits = record clear { waiting = (12, 3) ∷ [] }

twelve_waits : Dict.get 12 one_waits.waiting ≡ some 3
unfolding Dict.get
twelve_waits = refl

evaluate_waiting-wakes_example :
    (Dict.get 12 (evaluate_waiting reached no_wake (one_waits, 3)).1.0.waiting
      ≡ (if reached 3 3 then none else some 3))
    × (contains 12 (evaluate_waiting reached no_wake (one_waits, 3)).1.0
        ≡ (reached 3 3 || contains 12 one_waits))
evaluate_waiting-wakes_example =
    evaluate_waiting-wakes reached no_wake (λ p w. refl) (λ c p w. refl) 12 3 one_waits 3
      twelve_waits ((λ same. refl), tt)
