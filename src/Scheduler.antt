-- ===== src/Scheduler.antt =====
-- emergence/scheduler/scheduler.py
pub mod Queue
pub mod Invariant
pub mod Runs
pub mod World
pub mod Waking
mod Examples
pub mod Priority
pub use Queue.{Entry}
unfoldable pub use Queue.{heappush, heapify}
use emergence_os.Base.{
  ℕ, zero, suc, ◌+◌, Bool, true, false, Option, none, some, List, [], ◌∷◌, ◌++◌, map, Outcome,
  returned, raised, Error, scheduler_empty, select, not, length, if◌then◌else◌, ◌==◌, nat_eq,
}
use emergence_os.Base.Bag
use emergence_os.Base.Dict
use emergence_os.Base.Dict.{Dict}
use emergence_os.Base.Int.{ℤ, pos, neg}
use emergence_os.Event.{EventType, Event, process_completed, process_failed, process_cancelled}

-- The fields of the scheduler. `C` is the type of wait conditions.
pub record Scheduler (C : Type 0) : Type 0 where
  pub queue : List Entry
  pub seq : ℕ
  pub membership : List ℕ
  pub priorities : Dict ℕ ℤ
  pub waiting : Dict ℕ C
  pub pending_deps : Dict ℕ (List ℕ)

or_zero : Option ℤ → ℤ
or_zero none = pos 0
or_zero (some priority) = priority

-- set(xs)
unfoldable pub set_of : List ℕ → List ℕ
unfolding Bag.add Bag.has
set_of [] = []
set_of (x ∷ xs) = Bag.add x (set_of xs)

-- The terminal event types of `_on_event`.
abbrev pub is_terminal_event : EventType → Bool
is_terminal_event process_completed = true
is_terminal_event process_failed = true
is_terminal_event process_cancelled = true
is_terminal_event _ = false

-- `released.append(pid)` where nothing is left to wait for.
abbrev pid_if_empty : ℕ → List ℕ → List ℕ
pid_if_empty pid [] = pid ∷ []
pid_if_empty pid (d ∷ deps) = []

-- A callback that raises ends the loop of `evaluate_waiting` with what was done so far.
abbrev unless_raised {ℓ} : {A S : Type ℓ} → Outcome (Unit {0}) → Outcome A × S → S → Outcome A × S
unless_raised (returned _) went_on stopped = went_on
unless_raised (raised e) went_on stopped = (raised e, stopped)

module _ {C : Type 0} where
  -- The fields that the constructor sets, and the state that `clear` leaves.
  abbrev pub clear : Scheduler C
  clear = record {
    queue = [];
    seq = 0;
    membership = [];
    priorities = [];
    waiting = [];
    pending_deps = [];
  }

  unfoldable pub add_to_queue : ℕ → ℤ → Scheduler C → Scheduler C
  add_to_queue pid priority s =
      if Bag.has pid s.membership then s else if Dict.has pid s.waiting then s else record s {
        seq = s.seq + 1;
        queue = heappush (record { key = neg priority; seq = s.seq + 1; pid = pid }) s.queue;
        membership = Bag.add pid s.membership;
      }

  -- `self._priorities.get(pid, 0)`
  unfoldable pub priority_of : ℕ → Scheduler C → ℤ
  unfolding or_zero
  priority_of pid s = or_zero (Dict.get pid s.priorities)

  -- What `enqueue` does once the priority is stored, by `depends_on`.
  defer_or_add : ℕ → ℤ → List ℕ → Scheduler C → Scheduler C
  unfolding set_of
  defer_or_add pid priority [] s = add_to_queue pid priority s
  defer_or_add pid priority (d ∷ deps) s = record s {
    pending_deps = Dict.put pid (set_of (d ∷ deps)) s.pending_deps;
  }

  unfoldable pub enqueue : ℕ → ℤ → List ℕ → Scheduler C → Scheduler C
  unfolding defer_or_add
  enqueue pid priority depends_on s =
      defer_or_add pid priority depends_on
        (record s { priorities = Dict.put pid priority s.priorities })

  pop_first : List Entry → Scheduler C → Outcome (ℕ × Scheduler C)
  pop_first [] s = raised scheduler_empty
  pop_first (e ∷ queue) s =
      returned (e.pid, record s { queue = queue; membership = Bag.discard e.pid s.membership })

  unfoldable pub dequeue : Scheduler C → Outcome (ℕ × Scheduler C)
  unfolding pop_first
  dequeue s = pop_first s.queue s

  unfoldable pub peek : Scheduler C → Outcome ℕ
  peek s = elim s.queue [ [] ↦ raised scheduler_empty | e ∷ _ ↦ returned e.pid ]

  unfoldable pub mark_waiting : ℕ → C → Scheduler C → Scheduler C
  mark_waiting pid condition s = record s {
    waiting = Dict.put pid condition s.waiting;
    membership = Bag.discard pid s.membership;
    queue = heapify (select (λ e. not (e.pid == pid)) s.queue);
  }

  abbrev pub is_waiting : ℕ → Scheduler C → Bool
  is_waiting pid s = Dict.has pid s.waiting

  -- The two branches of the loop of `notify_completed`, by what is left of the dependencies.
  release_or_keep : ℕ → List ℕ → Scheduler C → Scheduler C
  unfolding add_to_queue priority_of
  release_or_keep pid [] s =
      add_to_queue pid (priority_of pid s) (record s { pending_deps = Dict.pop pid s.pending_deps })
  release_or_keep pid (d ∷ deps) s = record s {
    pending_deps = Dict.put pid (d ∷ deps) s.pending_deps;
  }

  -- The loop of `notify_completed`, over the copy of the items.
  release_all : ℕ → Dict ℕ (List ℕ) → Scheduler C → List ℕ × Scheduler C
  unfolding release_or_keep
  release_all done [] s = ([], s)
  release_all done ((pid, deps) ∷ items) s =
      let left = Bag.discard done deps in
      let (released, s') = release_all done items (release_or_keep pid left s) in
      (pid_if_empty pid left ++ released, s')

  unfoldable pub notify_completed : ℕ → Scheduler C → List ℕ × Scheduler C
  unfolding release_all
  notify_completed done s = release_all done s.pending_deps s

  unfoldable pub is_empty : Scheduler C → Bool
  is_empty s = elim s.queue [ [] ↦ true | _ ∷ _ ↦ false ]

  unfoldable pub contains : ℕ → Scheduler C → Bool
  contains pid s = Bag.has pid s.membership

  unfoldable pub queued_ids : Scheduler C → List ℕ
  queued_ids s = map (λ e. e.pid) (heapify s.queue)

  -- `__len__`
  unfoldable pub queue_length : Scheduler C → ℕ
  queue_length s = length s.queue

  unfoldable pub waiting_ids : Scheduler C → List ℕ
  waiting_ids s = Dict.keys s.waiting

  unfoldable pub pending_dependency_ids : Scheduler C → List ℕ
  pending_dependency_ids s = Dict.keys s.pending_deps

  -- The steps for one satisfied condition, up to the callback.
  unfoldable pub requeue : ℕ → Scheduler C → Scheduler C
  requeue pid s =
      add_to_queue pid (priority_of pid s) (record s { waiting = Dict.pop pid s.waiting })

  notify_source : Option ℕ → Scheduler C → Scheduler C
  unfolding notify_completed
  notify_source none s = s
  notify_source (some source) s = (notify_completed source s).1

  -- The rest of `_on_event` after `evaluate_waiting`: an exception of a callback ends the handler
  -- before the dependencies are told.
  finish_event :
      {W : Type 0}
      → Outcome (List ℕ)
      → Event
      → Scheduler C
      → W
      → Outcome (Unit {0}) × (Scheduler C × W)
  unfolding notify_source
  finish_event (raised e) event s w = (raised e, (s, w))
  finish_event (returned _) event s w = (
    returned tt,
    ((if is_terminal_event event.event_type then notify_source event.source_process s else s), w),
  )

-- `is_satisfied` asks a condition in the present world; `on_wake` is the callback of the kernel,
-- which may raise, and works on the world and not on the scheduler.
module _ {C W : Type 0} (is_satisfied : C → W → Bool)
    (on_wake : ℕ → W → Outcome (Unit {0}) × W) where
  -- The loop of `evaluate_waiting`, over the copy of the items.
  wake_all : Dict ℕ C → List ℕ → Scheduler C × W → Outcome (List ℕ) × (Scheduler C × W)
  unfolding requeue
  wake_all [] woken (s, w) = (returned woken, (s, w))
  wake_all ((pid, condition) ∷ items) woken (s, w) =
      let skipped = wake_all items woken (s, w) in
      let (outcome, w') = on_wake pid w in
      let went_on = wake_all items (woken ++ pid ∷ []) (requeue pid s, w') in
      if is_satisfied condition w
      then unless_raised outcome went_on (requeue pid s, w')
      else skipped

  unfoldable pub evaluate_waiting : Scheduler C × W → Outcome (List ℕ) × (Scheduler C × W)
  unfolding wake_all
  evaluate_waiting (s, w) = wake_all s.waiting [] (s, w)

  -- `_on_event`
  unfoldable pub on_event : Event → Scheduler C × W → Outcome (Unit {0}) × (Scheduler C × W)
  unfolding evaluate_waiting finish_event
  on_event event (s, w) =
      let (outcome, (s', w')) = evaluate_waiting (s, w) in finish_event outcome event s' w'
