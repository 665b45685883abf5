-- ===== src/Scheduler/Priority.antt =====
-- The order in which the scheduler of emergence/scheduler/scheduler.py hands processes out.
use emergence_os.Base.{
  ℕ, ◌+◌, ◌<◌, ◌≡◌, refl, true, false, List, [], ◌∷◌, ◌++◌, returned, returned-injective, All,
  All-map, arith, nat_eq, inl, inr, Bool-cases, subst, ap,
}
use emergence_os.Base.Bag
use emergence_os.Base.Dict
use emergence_os.Base.Int.{ℤ, neg, ◌≤ℤ◌, ◌<ℤ◌}
use emergence_os.Scheduler.{
  Scheduler, add_to_queue, enqueue, dequeue, pop_first, mark_waiting, contains,
}
use emergence_os.Scheduler.Queue.{Entry, earlier, heappush, IsSorted}
use emergence_os.Scheduler.Invariant.{WellFormed}

-- What `dequeue` took from the queue, and what is left.
pub record IsFirst {C : Type 0} (pid : ℕ) (s s' : Scheduler C) : Type 0 where
  pub entry : Entry
  pub named : entry.pid ≡ pid
  pub taken : s.queue ≡ entry ∷ s'.queue
  pub first : All (λ f. earlier entry f ≡ true) s'.queue
  pub gone : contains pid s' ≡ false

pop_first-IsFirst :
    {C : Type 0} (queue : List Entry) (s s' : Scheduler C) (pid : ℕ)
    → s.queue ≡ queue
    → WellFormed s
    → pop_first queue s ≡ returned (pid, s')
    → IsFirst pid s s'
unfolding pop_first contains
pop_first-IsFirst [] s s' pid q v h = cc
pop_first-IsFirst (e ∷ queue) s s' pid q v h =
    subst (λ r. IsFirst r.0 s r.1) (returned-injective _ _ h)
      (record {
        entry = e;
        named = refl;
        taken = q;
        first = (subst IsSorted q v.sorted).0;
        gone = ground (arith, Bag.has-discard e.pid e.pid s.membership);
      })

-- On a well-formed scheduler `dequeue` takes the entry that comes before all others, by higher
-- priority and then by earlier entry into the queue, and the process is no longer queued.
pub dequeue-IsFirst :
    {C : Type 0} (s s' : Scheduler C) (pid : ℕ)
    → WellFormed s
    → dequeue s ≡ returned (pid, s')
    → IsFirst pid s s'
unfolding dequeue
dequeue-IsFirst s s' pid v h = pop_first-IsFirst s.queue s s' pid refl v h

-- Where a new entry stands: behind `before` and ahead of `after`.
pub record IsPlaced (e : Entry) (queue pushed : List Entry) : Type 0 where
  pub before : List Entry
  pub after : List Entry
  pub split : queue ≡ before ++ after
  pub joined : pushed ≡ before ++ e ∷ after
  pub behind : All (λ f. f.key ≤ℤ e.key) before
  pub ahead : All (λ f. e.key <ℤ f.key) after

earlier-lt : (e f : Entry) → f.seq < e.seq → earlier e f ≡ true → e.key <ℤ f.key
unfolding earlier
earlier-lt e f n h = ground arith

earlier-le : (e f : Entry) → f.seq < e.seq → earlier e f ≡ false → f.key ≤ℤ e.key
unfolding earlier
earlier-le e f n h = ground arith

lt-earlier : (e f g : Entry) → e.key <ℤ f.key → earlier f g ≡ true → e.key <ℤ g.key
unfolding earlier
lt-earlier e f g n h = ground arith

heappush-IsPlaced :
    (e : Entry) (queue : List Entry)
    → IsSorted queue
    → All (λ f. f.seq < e.seq) queue
    → IsPlaced e queue (heappush e queue)
unfolding heappush
heappush-IsPlaced e [] s n = record {
  before = [];
  after = [];
  split = refl;
  joined = refl;
  behind = tt;
  ahead = tt;
}
heappush-IsPlaced e (f ∷ queue) s n = elim (Bool-cases (earlier e f)) [
  | inl first ↦
      let low = earlier-lt e f n.0 first in
      record {
        before = [];
        after = f ∷ queue;
        split = refl;
        joined = rw first refl;
        behind = tt;
        ahead = (low, All-map _ _ queue (λ (g : Entry) h. lt-earlier e f g low h) s.0);
      }
  | inr later ↦
      let rest = heappush-IsPlaced e queue s.1 n.1 in
      record {
        before = f ∷ rest.before;
        after = rest.after;
        split = ap (λ l. f ∷ l) rest.split;
        joined = rw later (ap (λ l. f ∷ l) rest.joined);
        behind = (earlier-le e f n.0 later, rest.behind);
        ahead = rest.ahead;
      }
]

-- A process that is neither queued nor waiting, enqueued with no dependencies, is placed behind
-- every queued process of the same or a higher priority and ahead of every one of a lower priority.
pub enqueue-IsPlaced :
    {C : Type 0} (pid : ℕ) (priority : ℤ) (s : Scheduler C)
    → WellFormed s
    → contains pid s ≡ false
    → Dict.has pid s.waiting ≡ false
    → IsPlaced
        (record { key = neg priority; seq = s.seq + 1; pid = pid })
        s.queue
        (enqueue pid priority [] s).queue
unfolding enqueue add_to_queue contains
enqueue-IsPlaced pid priority s v absent free =
    rw (absent, free)
      (heappush-IsPlaced _ s.queue v.sorted
        (All-map _ _ s.queue (λ (f : Entry) h. omega arith) v.numbered))

-- A process that was marked as waiting is not queued, and enqueuing it again does not queue it: it
-- comes back only when its condition is met.
pub mark_waiting_excludes :
    {C : Type 0} (pid : ℕ) (priority : ℤ) (c : C) (s : Scheduler C)
    → (contains pid (mark_waiting pid c s) ≡ false)
      × (contains pid (enqueue pid priority [] (mark_waiting pid c s)) ≡ false)
unfolding mark_waiting contains enqueue add_to_queue
mark_waiting_excludes pid priority c s =
    ground (arith, Bag.has-discard pid pid s.membership, Dict.has-put pid pid c s.waiting)
