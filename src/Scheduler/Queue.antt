-- ===== src/Scheduler/Queue.antt =====
-- `heapq` on the entries of emergence/scheduler/scheduler.py. The heap is kept as an ascending
-- list, which is one of its layouts: its first element is the least, which is all that the
-- scheduler and `sorted` read of it.
use emergence_os.Base.{
  ℕ, ◌≡◌, ◌≢◌, refl, ap, ◌∙◌, Bool, true, false, not, ◌||◌, List, [], ◌∷◌, select, All, All-map,
  All-select, if◌then◌else◌, arith, ltb, ◌==◌, nat_eq, inl, inr, Bool-cases,
}
use emergence_os.Base.Int.{ℤ, ltb_ℤ}
use emergence_os.Base.Bag

-- The tuples of `_queue`: the negated priority, the sequence number and the process.
pub record Entry : Type 0 where
  pub key : ℤ
  pub seq : ℕ
  pub pid : ℕ

-- `<` on the tuples. The third component is never compared, since sequence numbers differ.
unfoldable pub earlier : Entry → Entry → Bool
earlier e f =
    if ltb_ℤ e.key f.key then true else if ltb_ℤ f.key e.key then false else ltb e.seq f.seq

unfoldable pub heappush : Entry → List Entry → List Entry
heappush e [] = e ∷ []
heappush e (f ∷ queue) = if earlier e f then e ∷ f ∷ queue else f ∷ heappush e queue

unfoldable pub heapify : List Entry → List Entry
unfolding heappush earlier
heapify [] = []
heapify (e ∷ queue) = heappush e (heapify queue)

unfoldable pub pids : List Entry → List ℕ
pids [] = []
pids (e ∷ queue) = e.pid ∷ pids queue

abbrev pub IsSorted : List Entry → Type 0
IsSorted [] = Unit
IsSorted (e ∷ queue) = All (λ f. earlier e f ≡ true) queue × IsSorted queue

earlier_trans : (e f g : Entry) → earlier e f ≡ true → earlier f g ≡ true → earlier e g ≡ true
unfolding earlier
earlier_trans e f g h k = ground arith

earlier_total : (e f : Entry) → e.seq ≢ f.seq → earlier e f ≡ false → earlier f e ≡ true
unfolding earlier
earlier_total e f n h = ground arith

pub All-heappush {ℓ} :
    (P : Entry → Type ℓ) (e : Entry) (queue : List Entry)
    → P e
    → All P queue
    → All P (heappush e queue)
unfolding heappush
All-heappush P e [] p h = (p, tt)
All-heappush P e (f ∷ queue) p h = elim (Bool-cases (earlier e f)) [
  | inl first ↦ rw first (p, (h.0, h.1))
  | inr later ↦ rw later (h.0, All-heappush P e queue p h.1)
]

pub heappush-IsSorted :
    (e : Entry) (queue : List Entry)
    → All (λ f. e.seq ≢ f.seq) queue
    → IsSorted queue
    → IsSorted (heappush e queue)
unfolding heappush
heappush-IsSorted e [] n s = (tt, tt)
heappush-IsSorted e (f ∷ queue) n s = elim (Bool-cases (earlier e f)) [
  | inl first ↦ rw first ((first, All-map _ _ queue (λ g. earlier_trans e f g first) s.0), s)
  | inr later ↦ rw later (
    All-heappush (λ g. earlier f g ≡ true) e queue (earlier_total e f n.0 later) s.0,
    heappush-IsSorted e queue n.1 s.1,
  )
]

pub has-pids-heappush :
    (p : ℕ) (e : Entry) (queue : List Entry)
    → Bag.has p (pids (heappush e queue)) ≡ ((e.pid == p) || Bag.has p (pids queue))
unfolding heappush Bag.has pids
has-pids-heappush p e [] = refl
has-pids-heappush p e (f ∷ queue) = ground (arith, has-pids-heappush p e queue)

heappush-first :
    (e : Entry) (queue : List Entry)
    → All (λ f. earlier e f ≡ true) queue
    → heappush e queue ≡ e ∷ queue
unfolding heappush
heappush-first e [] h = refl
heappush-first e (f ∷ queue) h = rw (h.0) refl

-- An ascending list is its own heap.
pub heapify-eq_self : (queue : List Entry) → IsSorted queue → heapify queue ≡ queue
unfolding heapify
heapify-eq_self [] s = refl
heapify-eq_self (e ∷ queue) s =
    ap (heappush e) (heapify-eq_self queue s.1) ∙ heappush-first e queue s.0

pub select-IsSorted :
    (p : Entry → Bool) (queue : List Entry) → IsSorted queue → IsSorted (select p queue)
unfolding select
select-IsSorted p [] s = tt
select-IsSorted p (e ∷ queue) s = elim (Bool-cases (p e)) [
  | inl kept ↦ rw kept (All-select _ p queue s.0, select-IsSorted p queue s.1)
  | inr gone ↦ rw gone (select-IsSorted p queue s.1)
]

pub has-pids-select :
    (p q : ℕ) (queue : List Entry)
    → Bag.has p (pids (select (λ e. not (e.pid == q)) queue))
      ≡ (if q == p then false else Bag.has p (pids queue))
unfolding select Bag.has pids
has-pids-select p q [] = ground arith
has-pids-select p q (e ∷ queue) = ground (arith, has-pids-select p q queue)
