-- ===== src/Process/Identity.antt =====
-- Which fields the transitions of emergence/core/process.py leave alone.
use emergence_os.Base.{ℕ, ◌≡◌, refl, Option, String, Outcome, returned, raised, Error, false, arith}
use emergence_os.State.{ProcessState}
use emergence_os.Process.{Process, transition_to, wake, fail, cancel, complete, is_finished}

pub process_id-transition_to :
    (s : ProcessState) (now : ℕ) (p q : Process)
    → transition_to s now p ≡ returned q
    → q.process_id ≡ p.process_id
unfolding transition_to
process_id-transition_to s now p q h = ground arith

pub process_id-wake :
    (now : ℕ) (p q : Process) → wake now p ≡ returned q → q.process_id ≡ p.process_id
unfolding wake
process_id-wake now p q h = ground arith

-- A process that `fail` accepts is failed, with the same id and budget.
pub fail-eq-returned :
    (reason : Option String) (now : ℕ) (p q : Process)
    → fail reason now p ≡ returned q
    → (q.process_id ≡ p.process_id)
      × (q.budget ≡ p.budget)
      × (q.state ≡ ProcessState.failed)
      × (q.failure_reason ≡ reason)
unfolding fail
fail-eq-returned reason now p q h = ground arith

process_id-cancel :
    (now : ℕ) (p q : Process)
    → cancel now p ≡ returned q
    → is_finished p ≡ false
    → (q.process_id ≡ p.process_id) × (q.state ≡ ProcessState.cancelled)
unfolding cancel is_finished
process_id-cancel now p q h live = ground arith

cancel_unrefused :
    (now : ℕ) (p : Process) (e : Error) → cancel now p ≡ raised e → is_finished p ≡ false → ⊥
unfolding cancel is_finished
cancel_unrefused now p e h live = ground arith

-- Every process that is not finished may be cancelled.
pub cancel-returns :
    (now : ℕ) (p : Process)
    → is_finished p ≡ false
    → (q : Process) × (cancel now p ≡ returned q)
      × (q.process_id ≡ p.process_id)
      × (q.state ≡ ProcessState.cancelled)
cancel-returns now p live = by_outcome (cancel now p) refl
  where
    by_outcome :
        (o : Outcome Process)
        → cancel now p ≡ o
        → (q : Process) × (o ≡ returned q)
          × (q.process_id ≡ p.process_id)
          × (q.state ≡ ProcessState.cancelled)
    by_outcome (returned q) h =
        let (id, state) = process_id-cancel now p q h live in (q, refl, id, state)
    by_outcome (raised e) h = absurd (cancel_unrefused now p e h live)

-- A process that `complete` accepts is finished, with the same id.
pub complete-eq-returned :
    (now : ℕ) (p q : Process)
    → complete now p ≡ returned q
    → (q.process_id ≡ p.process_id) × (q.state ≡ ProcessState.completed)
unfolding complete
complete-eq-returned now p q h = ground arith
