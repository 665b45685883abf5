-- ===== src/Kernel/Retries.antt =====
-- How often emergence/kernel/supervisor.py tries again.
use emergence_os.Base.{
  ℕ, zero, suc, ◌+◌, ◌-◌, ◌≡◌, ◌≤◌, refl, ap, sym, ◌∙◌, subst, Bool, true, false, none, some, List,
  [], ◌∷◌, ◌++◌, Outcome, returned, if◌then◌else◌, ==_refl, nat_eq, ltb, arith, min,
}
use emergence_os.Base.Dict
use emergence_os.Base.Dict.{Dict}
use emergence_os.Base.Int.{pos, ltb_ℤ}
use emergence_os.Checkpoint.{latest_for_process}
use emergence_os.Kernel.{Kernel, RecoveryAction, RecoveryDecision, terminate}
use emergence_os.Kernel.Supervisor.{
  on_process_failed, recover, retries_of, retry_or_terminate, resumed, or_zero,
}
use emergence_os.Process.{Process}
use emergence_os.Registries.ProcessTable

-- The process is in the table, may be retried `limit` times and has no checkpoint.
pub record IsPlain (p : Process) (limit : ℕ) (k : Kernel) : Type 0 where
  pub held : Dict.get p.process_id k.process_table ≡ some p
  pub limited : p.budget.max_retries ≡ pos limit
  pub unsaved : latest_for_process p.process_id k.recoverable.checkpoints ≡ returned none

-- What a failure of such a process leads to.
pub on_process_failed-IsPlain :
    (p : Process) (limit : ℕ) (k : Kernel)
    → IsPlain p limit k
    → on_process_failed p.process_id k ≡ (
      returned tt,
      retry_or_terminate (ltb (retries_of p.process_id k) limit) (retries_of p.process_id k) p k,
    )
unfolding on_process_failed ProcessTable.get recover
on_process_failed-IsPlain p limit k h =
    let test : ltb_ℤ (pos (retries_of p.process_id k)) p.budget.max_retries
        ≡ ltb (retries_of p.process_id k) limit =
      ground arith in
    rw (h.held, h.unsaved)
      (ap (λ b. (returned tt, retry_or_terminate b (retries_of p.process_id k) p k)) test)

-- The process as a failure leaves it.
unfoldable pub after : Bool → Process → Process
after true p = resumed p
after false p = p

pub retry_or_terminate-IsPlain :
    (b : Bool) (p : Process) (limit : ℕ) (k : Kernel)
    → IsPlain p limit k
    → IsPlain (after b p) limit (retry_or_terminate b (retries_of p.process_id k) p k)
unfolding after retry_or_terminate
retry_or_terminate-IsPlain true p limit k h = record {
  held =
      Dict.get-put p.process_id p.process_id (resumed p) k.process_table
      ∙ rw (==_refl p.process_id) refl;
  limited = h.limited;
  unsaved = h.unsaved;
}
retry_or_terminate-IsPlain false p limit k h = record {
  held = h.held;
  limited = h.limited;
  unsaved = h.unsaved;
}

pub retries_of-retry_or_terminate :
    (b : Bool) (p : Process) (k : Kernel)
    → retries_of p.process_id (retry_or_terminate b (retries_of p.process_id k) p k)
      ≡ (if b then retries_of p.process_id k + 1 else retries_of p.process_id k)
unfolding retry_or_terminate retries_of
retries_of-retry_or_terminate true p k =
    rw
      (
        Dict.get-put p.process_id p.process_id (or_zero (Dict.get p.process_id k.retry_counts) + 1)
            k.retry_counts,
        ==_refl p.process_id,
      )
      refl
retries_of-retry_or_terminate false p k = refl

-- `n` failures in a row, as the supervisor sees them.
unfoldable pub fail_times : ℕ → (process_id : ℕ) → Kernel → Kernel
fail_times zero process_id k = k
fail_times (suc n) process_id k = fail_times n process_id (on_process_failed process_id k).1

-- How many of the decisions are of a kind.
abbrev pub is_terminate : RecoveryAction → Bool
is_terminate terminate = true
is_terminate _ = false

unfoldable pub terminations : List RecoveryDecision → ℕ
terminations [] = 0
terminations (d ∷ decisions) = (if is_terminate d.action then 1 else 0) + terminations decisions

terminations-append :
    (xs ys : List RecoveryDecision) → terminations (xs ++ ys) ≡ terminations xs + terminations ys
unfolding terminations
terminations-append [] ys = omega arith
terminations-append (d ∷ xs) ys = ground (arith, terminations-append xs ys)

terminations-retry_or_terminate :
    (b : Bool) (retries : ℕ) (p : Process) (k : Kernel)
    → terminations (retry_or_terminate b retries p k).decisions
      ≡ terminations k.decisions + (if b then 0 else 1)
unfolding retry_or_terminate terminations
terminations-retry_or_terminate true retries p k = terminations-append k.decisions _
terminations-retry_or_terminate false retries p k = terminations-append k.decisions _

-- The counts after `n` failures.
abbrev Counted : ℕ → Process → (limit : ℕ) → (before after : Kernel) → Type 0
Counted n p limit k k' =
    (retries_of p.process_id k' ≡ min (retries_of p.process_id k + n) limit)
    × (terminations k'.decisions
        ≡ terminations k.decisions + (retries_of p.process_id k + n - limit))

-- One failure, and `n` more after it.
failed_once :
    (b : Bool) (n : ℕ) (p : Process) (limit : ℕ) (k k' : Kernel)
    → retries_of p.process_id k ≤ limit
    → ltb (retries_of p.process_id k) limit ≡ b
    → Counted n p limit (retry_or_terminate b (retries_of p.process_id k) p k) k'
    → Counted (suc n) p limit k k'
failed_once true n p limit k k' le t ih = ground (
  arith,
  retries_of-retry_or_terminate true p k,
  terminations-retry_or_terminate true (retries_of p.process_id k) p k,
)
failed_once false n p limit k k' le t ih = ground (
  arith,
  retries_of-retry_or_terminate false p k,
  terminations-retry_or_terminate false (retries_of p.process_id k) p k,
)

still_le :
    (b : Bool) (p : Process) (limit : ℕ) (k : Kernel)
    → retries_of p.process_id k ≤ limit
    → ltb (retries_of p.process_id k) limit ≡ b
    → retries_of p.process_id (retry_or_terminate b (retries_of p.process_id k) p k) ≤ limit
still_le true p limit k le t = ground (arith, retries_of-retry_or_terminate true p k)
still_le false p limit k le t = ground (arith, retries_of-retry_or_terminate false p k)

-- A process that the table holds, that may be retried `limit` times and that has no checkpoint: after
-- `n` failures in a row the count of its retries has risen by `n`, but not above the limit, and there
-- is one decision to terminate it for each failure beyond that; this for a count that begins at most
-- at the limit.
pub fail_times_counts :
    (n : ℕ) (p : Process) (limit : ℕ) (k : Kernel)
    → IsPlain p limit k
    → retries_of p.process_id k ≤ limit
    → (retries_of p.process_id (fail_times n p.process_id k)
        ≡ min (retries_of p.process_id k + n) limit)
      × (terminations (fail_times n p.process_id k).decisions
          ≡ terminations k.decisions + (retries_of p.process_id k + n - limit))
unfolding fail_times
fail_times_counts zero p limit k h le = (ground arith, ground arith)
fail_times_counts (suc n) p limit k h le =
    subst (λ x. Counted (suc n) p limit k (fail_times n p.process_id x))
      (sym (ap (λ (r : Outcome (Unit {0}) × Kernel). r.1) (on_process_failed-IsPlain p limit k h)))
      (by_test (fail_times_counts n) (ltb (retries_of p.process_id k) limit) refl)
  where
    by_test :
        ((q : Process) (limit : ℕ) (k : Kernel)
          → IsPlain q limit k
          → retries_of q.process_id k ≤ limit
          → Counted n q limit k (fail_times n q.process_id k))
        → (b : Bool) → ltb (retries_of p.process_id k) limit ≡ b
        → Counted
            (suc n)
            p
            limit
            k
            (fail_times n p.process_id (retry_or_terminate b (retries_of p.process_id k) p k))
    by_test ih true t = failed_once true n p limit k _ le t (
        ih (resumed p) limit _ (unfold after in retry_or_terminate-IsPlain true p limit k h)
          (still_le true p limit k le t))
    by_test ih false t = failed_once false n p limit k _ le t (
        ih p limit _ (unfold after in retry_or_terminate-IsPlain false p limit k h)
          (still_le false p limit k le t))
