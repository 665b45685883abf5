-- ===== src/Budget/Exhaustion.antt =====
-- How dispatching depends on what has been recorded (emergence/core/budget_tracker.py).
use emergence_os.Base.{
  ℕ, zero, suc, ◌≡◌, refl, Bool, true, false, if◌then◌else◌, arith, nat_eq, ◌==◌,
}
use emergence_os.Base.Int.{ℤ, pos, ◌≤ℤ◌, ◌<ℤ◌, leb_ℤ, ◌+ℤ◌, +ℤ_parts}
use emergence_os.Base.Dict
use emergence_os.Budget.{
  ResourceBudget, BudgetUsage, BudgetTracker, no_usage, usage_of, usage, within_limits,
  can_dispatch, add_usage, record_execution, add_retry, record_retry, clear,
}

usage_of-usage : (p q : ℕ) (t : BudgetTracker) → usage_of q (usage p t).1 ≡ usage_of q t
unfolding usage
usage_of-usage p q t = ground (arith, Dict.has-eq-is_some p t, Dict.get-put p q no_usage t)

can_dispatch-eq-within_limits :
    (p : ℕ) (b : ResourceBudget) (t : BudgetTracker)
    → (can_dispatch p b t).0 ≡ within_limits (usage_of p t) b
unfolding can_dispatch usage
can_dispatch-eq-within_limits p b t = refl

usage_of-put :
    (p q : ℕ) (u : BudgetUsage) (t : BudgetTracker)
    → usage_of q (Dict.put p u t) ≡ (if p == q then u else usage_of q t)
unfolding usage_of
usage_of-put p q u t = ground (arith, Dict.get-put p q u t)

pub usage_of-clear :
    (p q : ℕ) (t : BudgetTracker)
    → usage_of q (clear p t) ≡ (if p == q then no_usage else usage_of q t)
unfolding usage_of clear
usage_of-clear p q t = ground (arith, Dict.get-pop p q t)

fst-usage : (p : ℕ) (t : BudgetTracker) → (usage p t).0 ≡ usage_of p t
unfolding usage
fst-usage p t = refl

pub usage_of-record_execution :
    (p q : ℕ) (i j k l : ℤ) (t : BudgetTracker)
    → usage_of q (record_execution p i j k l t)
      ≡ (if p == q then add_usage i j k l (usage_of p t) else usage_of q t)
unfolding record_execution
usage_of-record_execution p q i j k l t = ground (
  arith,
  fst-usage p t,
  usage_of-usage p q t,
  usage_of-put p q (add_usage i j k l (usage p t).0) (usage p t).1,
)

pub usage_of-record_retry :
    (p q : ℕ) (t : BudgetTracker)
    → usage_of q (record_retry p t) ≡ (if p == q then add_retry (usage_of p t) else usage_of q t)
unfolding record_retry
usage_of-record_retry p q t = ground (
  arith,
  fst-usage p t,
  usage_of-usage p q t,
  usage_of-put p q (add_retry (usage p t).0) (usage p t).1,
)

leb_ℤ-add : (a x i : ℤ) → pos 0 ≤ℤ i → leb_ℤ a x ≡ true → leb_ℤ a (x +ℤ i) ≡ true
leb_ℤ-add a x i hi h = ground (arith, +ℤ_parts x i)

-- A chain of tests in which one test fails, when the first three can only fail more often.
some_test_mono :
    (a b c d a' b' c' : Bool)
    → (a ≡ true → a' ≡ true)
    → (b ≡ true → b' ≡ true)
    → (c ≡ true → c' ≡ true)
    → (if a then false else if b then false else if c then false else if d then false else true)
      ≡ false
    → (if a' then false else if b' then false else if c' then false else if d then false else true)
      ≡ false
some_test_mono a b c d a' b' c' ha hb hc h = ground arith

within_limits-add_usage :
    (i j k l : ℤ) (u : BudgetUsage) (b : ResourceBudget)
    → pos 0 ≤ℤ i
    → pos 0 ≤ℤ j
    → pos 0 ≤ℤ k
    → within_limits u b ≡ false
    → within_limits (add_usage i j k l u) b ≡ false
unfolding within_limits add_usage
within_limits-add_usage i j k l u b hi hj hk h =
    some_test_mono _ _ _ _ _ _ _ (leb_ℤ-add b.max_tokens u.tokens i hi)
      (leb_ℤ-add b.max_tool_invocations u.tool_invocations j hj)
      (leb_ℤ-add b.max_cost_usd u.cost_usd k hk) h

-- Once a process may not be dispatched, it may not be dispatched after any further execution that
-- is recorded, of this process or of another, with amounts that are not negative.
pub record_execution-exhausted :
    (p q : ℕ) (i j k l : ℤ) (b : ResourceBudget) (t : BudgetTracker)
    → pos 0 ≤ℤ i
    → pos 0 ≤ℤ j
    → pos 0 ≤ℤ k
    → (can_dispatch p b t).0 ≡ false
    → (can_dispatch p b (record_execution q i j k l t)).0 ≡ false
record_execution-exhausted p q i j k l b t hi hj hk h = ground (
  arith,
  can_dispatch-eq-within_limits p b t,
  can_dispatch-eq-within_limits p b (record_execution q i j k l t),
  usage_of-record_execution q p i j k l t,
  within_limits-add_usage i j k l (usage_of p t) b,
)

-- `n` calls of `record_retry`.
abbrev pub retry_times : ℕ → ℕ → BudgetTracker → BudgetTracker
retry_times zero p t = t
retry_times (suc n) p t = record_retry p (retry_times n p t)

usage_of-retry_times :
    (n p : ℕ) (t : BudgetTracker)
    → usage_of p (retry_times n p (clear p t)) ≡ record no_usage { retries = pos n }
unfolding add_retry ◌+ℤ◌
usage_of-retry_times zero p t = ground (arith, usage_of-clear p p t)
usage_of-retry_times (suc n) p t =
    ground
      (arith, usage_of-record_retry p p (retry_times n p (clear p t)), usage_of-retry_times n p t)

-- After `clear`, a process whose other limits are positive may be dispatched after `n` retries
-- exactly when `n` is at most its `max_retries`.
pub can_dispatch-retry_times :
    (n p : ℕ) (b : ResourceBudget) (t : BudgetTracker)
    → pos 0 <ℤ b.max_tokens
    → pos 0 <ℤ b.max_tool_invocations
    → pos 0 <ℤ b.max_cost_usd
    → (can_dispatch p b (retry_times n p (clear p t))).0 ≡ leb_ℤ (pos n) b.max_retries
unfolding within_limits
can_dispatch-retry_times n p b t ht hi hc =
    rw (can_dispatch-eq-within_limits, usage_of-retry_times) (ground arith)
