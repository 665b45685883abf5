-- ===== src/Budget/Validation.antt =====
-- Which budgets the constructor of emergence/core/budget.py accepts.
use emergence_os.Base.{◌≡◌, ◌↔◌, returned, arith}
use emergence_os.Base.Int.{pos, ◌≤ℤ◌, ◌<ℤ◌}
use emergence_os.Budget.{ResourceBudget, post_init}

-- The documented ranges of the limits.
pub record IsValid (b : ResourceBudget) : Type 0 where
  pub tokens : pos 0 ≤ℤ b.max_tokens
  pub time : pos 0 <ℤ b.max_execution_time_seconds
  pub memory : pos 0 <ℤ b.max_memory_mb
  pub tools : pos 0 ≤ℤ b.max_tool_invocations
  pub cost : pos 0 ≤ℤ b.max_cost_usd
  pub retries : pos 0 ≤ℤ b.max_retries

-- The constructor accepts exactly the budgets whose limits are all in range, and leaves the fields
-- as they were given.
pub post_init-eq-returned :
    (b c : ResourceBudget) → (post_init b ≡ returned c) ↔ (IsValid b × (b ≡ c))
unfolding post_init
post_init-eq-returned b c = ground arith
