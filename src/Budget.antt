-- ===== src/Budget.antt =====
-- emergence/core/budget.py and emergence/core/budget_tracker.py.
-- Numbers are integers, since the source validates signs. `max_cost_usd` and `cost_usd` are in
-- millionths of a dollar, `execution_seconds` and points in time in microseconds: the values of
-- the source are floats and datetimes, whose rounding is not modelled.
-- The budget, its validation, and the tracker of what each process has used.
pub mod Validation
pub mod Exhaustion
mod Examples
use emergence_os.Base.{
  ℕ, ◌*◌, Bool, true, false, Option, none, some, [], Outcome, returned, raised, value_error,
  if◌then◌else◌, nat_eq,
}
use emergence_os.Base.Int.{ℤ, pos, pos_part, neg_part, sub_ℕ, ◌+ℤ◌, ltb_ℤ, leb_ℤ}
use emergence_os.Base.Dict
use emergence_os.Base.Dict.{Dict}

pub record ResourceBudget : Type 0 where
  pub max_tokens : ℤ
  pub max_execution_time_seconds : ℤ
  pub max_memory_mb : ℤ
  pub max_tool_invocations : ℤ
  pub max_cost_usd : ℤ
  pub max_retries : ℤ

-- The values of the class body: ResourceBudget().
abbrev pub default_budget : ResourceBudget
default_budget = record {
  max_tokens = pos 10000;
  max_execution_time_seconds = pos 300;
  max_memory_mb = pos 512;
  max_tool_invocations = pos 100;
  max_cost_usd = pos 1000000;
  max_retries = pos 3;
}

-- `__post_init__`: what the constructor does with the fields that it was given.
unfoldable pub post_init : ResourceBudget → Outcome ResourceBudget
post_init b =
    if ltb_ℤ b.max_tokens (pos 0)
    then raised value_error
    else if leb_ℤ b.max_execution_time_seconds (pos 0)
    then raised value_error
    else if leb_ℤ b.max_memory_mb (pos 0)
    then raised value_error
    else if ltb_ℤ b.max_tool_invocations (pos 0)
    then raised value_error
    else if ltb_ℤ b.max_cost_usd (pos 0)
    then raised value_error
    else if ltb_ℤ b.max_retries (pos 0)
    then raised value_error
    else returned b

pub record BudgetUsage : Type 0 where
  pub tokens : ℤ
  pub tool_invocations : ℤ
  pub cost_usd : ℤ
  pub execution_seconds : ℤ
  pub retries : ℤ

-- BudgetUsage()
abbrev pub no_usage : BudgetUsage
no_usage = record {
  tokens = pos 0;
  tool_invocations = pos 0;
  cost_usd = pos 0;
  execution_seconds = pos 0;
  retries = pos 0;
}

-- `_usage`, by process id.
abbrev pub BudgetTracker : Type 0
BudgetTracker = Dict ℕ BudgetUsage

-- The tracker's constructor, and the state that `clear_all` leaves.
abbrev pub clear_all : BudgetTracker
clear_all = []

abbrev pub or_no_usage : Option BudgetUsage → BudgetUsage
or_no_usage none = no_usage
or_no_usage (some u) = u

-- The usage on record, or zero. `usage` also enters the zero into the dictionary.
unfoldable pub usage_of : ℕ → BudgetTracker → BudgetUsage
usage_of pid t = or_no_usage (Dict.get pid t)

unfoldable pub usage : ℕ → BudgetTracker → BudgetUsage × BudgetTracker
unfolding usage_of
usage pid t = (usage_of pid t, (if Dict.has pid t then t else Dict.put pid no_usage t))

-- The tests of `can_dispatch`.
unfoldable pub within_limits : BudgetUsage → ResourceBudget → Bool
within_limits u b =
    if leb_ℤ b.max_tokens u.tokens
    then false
    else if leb_ℤ b.max_tool_invocations u.tool_invocations
    then false
    else if leb_ℤ b.max_cost_usd u.cost_usd
    then false
    else if ltb_ℤ b.max_retries u.retries
    then false
    else true

unfoldable pub can_dispatch : ℕ → ResourceBudget → BudgetTracker → Bool × BudgetTracker
can_dispatch pid b t = let (u, t') = usage pid t in (within_limits u b, t')

-- Seconds as microseconds.
abbrev micros : ℤ → ℤ
micros s = sub_ℕ (1000000 * pos_part s) (1000000 * neg_part s)

unfoldable pub check_timeout : Option ℕ → ResourceBudget → (now : ℕ) → Bool
check_timeout none b now = false
check_timeout (some started_at) b now =
    ltb_ℤ (micros b.max_execution_time_seconds) (sub_ℕ now started_at)

-- The four `+=` of `record_execution`.
unfoldable pub add_usage : (tokens tool_invocations cost execution : ℤ) → BudgetUsage → BudgetUsage
add_usage tokens tool_invocations cost execution u = record u {
  tokens = u.tokens +ℤ tokens;
  tool_invocations = u.tool_invocations +ℤ tool_invocations;
  cost_usd = u.cost_usd +ℤ cost;
  execution_seconds = u.execution_seconds +ℤ execution;
}

unfoldable pub record_execution :
    ℕ → (tokens tool_invocations cost execution : ℤ) → BudgetTracker → BudgetTracker
record_execution pid tokens tool_invocations cost execution t =
    let (u, t') = usage pid t in
    Dict.put pid (add_usage tokens tool_invocations cost execution u) t'

unfoldable pub add_retry : BudgetUsage → BudgetUsage
add_retry u = record u { retries = u.retries +ℤ pos 1 }

unfoldable pub record_retry : ℕ → BudgetTracker → BudgetTracker
record_retry pid t = let (u, t') = usage pid t in Dict.put pid (add_retry u) t'

unfoldable pub clear : ℕ → BudgetTracker → BudgetTracker
clear pid t = Dict.pop pid t
