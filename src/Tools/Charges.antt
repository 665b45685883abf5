-- ===== src/Tools/Charges.antt =====
-- What emergence/executor/tool_executor.py counts as an invocation.
use emergence_os.Base.{
  ℕ, zero, suc, ◌+◌, ◌≡◌, refl, ap, sym, ◌∙◌, String, Bool, true, false, some, Outcome, returned,
  raised, ==_refl, ◌>>=◌, string_eq, nat_eq, arith,
}
use emergence_os.Base.Dict
use emergence_os.Base.Dict.{Dict}
use emergence_os.Base.Int.{ℤ, pos, negsuc, ◌+ℤ◌}
use emergence_os.Base.Value.{Value}
use emergence_os.Budget.{BudgetUsage, usage_of, add_usage}
use emergence_os.Budget.Exhaustion.{usage_of-record_execution}
use emergence_os.Kernel.Revival.{is_raised}
use emergence_os.Security.{CapabilityManager, require}
use emergence_os.Tools.{
  ToolRequest, ToolExecutor, Raw, Counted, capability_for_tool, invoke, counted, settle, run_tool,
  execute,
}

add_zero : (a : ℤ) → a ≡ a +ℤ pos 0
unfolding ◌+ℤ◌
add_zero (pos n) = ground arith
add_zero (negsuc n) = ground arith

add_add : (a : ℤ) (m n : ℕ) → (a +ℤ pos m) +ℤ pos n ≡ a +ℤ pos (m + n)
unfolding ◌+ℤ◌
add_add (pos a) m n = ground arith
add_add (negsuc a) m n = ground arith

-- What one invocation, or `n` of them, count for.
abbrev pub charge : (is_failure : Bool) (n : ℕ) → ℤ
charge true n = pos 0
charge false n = pos n

charge_next : (a : ℤ) (b : Bool) (n : ℕ) → (a +ℤ charge b 1) +ℤ charge b n ≡ a +ℤ charge b (suc n)
charge_next a true n = sym (add_zero _)
charge_next a false n = add_add a 1 n ∙ ap (λ m. a +ℤ pos m) (omega arith)

charge_none : (a : ℤ) (b : Bool) → a ≡ a +ℤ charge b 0
charge_none a true = add_zero a
charge_none a false = add_zero a

-- The executor after an invocation that is settled.
settle-charges :
    (c : Outcome Counted) (request : ToolRequest) (p : ℕ) (t : ToolExecutor)
    → ((usage_of p (settle c request p t).1.budgets).tool_invocations
        ≡ (usage_of p t.budgets).tool_invocations +ℤ charge (is_raised c) 1)
      × ((settle c request p t).1.registry ≡ t.registry)
unfolding settle ◌+ℤ◌ add_usage
settle-charges (raised e) request p t = (add_zero _, refl)
settle-charges (returned (tokens, cost, result)) request p t = (
  ap (λ (u : BudgetUsage). u.tool_invocations)
        (usage_of-record_execution p p tokens (pos 1) cost (pos 0) t.budgets)
      ∙ rw (==_refl p) refl,
  refl,
)

module _
    (handle : ℕ → Dict String Value → (process_id : ℕ) → ToolExecutor → Outcome Raw × ToolExecutor)
    (int_of_text : String → Outcome ℤ) where
  -- The executor after `n` invocations by one process, whatever each of them gives.
  unfoldable pub execute_times :
      (n : ℕ) → CapabilityManager → ToolRequest → (process_id : ℕ) → ToolExecutor → ToolExecutor
  execute_times zero manager request p t = t
  execute_times (suc n) manager request p t =
      execute_times n manager request p (execute handle int_of_text manager request p t).1

  executed :
      (h : ℕ) (o : Outcome Raw) (manager : CapabilityManager) (request : ToolRequest) (p : ℕ)
      (t : ToolExecutor)
      → require p (capability_for_tool request.tool_name) manager ≡ returned tt
      → Dict.get request.tool_name t.registry ≡ some h
      → ((t' : ToolExecutor) → handle h request.arguments p t' ≡ (o, t'))
      → ((usage_of p (execute handle int_of_text manager request p t).1.budgets).tool_invocations
          ≡ (usage_of p t.budgets).tool_invocations
            +ℤ charge (is_raised (o >>= counted int_of_text)) 1)
        × ((execute handle int_of_text manager request p t).1.registry ≡ t.registry)
  unfolding execute run_tool invoke
  executed h o manager request p t allowed found acts =
      rw (allowed, found, acts _) (settle-charges (o >>= counted int_of_text) request p _)

  -- `n` invocations of a tool that always does the same count for `n` when it succeeds and for
  -- nothing when it fails: an invocation that fails is not charged. This for a process that may use
  -- the tool, and a handler that leaves the executor as it is.
  pub execute_times_charges :
      (n h : ℕ) (o : Outcome Raw) (manager : CapabilityManager) (request : ToolRequest) (p : ℕ)
      (t : ToolExecutor)
      → require p (capability_for_tool request.tool_name) manager ≡ returned tt
      → Dict.get request.tool_name t.registry ≡ some h
      → ((t' : ToolExecutor) → handle h request.arguments p t' ≡ (o, t'))
      → (usage_of p (execute_times n manager request p t).budgets).tool_invocations
        ≡ (usage_of p t.budgets).tool_invocations
          +ℤ charge (is_raised (o >>= counted int_of_text)) n
  unfolding execute_times
  execute_times_charges zero h o manager request p t allowed found acts =
      charge_none _ (is_raised (o >>= counted int_of_text))
  execute_times_charges (suc n) h o manager request p t allowed found acts =
      let (used, same) = executed h o manager request p t allowed found acts in
      execute_times_charges n h o manager request p _ allowed
        (ap (λ r. Dict.get request.tool_name r) same ∙ found) acts
      ∙ (ap (λ a. a +ℤ charge (is_raised (o >>= counted int_of_text)) n) used
          ∙ charge_next _ (is_raised (o >>= counted int_of_text)) n)
