-- ===== src/Budget/Examples.antt =====
-- Runs of the budget code on small inputs.
use emergence_os.Base.{◌≡◌, refl, true, false, none, some, raised, value_error, arith}
use emergence_os.Base.Int.{pos, negsuc, ◌+ℤ◌}
use emergence_os.Base.Dict
use emergence_os.Budget.{
  default_budget, post_init, clear_all, can_dispatch, within_limits, usage, add_usage,
  record_execution, check_timeout,
}
use emergence_os.Budget.Exhaustion.{record_execution-exhausted}

post_init_negative :
    post_init (record default_budget { max_retries = negsuc 0 }) ≡ raised value_error
unfolding post_init
post_init_negative = refl

timeout_after_300_seconds :
    (check_timeout (some 5) default_budget 300000006 ≡ true)
    × (check_timeout (some 5) default_budget 300000005 ≡ false)
    × (check_timeout none default_budget 300000006 ≡ false)
unfolding check_timeout
timeout_after_300_seconds = (refl, refl, refl)

-- Ten thousand tokens exhaust the default budget.
spent :
    (can_dispatch 7 default_budget
      (record_execution 7 (pos 10000) (pos 1) (pos 0) (pos 0) clear_all)).0
    ≡ false
unfolding can_dispatch within_limits record_execution usage add_usage ◌+ℤ◌ Dict.put Dict.get
    Dict.has
spent = refl

record_execution-exhausted_example :
    (can_dispatch 7 default_budget (
      record_execution 7
        (pos 5)
        (pos 1)
        (pos 20)
        (pos 3)
        (record_execution 7 (pos 10000) (pos 1) (pos 0) (pos 0) clear_all))).0
    ≡ false
record_execution-exhausted_example =
    record_execution-exhausted 7 7 (pos 5) (pos 1) (pos 20) (pos 3) default_budget
      (record_execution 7 (pos 10000) (pos 1) (pos 0) (pos 0) clear_all) (omega arith) (omega arith)
      (omega arith) spent
