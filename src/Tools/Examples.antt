-- ===== src/Tools/Examples.antt =====
-- A tool that fails, and one that a process may not use.
use emergence_os.Base.{
  ℕ, ◌≡◌, refl, String, ◌||◌, some, [], ◌∷◌, Outcome, returned, raised, value_error,
  permission_denied, if◌then◌else◌, ◌>>=◌, string_eq, nat_eq,
}
use emergence_os.Base.Bag
use emergence_os.Base.Dict
use emergence_os.Base.Dict.{Dict}
use emergence_os.Base.Int.{ℤ, ◌+ℤ◌}
use emergence_os.Base.Value.{Value}
use emergence_os.Budget.{usage_of}
use emergence_os.Kernel.Examples.{job}
use emergence_os.Kernel.Revival.{is_raised}
use emergence_os.Security.{
  capability_eq, capabilities_for_definition, default_process_capabilities, grant_all, clear, has,
  require, tool_shell, CapabilityManager,
}
use emergence_os.Security.Grants.{declared}
use emergence_os.Tools.{ToolExecutor, ToolRequest, Raw, capability_for_tool, counted, gated_invoke}
use emergence_os.Tools.Charges.{charge, execute_times, execute_times_charges}
use emergence_os.Tools.Access.{ran, gated_invoke-grant_definition}

abbrev broken : ℕ → Dict String Value → ℕ → ToolExecutor → Outcome Raw × ToolExecutor
broken handler arguments p t = (raised value_error, t)

abbrev no_text : String → Outcome ℤ
no_text s = raised value_error

abbrev executor : ToolExecutor
executor = record { registry = ("shell.run", 3) ∷ []; budgets = []; published = [] }

abbrev request : ToolRequest
request = record { tool_name = "shell.run"; arguments = []; request_id = 9 }

abbrev trusted : CapabilityManager
trusted = (7, tool_shell ∷ []) ∷ []

shell_is_allowed : require 7 (capability_for_tool "shell.run") trusted ≡ returned tt
unfolding require has Bag.has Dict.get capability_for_tool
shell_is_allowed = refl

shell_is_found : Dict.get "shell.run" executor.registry ≡ some 3
unfolding Dict.get
shell_is_found = refl

execute_times_charges_example :
    (usage_of 7
      (execute_times broken no_text 4 trusted request 7 executor).budgets).tool_invocations
    ≡ (usage_of 7 executor.budgets).tool_invocations
      +ℤ charge (is_raised (raised value_error >>= counted no_text)) 4
execute_times_charges_example =
    execute_times_charges broken no_text 4 3 (raised value_error) trusted request 7 executor
      shell_is_allowed shell_is_found (λ t'. refl)

gated_invoke-grant_definition_example :
    gated_invoke broken no_text
      (grant_all 7 (capabilities_for_definition job) (clear 7 []))
      7
      9
      "shell.run"
      []
      executor
    ≡ (if declared (capability_for_tool "shell.run") job.required_permissions
          || Bag.has (capability_for_tool "shell.run") default_process_capabilities
        then ran broken no_text request 7 executor
        else (raised permission_denied, executor))
gated_invoke-grant_definition_example =
    gated_invoke-grant_definition broken no_text job [] 7 request executor
