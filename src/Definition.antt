-- ===== src/Definition.antt =====
-- emergence/core/execution_spec.py and emergence/core/process_definition.py. The `config` and
-- `metadata` dictionaries, which the kernel never reads, and `description` are left out.
use emergence_os.Base.{
  ℕ, String, Option, none, some, List, Outcome, returned, raised, value_error, if◌then◌else◌, ◌==◌,
  string_eq,
}
use emergence_os.Base.Text.{is_blank}
use emergence_os.Budget.{ResourceBudget}

pub record ExecutionSpec : Type 0 where
  pub runner : String
  pub target : String

-- `ExecutionSpec.__post_init__`
unfoldable pub check_spec : ExecutionSpec → Outcome ExecutionSpec
check_spec s =
    if is_blank s.runner
    then raised value_error
    else if is_blank s.target
    then raised value_error
    else returned s

pub record ProcessDefinition : Type 0 where
  pub process_definition_id : ℕ
  pub name : String
  pub version : String
  pub implementation : String
  pub execution_spec : Option ExecutionSpec
  pub default_budget : ResourceBudget
  pub required_permissions : List String

-- The end of `ProcessDefinition.__post_init__`, by the execution spec.
resolve_implementation : Option ExecutionSpec → ProcessDefinition → Outcome ProcessDefinition
resolve_implementation (some spec) d =
    returned (if d.implementation == "" then record d { implementation = spec.target } else d)
resolve_implementation none d = if is_blank d.implementation then raised value_error else returned d

-- `ProcessDefinition.__post_init__`
unfoldable pub check_definition : ProcessDefinition → Outcome ProcessDefinition
unfolding resolve_implementation
check_definition d =
    if is_blank d.name
    then raised value_error
    else if is_blank d.version
    then raised value_error
    else resolve_implementation d.execution_spec d

spec_target : Option ExecutionSpec → String → String
spec_target (some spec) implementation = spec.target
spec_target none implementation = implementation

unfoldable pub runner_key : ProcessDefinition → String
unfolding spec_target
runner_key d = spec_target d.execution_spec d.implementation
