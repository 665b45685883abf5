-- ===== src/Registries/Examples.antt =====
-- Registries with one entry.
use emergence_os.Base.{◌≡◌, refl, none, [], ◌∷◌, raised, process_already_exists, nat_eq, string_eq}
use emergence_os.Base.Dict
use emergence_os.Budget.{default_budget}
use emergence_os.Definition.{ProcessDefinition}
use emergence_os.Process.{Process, new_process}
use emergence_os.Registries.ProcessTable
use emergence_os.Registries.ProcessTable.{ProcessTable}

abbrev job : ProcessDefinition
job = record {
  process_definition_id = 1;
  name = "job";
  version = "1.0.0";
  implementation = "jobs:run";
  execution_spec = none;
  default_budget = default_budget;
  required_permissions = [];
}

abbrev seven : Process
seven = new_process job none none default_budget 7 100

added_twice : ProcessTable.add seven ((7, seven) ∷ []) ≡ raised process_already_exists
unfolding ProcessTable.add Dict.has
added_twice = refl
