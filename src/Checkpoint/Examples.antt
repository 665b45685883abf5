-- ===== src/Checkpoint/Examples.antt =====
-- A process that loses its memory and its usage, and is restored.
use emergence_os.Base.{
  ℕ, String, ◌≡◌, refl, false, ◌&&◌, if◌then◌else◌, none, some, [], ◌∷◌, returned, nat_eq,
  string_eq,
}
use emergence_os.Base.Bag
use emergence_os.Base.Bag.{Distinct}
use emergence_os.Base.Dict
use emergence_os.Base.Dict.{Dict}
use emergence_os.Base.Value.{Value, none_value, text}
use emergence_os.Base.Int.{pos}
use emergence_os.Budget.{default_budget, no_usage, usage_of}
use emergence_os.Checkpoint.{
  Recoverable, clear, create_checkpoint, restore_checkpoint, latest_for_process,
}
use emergence_os.Checkpoint.Recovery.{restore-create}
use emergence_os.Definition.{ProcessDefinition}
use emergence_os.Memory
use emergence_os.Memory.{Memory, MemoryKey, memory_key_eq, working, semantic, scoped, legacy}
use emergence_os.Process.{Process, new_process}

abbrev space_of : ℕ → String
space_of p = "default"

abbrev job : ProcessDefinition
job = record {
  process_definition_id = 1;
  name = "job";
  version = "1.0.0";
  implementation = "jobs:run";
  execution_spec = none;
  default_budget = default_budget;
  required_permissions = [];
}

abbrev seven : Process
seven = new_process job none none default_budget 7 100

abbrev empty : Memory
empty = record { entries = []; index = []; published = [] }

-- Entries of both layouts, of another category and of another process.
abbrev held : Dict MemoryKey Value
held =
    (legacy space_of 7 working "phase", text "one")
    ∷ (scoped space_of 7 semantic "step", text "other")
    ∷ (scoped space_of 7 working "step", text "two")
    ∷ (scoped space_of 8 working "step", text "three")
    ∷ []

abbrev before : Recoverable
before = record {
  checkpoints = clear;
  memory = record empty { entries = held };
  budgets = (7, record no_usage { tokens = pos 40 }) ∷ [];
  published = [];
}

latest_is_the_last :
    latest_for_process 7
      (create_checkpoint space_of 2 101 5 seven
        (create_checkpoint space_of 1 100 0 seven before).1).1.checkpoints
    ≡ returned (
        some
          (create_checkpoint space_of 2 101 5 seven
            (create_checkpoint space_of 1 100 0 seven before).1).0)
unfolding latest_for_process create_checkpoint Dict.get Dict.put Dict.has
latest_is_the_last = refl

held-Distinct : Distinct (Dict.keys held)
unfolding Dict.keys Bag.has
held-Distinct = (refl, (refl, (refl, (refl, tt))))

held_once :
    (Dict.has (scoped space_of 7 working "step") held
      && Dict.has (legacy space_of 7 working "step") held)
    ≡ false
unfolding Dict.has
held_once = refl

restore-create_example :
    let (c, r') = create_checkpoint space_of 1 100 0 seven before in
    (r'' : Recoverable) × (restore_checkpoint space_of 1 seven
        (record r' { memory = empty; budgets = [] })
      ≡ returned (c, r''))
    × (usage_of 7 r''.budgets ≡ usage_of 7 before.budgets)
    × (Memory.peek space_of 7 working "step" none_value r''.memory ≡ (
        if Memory.exists space_of 7 working "step" before.memory
        then Memory.peek space_of 7 working "step" none_value before.memory
        else Memory.peek space_of 7 working "step" none_value empty))
restore-create_example =
    restore-create space_of 1 100 0 seven before empty [] "step" none_value held-Distinct held_once
