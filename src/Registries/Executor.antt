-- ===== src/Registries/Executor.antt =====
-- emergence/executor/executor.py. A runner is a number; what runners do is a parameter.
use emergence_os.Base.{
  ℕ, String, Bool, List, [], length, Outcome, returned, raised, runner_already_registered,
  runner_not_found, string_eq, if◌then◌else◌, ◌>>=◌,
}
use emergence_os.Base.Dict
use emergence_os.Base.Dict.{Dict}
use emergence_os.Definition.{ProcessDefinition, runner_key}
use emergence_os.Registries.{or_raise}

-- `_runners`
abbrev pub Executor : Type 0
Executor = Dict String ℕ

unfoldable pub register_runner : String → (runner : ℕ) → Executor → Outcome Executor
register_runner implementation runner executor =
    if Dict.has implementation executor
    then raised runner_already_registered
    else returned (Dict.put implementation runner executor)

unfoldable pub unregister_runner : String → Executor → Executor
unregister_runner implementation executor = Dict.pop implementation executor

unfoldable pub has_runner : String → Executor → Bool
has_runner implementation executor = Dict.has implementation executor

-- `run` is what `runner.run(context)` does for a process of the definition.
unfoldable pub execute :
    {A : Type 0}
    → (run : (runner : ℕ) → ProcessDefinition → Outcome A) → ProcessDefinition
    → Executor
    → Outcome A
execute run definition executor =
    or_raise runner_not_found (Dict.get (runner_key definition) executor) >>= λ runner.
    run runner definition

unfoldable pub registered_implementations : Executor → List String
registered_implementations executor = Dict.keys executor

abbrev pub clear : Executor → Executor
clear executor = []

-- `__len__`
unfoldable pub count : Executor → ℕ
count executor = length executor
