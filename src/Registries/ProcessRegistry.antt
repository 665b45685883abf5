-- ===== src/Registries/ProcessRegistry.antt =====
-- emergence/kernel/registry.py
use emergence_os.Base.{
  ℕ, String, Bool, List, [], length, Outcome, returned, raised, definition_already_registered,
  definition_not_found, string_eq, if◌then◌else◌,
}
use emergence_os.Base.Dict
use emergence_os.Base.Dict.{Dict}
use emergence_os.Definition.{ProcessDefinition}
use emergence_os.Registries.{or_raise}

-- `_definitions`
abbrev pub ProcessRegistry : Type 0
ProcessRegistry = Dict String ProcessDefinition

unfoldable pub register : ProcessDefinition → ProcessRegistry → Outcome ProcessRegistry
register definition registry =
    if Dict.has definition.name registry
    then raised definition_already_registered
    else returned (Dict.put definition.name definition registry)

unfoldable pub unregister : String → ProcessRegistry → ProcessRegistry
unregister name registry = Dict.pop name registry

unfoldable pub get : String → ProcessRegistry → Outcome ProcessDefinition
get name registry = or_raise definition_not_found (Dict.get name registry)

unfoldable pub exists : String → ProcessRegistry → Bool
exists name registry = Dict.has name registry

unfoldable pub all : ProcessRegistry → List ProcessDefinition
all registry = Dict.values registry

abbrev pub clear : ProcessRegistry → ProcessRegistry
clear registry = []

-- `__len__`
unfoldable pub count : ProcessRegistry → ℕ
count registry = length registry
