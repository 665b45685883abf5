-- ===== src/Registries/ProcessTable.antt =====
-- emergence/kernel/process_table.py
use emergence_os.Base.{
  ℕ, Bool, Option, none, some, List, [], length, Outcome, returned, raised, process_already_exists,
  process_not_found, nat_eq, if◌then◌else◌,
}
use emergence_os.Base.Dict
use emergence_os.Base.Dict.{Dict}
use emergence_os.Process.{Process}
use emergence_os.Registries.{or_raise}

-- `_processes`
abbrev pub ProcessTable : Type 0
ProcessTable = Dict ℕ Process

unfoldable pub add : Process → ProcessTable → Outcome ProcessTable
add process table =
    if Dict.has process.process_id table
    then raised process_already_exists
    else returned (Dict.put process.process_id process table)

unfoldable pub remove_over : Option Process → ℕ → ProcessTable → Outcome (Process × ProcessTable)
remove_over none process_id table = raised process_not_found
remove_over (some process) process_id table = returned (process, Dict.pop process_id table)

unfoldable pub remove : ℕ → ProcessTable → Outcome (Process × ProcessTable)
unfolding remove_over
remove process_id table = remove_over (Dict.get process_id table) process_id table

unfoldable pub get : ℕ → ProcessTable → Outcome Process
get process_id table = or_raise process_not_found (Dict.get process_id table)

unfoldable pub exists : ℕ → ProcessTable → Bool
exists process_id table = Dict.has process_id table

-- `all`, and the order of `__iter__`.
unfoldable pub all : ProcessTable → List Process
all table = Dict.values table

unfoldable pub ids : ProcessTable → List ℕ
ids table = Dict.keys table

-- `__contains__`
unfoldable pub contains : ℕ → ProcessTable → Bool
contains process_id table = Dict.has process_id table

-- `__len__`
unfoldable pub count : ProcessTable → ℕ
count table = length table

abbrev pub clear : ProcessTable → ProcessTable
clear table = []
