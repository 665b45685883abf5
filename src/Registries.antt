-- ===== src/Registries.antt =====
-- The three registries of the kernel: live processes (emergence/kernel/process_table.py), process
-- definitions (emergence/kernel/registry.py) and runners (emergence/executor/executor.py).
pub mod ProcessTable
pub mod ProcessRegistry
pub mod Executor
pub mod Views
mod Examples
use emergence_os.Base.{Option, none, some, Outcome, returned, raised, Error}

-- `try: return d[k]`, with the error that the except clause raises.
abbrev pub or_raise {ℓ} : {V : Type ℓ} → Error → Option V → Outcome V
or_raise missing none = raised missing
or_raise missing (some v) = returned v
