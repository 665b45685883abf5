-- ===== src/Security/GatedMemoryManager.antt =====
-- emergence/security/gated_memory_manager.py: the facade of a process to its memory.
use emergence_os.Base.{ℕ, String, Bool, Outcome, returned, ◌>>=◌}
use emergence_os.Base.Value.{Value}
use emergence_os.Memory
use emergence_os.Memory.{Memory, MemoryCategory}
use emergence_os.Security.{CapabilityManager, require, memory_read, memory_write}

module _ (space_of : (process_id : ℕ) → String) (manager : CapabilityManager) (pid : ℕ) where
  unfoldable pub store : String → Value → MemoryCategory → Memory → Outcome Memory
  store key value category m = require pid memory_write manager >>= λ _.
      returned (Memory.store space_of pid category key value m)

  unfoldable pub retrieve :
      String → MemoryCategory → (default : Value) → Memory → Outcome (Value × Memory)
  retrieve key category default m = require pid memory_read manager >>= λ _.
      returned (Memory.retrieve space_of pid category key default m)

  unfoldable pub delete : String → MemoryCategory → Memory → Outcome Memory
  delete key category m =
      require pid memory_write manager >>= λ _. returned (Memory.delete space_of pid category key m)

  unfoldable pub exists : String → MemoryCategory → Memory → Outcome Bool
  exists key category m =
      require pid memory_read manager >>= λ _. returned (Memory.exists space_of pid category key m)
