-- ===== src/Security/GatedCheckpointManager.antt =====
-- emergence/security/gated_checkpoint_manager.py: the facade of a process to its checkpoints.
use emergence_os.Base.{ℕ, String, Outcome, returned, ◌>>=◌}
use emergence_os.Checkpoint
use emergence_os.Checkpoint.{Recoverable}
use emergence_os.Process.{Process}
use emergence_os.Security.{CapabilityManager, require, checkpoint_create, checkpoint_restore}

-- `process_of` is the getter of the process table.
module _ (space_of : (process_id : ℕ) → String) (process_of : (process_id : ℕ) → Outcome Process)
    (manager : CapabilityManager) (pid : ℕ) where
  -- `create` leaves the event offset at its default.
  unfoldable pub create : (checkpoint_id now : ℕ) → Recoverable → Outcome (ℕ × Recoverable)
  create checkpoint_id now r = require pid checkpoint_create manager >>= λ _.
      process_of pid >>= λ p.
      let (c, r') = Checkpoint.create_checkpoint space_of checkpoint_id now 0 p r in
      returned (c.checkpoint_id, r')

  unfoldable pub restore : (checkpoint_id : ℕ) → Recoverable → Outcome Recoverable
  restore checkpoint_id r = require pid checkpoint_restore manager >>= λ _. process_of pid >>= λ p.
      Checkpoint.restore_checkpoint space_of checkpoint_id p r
      >>= λ (done : Checkpoint.Checkpoint × Recoverable). returned done.1
