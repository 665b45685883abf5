-- ===== src/Security/GatedStateStore.antt =====
-- emergence/security/gated_state_store.py: the facade of a process to the state store.
use emergence_os.Base.{ℕ, String, Bool, List, Outcome, returned, ◌>>=◌}
use emergence_os.Base.Value.{Value}
use emergence_os.Security.{CapabilityManager, require, state_read, state_write}
use emergence_os.StateStore
use emergence_os.StateStore.{StateStore, Effect}

module _ (manager : CapabilityManager) (pid : ℕ) where
  unfoldable pub get : String → (default : Value) → StateStore → Outcome Value
  get key default s =
      require pid state_read manager >>= λ _. returned (StateStore.get key default s)

  unfoldable pub set : String → Value → StateStore → Outcome (StateStore × List Effect)
  set key value s = require pid state_write manager >>= λ _. returned (StateStore.set key value s)

  unfoldable pub delete : String → StateStore → Outcome (StateStore × List Effect)
  delete key s = require pid state_write manager >>= λ _. returned (StateStore.delete key s)

  unfoldable pub exists : String → StateStore → Outcome Bool
  exists key s = require pid state_read manager >>= λ _. returned (StateStore.exists key s)

  unfoldable pub keys : StateStore → Outcome (List String)
  keys s = require pid state_read manager >>= λ _. returned (StateStore.keys s)

  unfoldable pub watch : String → (callback : ℕ) → StateStore → Outcome StateStore
  watch key callback s =
      require pid state_read manager >>= λ _. returned (StateStore.watch key callback s)

  -- The one operation that asks for no capability.
  unfoldable pub unwatch : String → (callback : ℕ) → StateStore → StateStore
  unwatch key callback s = StateStore.unwatch key callback s
