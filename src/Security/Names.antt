-- ===== src/Security/Names.antt =====
-- emergence/security/capability.py and the constants of emergence/security/capabilities.py.
use emergence_os.Base.{
  String, Bool, true, false, ◌&&◌, ◌≡◌, ◌↔◌, Option, none, some, List, [], ◌∷◌, map, arith,
  Hashable, ◌==◌, string_eq,
}
use emergence_os.Base.Dict.{Dict}

pub record Capability : Type 0 where
  pub name : String
  pub description : Option String

abbrev pub same_description : Option String → Option String → Bool
same_description none none = true
same_description (some a) (some b) = a == b
same_description _ _ = false

same_description_iff : (a b : Option String) → (same_description a b ≡ true) ↔ (a ≡ b)
same_description_iff none none = ground arith
same_description_iff (some a) (some b) = ground (arith, string_eq.same_iff a b)
same_description_iff none (some b) = ground arith
same_description_iff (some a) none = ground arith

abbrev pub same_capability : Capability → Capability → Bool
same_capability a b = (a.name == b.name) && same_description a.description b.description

pub same_capability_iff : (a b : Capability) → (same_capability a b ≡ true) ↔ (a ≡ b)
same_capability_iff a b =
    ground
      (arith, string_eq.same_iff a.name b.name, same_description_iff a.description b.description)

-- The `==` of the dataclass, which compares both fields.
instance abbrev pub capability_eq : Hashable Capability
capability_eq = record { same = same_capability; same_iff = same_capability_iff }

abbrev pub state_read : Capability
state_read = record {
  name = "state.read";
  description = some "Read values from the global StateStore.";
}

abbrev pub state_write : Capability
state_write = record {
  name = "state.write";
  description = some "Create, update or delete values in the StateStore.";
}

abbrev pub memory_read : Capability
memory_read = record { name = "memory.read"; description = some "Read long-term memory." }

abbrev pub memory_write : Capability
memory_write = record { name = "memory.write"; description = some "Write long-term memory." }

abbrev pub event_publish : Capability
event_publish = record {
  name = "event.publish";
  description = some "Publish events to the EventBus.";
}

abbrev pub event_subscribe : Capability
event_subscribe = record {
  name = "event.subscribe";
  description = some "Subscribe to events from the EventBus.";
}

abbrev pub message_send : Capability
message_send = record {
  name = "message.send";
  description = some "Send messages to other processes via the kernel.";
}

abbrev pub process_create : Capability
process_create = record { name = "process.create"; description = some "Create new processes." }

abbrev pub process_terminate : Capability
process_terminate = record {
  name = "process.terminate";
  description = some "Terminate running processes.";
}

abbrev pub process_inspect : Capability
process_inspect = record {
  name = "process.inspect";
  description = some "Inspect running processes.";
}

abbrev pub filesystem_read : Capability
filesystem_read = record {
  name = "filesystem.read";
  description = some "Read from the virtual filesystem.";
}

abbrev pub filesystem_write : Capability
filesystem_write = record {
  name = "filesystem.write";
  description = some "Write to the virtual filesystem.";
}

abbrev pub artifact_read : Capability
artifact_read = record {
  name = "artifact.read";
  description = some "Read and search physical artifacts.";
}

abbrev pub artifact_write : Capability
artifact_write = record {
  name = "artifact.write";
  description = some "Create, update, and delete physical artifacts.";
}

abbrev pub tool_python : Capability
tool_python = record { name = "tool.python"; description = some "Execute Python code." }

abbrev pub tool_shell : Capability
tool_shell = record { name = "tool.shell"; description = some "Execute shell commands." }

abbrev pub tool_browser : Capability
tool_browser = record { name = "tool.browser"; description = some "Access web browsers." }

abbrev pub tool_llm : Capability
tool_llm = record { name = "tool.llm"; description = some "Invoke language models." }

abbrev pub tool_database : Capability
tool_database = record { name = "tool.database"; description = some "Access databases." }

abbrev pub kernel_admin : Capability
kernel_admin = record {
  name = "kernel.admin";
  description = some "Full access to kernel services.";
}

abbrev pub checkpoint_create : Capability
checkpoint_create = record {
  name = "checkpoint.create";
  description = some "Create process checkpoints.";
}

abbrev pub checkpoint_restore : Capability
checkpoint_restore = record {
  name = "checkpoint.restore";
  description = some "Restore process state from a checkpoint.";
}

-- The capabilities in the order of `CAPABILITY_BY_NAME`.
abbrev pub known_capabilities : List Capability
known_capabilities =
    state_read ∷ state_write ∷ memory_read ∷ memory_write ∷ event_publish ∷ event_subscribe
    ∷ message_send ∷ process_create ∷ process_terminate ∷ process_inspect ∷ filesystem_read
    ∷ filesystem_write ∷ artifact_read ∷ artifact_write ∷ tool_python ∷ tool_shell ∷ tool_browser
    ∷ tool_llm ∷ tool_database ∷ kernel_admin ∷ checkpoint_create ∷ checkpoint_restore ∷ []

-- The entries of the comprehension. No two capabilities share a name.
abbrev pub capability_by_name : Dict String Capability
capability_by_name = map (λ c. (c.name, c)) known_capabilities

-- A set.
abbrev pub default_process_capabilities : List Capability
default_process_capabilities =
    state_read ∷ state_write ∷ event_publish ∷ event_subscribe ∷ message_send ∷ []
