-- ===== src/Security.antt =====
-- emergence/security/: capabilities, their manager and the authorization service.
mod Names
pub mod Grants
pub mod Gated
pub mod GatedStateStore
pub mod GatedMailboxManager
pub mod GatedEventBus
pub mod GatedMemoryManager
pub mod GatedCheckpointManager
mod Examples
unfoldable pub use Names.*
use emergence_os.Base.{
  ℕ, String, Bool, Option, none, some, List, [], ◌∷◌, Outcome, returned, raised, permission_denied,
  Hashable, if◌then◌else◌, nat_eq, string_eq,
}
use emergence_os.Base.Bag
use emergence_os.Base.Dict
use emergence_os.Base.Dict.{Dict}
use emergence_os.Definition.{ProcessDefinition}

add_known : Option Capability → List Capability → List Capability
add_known none granted = granted
add_known (some capability) granted = Bag.add capability granted

-- The loop of `capabilities_for_definition`.
grant_named : List String → List Capability → List Capability
unfolding add_known
grant_named [] granted = granted
grant_named (permission ∷ permissions) granted =
    grant_named permissions (add_known (Dict.get permission capability_by_name) granted)

unfoldable pub capabilities_for_definition : ProcessDefinition → List Capability
unfolding grant_named
capabilities_for_definition d = grant_named d.required_permissions default_process_capabilities

-- `_capabilities`. A `defaultdict(set)` makes an entry for a process that `grant` or `revoke`
-- names, but not for one that is only looked up.
abbrev pub CapabilityManager : Type 0
CapabilityManager = Dict ℕ (List Capability)

or_empty : Option (List Capability) → List Capability
or_empty none = []
or_empty (some granted) = granted

-- The copy that `capabilities` returns.
unfoldable pub capabilities : ℕ → CapabilityManager → List Capability
unfolding or_empty
capabilities pid manager = or_empty (Dict.get pid manager)

unfoldable pub grant : ℕ → Capability → CapabilityManager → CapabilityManager
unfolding capabilities
grant pid capability manager = Dict.put pid (Bag.add capability (capabilities pid manager)) manager

unfoldable pub revoke : ℕ → Capability → CapabilityManager → CapabilityManager
unfolding capabilities
revoke pid capability manager =
    Dict.put pid (Bag.discard capability (capabilities pid manager)) manager

unfoldable pub has : ℕ → Capability → CapabilityManager → Bool
unfolding capabilities
has pid capability manager = Bag.has capability (capabilities pid manager)

unfoldable pub clear : ℕ → CapabilityManager → CapabilityManager
clear pid manager = Dict.pop pid manager

abbrev pub clear_all : CapabilityManager → CapabilityManager
clear_all manager = []

-- The loops of the kernel and of the supervisor that give a process its capabilities.
unfoldable pub grant_all : ℕ → List Capability → CapabilityManager → CapabilityManager
grant_all pid [] manager = manager
grant_all pid (capability ∷ granted) manager = grant_all pid granted (grant pid capability manager)

-- `SecurityManager.require`
unfoldable pub require : ℕ → Capability → CapabilityManager → Outcome (Unit {0})
require pid capability manager =
    if has pid capability manager then returned tt else raised permission_denied

-- `SecurityManager.check`
unfoldable pub check : ℕ → Capability → CapabilityManager → Bool
check pid capability manager = has pid capability manager
