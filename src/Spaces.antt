-- ===== src/Spaces.antt =====
-- emergence/spaces/registry.py: the namespaces of goals and memory, one of which is active.
pub mod Active
mod Examples
use emergence_os.Base.{
  ℕ, String, Bool, true, false, Option, none, some, List, [], ◌∷◌, Outcome, returned, raised,
  key_error, if◌then◌else◌, string_eq,
}
use emergence_os.Base.Dict
use emergence_os.Base.Dict.{Dict}

abbrev pub default_space_id : String
default_space_id = "default"

pub record Space : Type 0 where
  pub space_id : String
  pub name : String
  pub is_default : Bool
  pub created_at : ℕ

pub record SpaceRegistry : Type 0 where
  pub spaces : Dict String Space
  pub active_space_id : String

abbrev default_space : (now : ℕ) → Space
default_space now = record {
  space_id = default_space_id;
  name = "Default";
  is_default = true;
  created_at = now;
}

-- The constructor.
unfoldable pub new_registry : (now : ℕ) → SpaceRegistry
new_registry now = record {
  spaces = (default_space_id, default_space now) ∷ [];
  active_space_id = default_space_id;
}

-- `create`, where `space_id` is the new UUID.
unfoldable pub create : (space_id name : String) → (now : ℕ) → SpaceRegistry → SpaceRegistry
create space_id name now s = record s {
  spaces =
      Dict.put space_id
        (record { space_id = space_id; name = name; is_default = false; created_at = now })
        s.spaces;
}

unfoldable pub get : String → SpaceRegistry → Option Space
get space_id s = Dict.get space_id s.spaces

unfoldable pub list_all : SpaceRegistry → List Space
list_all s = Dict.values s.spaces

unfoldable pub switch_over : Option Space → String → SpaceRegistry → Outcome SpaceRegistry
switch_over none space_id s = raised key_error
switch_over (some space) space_id s = returned (record s { active_space_id = space_id })

unfoldable pub switch : String → SpaceRegistry → Outcome SpaceRegistry
unfolding switch_over get
switch space_id s = switch_over (get space_id s) space_id s

-- The data of `snapshot`, with the entries as spaces.
pub record Snapshot : Type 0 where
  pub saved_active : Option String
  pub saved_spaces : List Space

unfoldable pub snapshot : SpaceRegistry → Snapshot
snapshot s = record { saved_active = some s.active_space_id; saved_spaces = Dict.values s.spaces }

-- The loop of `restore`.
unfoldable pub put_all : List Space → Dict String Space → Dict String Space
put_all [] spaces = spaces
put_all (space ∷ saved) spaces = put_all saved (Dict.put space.space_id space spaces)

or_default : (now : ℕ) → Dict String Space → Dict String Space
or_default now [] = (default_space_id, default_space now) ∷ []
or_default now (item ∷ items) = item ∷ items

or_default_id : Option String → String
or_default_id none = default_space_id
or_default_id (some space_id) = space_id

-- `restore`: an active space that is not there is the default one.
unfoldable pub restore : Snapshot → (now : ℕ) → SpaceRegistry
unfolding put_all or_default or_default_id
restore saved now =
    let spaces = or_default now (put_all saved.saved_spaces []) in
    let active = or_default_id saved.saved_active in
    record {
      spaces = spaces;
      active_space_id = if Dict.has active spaces then active else default_space_id;
    }
