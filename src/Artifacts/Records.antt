-- ===== src/Artifacts/Records.antt =====
-- emergence/artifacts/service.py: requests, and the steps that the operations share.
use emergence_os.Base.{
  ℕ, String, Bool, true, false, Option, none, some, List, [], ◌∷◌, ◌++◌, Outcome, returned, raised,
  value_error, key_error, if◌then◌else◌, ◌==◌, nat_eq, string_eq,
}
use emergence_os.Base.Dict
use emergence_os.Base.Dict.{Dict}
use emergence_os.Base.Int.{pos}
use emergence_os.Base.Value.{Value, integer, text}
use emergence_os.Artifacts.{
  is_active, Provenance, ArtifactRecord, ArtifactService, ArtifactEvent, Context, blob_path_eq,
  lineage_of, append_new, plugin_for,
}
use emergence_os.Artifacts.Watches.{notify_watchers}

-- A text or bytes.
pub data Content : Type 0 where
  characters : String → Content
  bytes : List ℕ → Content

-- The arguments of `create`. An absent dictionary or list is an empty one.
pub record CreateRequest : Type 0 where
  pub name : String
  pub artifact_type : String
  pub content : Content
  pub owner_process_id : Option ℕ
  pub owner_goal_id : Option ℕ
  pub space_id : Option String
  pub metadata : Dict String Value
  pub provenance : Provenance
  pub tags : List String
  pub mime_type : Option String
  pub based_on : Option ℕ
  pub knowledge_links : List String

-- The arguments of `update`.
pub record UpdateRequest : Type 0 where
  pub content : Content
  pub name : Option String
  pub metadata : Dict String Value
  pub tags : Option (List String)
  pub owner_process_id : Option ℕ

-- `a or b` for texts, and for ids.
abbrev pub or_text : Option String → String → String
or_text none b = b
or_text (some a) b = if a == "" then b else a

abbrev pub or_else : {A : Type 0} → Option A → Option A → Option A
or_else none b = b
or_else (some a) b = some a

-- `{**old, **new}`
unfoldable pub merged : (old new : Dict String Value) → Dict String Value
merged old [] = old
merged old ((key, value) ∷ new) = merged (Dict.put key value old) new

-- `d.setdefault(key, value)`
abbrev set_default : String → Value → Dict String Value → Dict String Value
set_default key value d = if Dict.has key d then d else Dict.put key value d

-- The id of an artifact or a process as an entry.
abbrev pub id_value : ℕ → Value
id_value n = integer (pos n)

-- `_index_record`
unfoldable pub index_record : (reindex : Bool) → ArtifactRecord → ArtifactService → ArtifactService
unfolding append_new lineage_of
index_record false r s = record s { records = Dict.put r.artifact_id r s.records }
index_record true r s = record s {
  records = Dict.put r.artifact_id r s.records;
  by_goal = under_goal r.owner_goal_id s.by_goal;
  by_type = append_new r.artifact_type r.artifact_id s.by_type;
  by_lineage = append_new (lineage_of r) r.artifact_id s.by_lineage;
}
  where
    under_goal : Option ℕ → Dict ℕ (List ℕ) → Dict ℕ (List ℕ)
    under_goal none d = d
    under_goal (some goal_id) d = append_new goal_id r.artifact_id d

require_found : Option ArtifactRecord → Outcome ArtifactRecord
require_found none = raised key_error
require_found (some r) = if is_active r.status then returned r else raised value_error

-- `_require_active`
unfoldable pub require_active : (artifact_id : ℕ) → ArtifactService → Outcome ArtifactRecord
unfolding require_found
require_active artifact_id s = require_found (Dict.get artifact_id s.records)

abbrev pub publish : ArtifactEvent → ArtifactService → ArtifactService
publish event s = record s { published = s.published ++ event ∷ [] }

-- A change of a record that the service holds.
abbrev pub put_record : ArtifactRecord → ArtifactService → ArtifactService
put_record r s = record s { records = Dict.put r.artifact_id r s.records }

with_name : Option ArtifactRecord → Dict String Value → Dict String Value
with_name none d = d
with_name (some parent) d = set_default "based_on_name" (text parent.name) d

-- The entries that name the artifact that the new one is based on.
with_base : Option ℕ → ArtifactService → Dict String Value → Dict String Value
unfolding with_name
with_base none s d = d
with_base (some id) s d =
    with_name (Dict.get id s.records) (Dict.put "based_on_artifact_id" (id_value id) d)

with_plugin : Option String → Dict String Value → Dict String Value
with_plugin none d = d
with_plugin (some plugin) d = set_default "created_by_plugin" (text plugin) d

with_owner : Option Context → Option ℕ → Dict String Value → Dict String Value
unfolding with_plugin plugin_for
with_owner ctx none d = d
with_owner ctx (some process_id) d =
    with_plugin (plugin_for ctx process_id)
      (set_default "created_by_process" (id_value process_id) d)

-- `_build_provenance`
unfoldable pub build_provenance :
    Option Context
    → Provenance
    → (owner based_on : Option ℕ) → (lineage_id : ℕ) → ArtifactService
    → Provenance
unfolding with_owner with_base
build_provenance ctx p owner based_on lineage_id s = record {
  lineage_id = or_else p.lineage_id (some lineage_id);
  entries = with_base based_on s (with_owner ctx owner p.entries);
}

-- The indexing, the event and the notification of a record whose content is stored.
unfoldable pub add_record :
    (ArtifactRecord → ArtifactEvent) → ArtifactRecord × ArtifactService → ArtifactService
unfolding index_record notify_watchers
add_record event (r, s) = notify_watchers r (publish (event r) (index_record true r s))
