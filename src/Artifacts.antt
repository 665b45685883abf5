-- ===== src/Artifacts.antt =====
-- emergence/artifacts/service.py: what the service keeps. Names that ids have as texts are the ids.
pub mod Records
pub mod Mutations
pub mod Watches
pub mod Reads
pub mod Snapshots
pub mod Lineage
pub mod Joining
pub mod Effects
pub mod Reachable
pub mod Versions
pub mod Restored
pub mod Settled
pub mod Notified
mod Examples
use emergence_os.Base.{
  ℕ, String, Bool, true, false, ◌&&◌, Option, none, some, List, [], ◌∷◌, ◌++◌, ◌≡◌, ◌↔◌, Hashable,
  nat_beq, if◌then◌else◌, ◌==◌, string_eq, nat_eq, arith,
}
use emergence_os.Base.Bag
use emergence_os.Base.Dict
use emergence_os.Base.Dict.{Dict}
use emergence_os.Base.Value.{Value}
use emergence_os.Goals.{GoalRegistry, GoalRecord, goal_for_process}
use emergence_os.Process.{Process}
use emergence_os.Registries.ProcessTable.{ProcessTable}

-- What the service takes from elsewhere: `str.lower`, the replacement of the characters that a file
-- name should not have, the guess by `mimetypes`, and UTF-8.
pub record Platform : Type 0 where
  pub lower : String → String
  pub safe_filename : String → String
  pub guess_mime_type : String → Option String
  pub encode : String → List ℕ

pub data ArtifactStatus : Type 0 where
  active superseded deleted : ArtifactStatus

abbrev pub is_active : ArtifactStatus → Bool
is_active active = true
is_active _ = false

-- The entry `lineage_id` stands apart. A caller may give it; an empty text counts as none.
pub record Provenance : Type 0 where
  pub lineage_id : Option ℕ
  pub entries : Dict String Value

-- Where the content of a version is stored, below the directory of the artifacts.
pub record BlobPath : Type 0 where
  pub space_id : String
  pub lineage : ℕ
  pub version : ℕ
  pub file_name : String

abbrev pub same_path : BlobPath → BlobPath → Bool
same_path a b =
    (a.space_id == b.space_id)
    && nat_beq a.lineage b.lineage
    && nat_beq a.version b.version
    && (a.file_name == b.file_name)

pub same_path_iff : (a b : BlobPath) → (same_path a b ≡ true) ↔ (a ≡ b)
same_path_iff a b = ground (
  arith,
  string_eq.same_iff a.space_id b.space_id,
  nat_eq.same_iff a.lineage b.lineage,
  nat_eq.same_iff a.version b.version,
  string_eq.same_iff a.file_name b.file_name,
)

instance abbrev pub blob_path_eq : Hashable BlobPath
blob_path_eq = record { same = same_path; same_iff = same_path_iff }

pub record ArtifactRecord : Type 0 where
  pub artifact_id : ℕ
  pub name : String
  pub artifact_type : String
  pub owner_goal_id : Option ℕ
  pub owner_process_id : Option ℕ
  pub space_id : String
  pub version : ℕ
  pub status : ArtifactStatus
  pub created_at : ℕ
  pub updated_at : ℕ
  pub metadata : Dict String Value
  pub provenance : Provenance
  pub tags : List String
  pub mime_type : Option String
  pub size_bytes : ℕ
  pub storage_key : Option BlobPath
  pub knowledge_links : List String
  pub links : Dict String (List String)

id_or : Option ℕ → ℕ → ℕ
id_or none id = id
id_or (some lineage) id = lineage

-- `lineage_id`
unfoldable pub lineage_of : ArtifactRecord → ℕ
unfolding id_or
lineage_of r = id_or r.provenance.lineage_id r.artifact_id

pub record Watch : Type 0 where
  pub process_id : ℕ
  pub artifact_id : Option ℕ
  pub artifact_type : Option String
  pub tags : List String

pub data ArtifactEvent : Type 0 where
  artifact_created : ArtifactRecord → ArtifactEvent
  artifact_updated : ArtifactRecord → (previous_version : ℕ) → ArtifactEvent
  artifact_deleted : ArtifactRecord → ArtifactEvent

-- `blobs` stands for the files, and `published` for the events on the bus.
pub record ArtifactService : Type 0 where
  pub records : Dict ℕ ArtifactRecord
  pub by_goal : Dict ℕ (List ℕ)
  pub by_type : Dict String (List ℕ)
  pub by_lineage : Dict ℕ (List ℕ)
  pub referenced_by : Dict String (List ℕ)
  pub watches : List Watch
  pub pending_notifications : List ℕ
  pub blobs : Dict BlobPath (List ℕ)
  pub published : List ArtifactEvent

abbrev pub new_service : ArtifactService
new_service = record {
  records = [];
  by_goal = [];
  by_type = [];
  by_lineage = [];
  referenced_by = [];
  watches = [];
  pending_notifications = [];
  blobs = [];
  published = [];
}

-- What a `defaultdict(list)` holds under a key.
unfoldable pub ids_under {κ} : {K : Type κ} → ⦃h : Hashable K⦄ → K → Dict K (List ℕ) → List ℕ
ids_under key d = or_empty (Dict.get key d)
  where
    or_empty : Option (List ℕ) → List ℕ
    or_empty none = []
    or_empty (some ids) = ids

-- `if id not in d[key]: d[key].append(id)`
unfoldable pub append_new {κ} :
    {K : Type κ} → ⦃h : Hashable K⦄ → K → (id : ℕ) → Dict K (List ℕ) → Dict K (List ℕ)
unfolding ids_under
append_new key id d =
    let ids = ids_under key d in Dict.put key (if Bag.has id ids then ids else ids ++ id ∷ []) d

-- The parts of the kernel context that the service asks, once it is bound.
pub record Context : Type 0 where
  pub goals : GoalRegistry
  pub process_table : ProcessTable

goal_of : Context → Option ℕ → Option ℕ
goal_of ctx none = none
goal_of ctx (some process_id) = goal_for_process process_id ctx.goals

-- `_goal_for_process`
unfoldable pub goal_for : Option Context → Option ℕ → Option ℕ
unfolding goal_of
goal_for none process_id = none
goal_for (some ctx) process_id = goal_of ctx process_id

space_of_record : Option GoalRecord → String
space_of_record none = "default"
space_of_record (some r) = r.space_id

space_of_goal : Context → Option ℕ → String
unfolding space_of_record
space_of_goal ctx none = "default"
space_of_goal ctx (some goal_id) = space_of_record (Dict.get goal_id ctx.goals.records)

-- `_space_for_process`
unfoldable pub space_for : Option Context → Option ℕ → String
unfolding space_of_goal goal_of
space_for none process_id = "default"
space_for (some ctx) process_id = space_of_goal ctx (goal_of ctx process_id)

definition_name : Option Process → Option String
definition_name none = none
definition_name (some p) = some p.definition.name

-- `_plugin_for_process`
unfoldable pub plugin_for : Option Context → ℕ → Option String
unfolding definition_name
plugin_for none process_id = none
plugin_for (some ctx) process_id = definition_name (Dict.get process_id ctx.process_table)
