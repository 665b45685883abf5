-- ===== src/Artifacts/Snapshots.antt =====
-- emergence/artifacts/service.py: records as a snapshot keeps them, and `restore`. Times are kept
-- as they are, and a blob's path stands for its text.
use emergence_os.Base.{
  ℕ, String, false, Option, none, some, List, [], ◌∷◌, map, Outcome, returned, raised, value_error,
  if◌then◌else◌, ◌==◌, string_eq, nat_eq, ◌>>=◌,
}
use emergence_os.Base.Bag
use emergence_os.Base.Dict
use emergence_os.Base.Dict.{Dict}
use emergence_os.Base.Value.{Value}
use emergence_os.Artifacts.{
  ArtifactStatus, active, superseded, deleted, Provenance, BlobPath, ArtifactRecord,
  ArtifactService, Watch, ids_under,
}
use emergence_os.Artifacts.Records.{index_record}

-- What `_serialize_record` writes. `_deserialize_record` does without the optional entries.
pub record RawArtifact : Type 0 where
  pub artifact_id : ℕ
  pub name : String
  pub artifact_type : String
  pub owner_goal_id : Option ℕ
  pub owner_process_id : Option ℕ
  pub space_id : Option String
  pub version : Option ℕ
  pub status : Option String
  pub created_at : ℕ
  pub updated_at : ℕ
  pub metadata : Option (Dict String Value)
  pub provenance : Option Provenance
  pub tags : Option (List String)
  pub mime_type : Option String
  pub size_bytes : Option ℕ
  pub storage_key : Option BlobPath
  pub knowledge_links : Option (List String)
  pub links : Option (Dict String (List String))

-- The values of `ArtifactStatus`.
unfoldable pub status_value : ArtifactStatus → String
status_value active = "active"
status_value superseded = "superseded"
status_value deleted = "deleted"

-- `ArtifactStatus(text)`
unfoldable pub status_from : String → Outcome ArtifactStatus
status_from name =
    if name == "active"
    then returned active
    else if name == "superseded"
    then returned superseded
    else if name == "deleted"
    then returned deleted
    else raised value_error

unfoldable pub serialize_record : ArtifactRecord → RawArtifact
unfolding status_value
serialize_record r = record {
  artifact_id = r.artifact_id;
  name = r.name;
  artifact_type = r.artifact_type;
  owner_goal_id = r.owner_goal_id;
  owner_process_id = r.owner_process_id;
  space_id = some r.space_id;
  version = some r.version;
  status = some (status_value r.status);
  created_at = r.created_at;
  updated_at = r.updated_at;
  metadata = some r.metadata;
  provenance = some r.provenance;
  tags = some r.tags;
  mime_type = r.mime_type;
  size_bytes = some r.size_bytes;
  storage_key = r.storage_key;
  knowledge_links = some r.knowledge_links;
  links = some r.links;
}

-- `raw.get(key, default)`
unfoldable pub get_or {ℓ} : {A : Type ℓ} → Option A → A → A
get_or none a = a
get_or (some b) a = b

unfoldable pub deserialize_record : RawArtifact → Outcome ArtifactRecord
unfolding status_from get_or
deserialize_record raw = status_from (get_or raw.status "active") >>= λ status. returned (record {
  artifact_id = raw.artifact_id;
  name = raw.name;
  artifact_type = raw.artifact_type;
  owner_goal_id = raw.owner_goal_id;
  owner_process_id = raw.owner_process_id;
  space_id = get_or raw.space_id "default";
  version = get_or raw.version 1;
  status = status;
  created_at = raw.created_at;
  updated_at = raw.updated_at;
  metadata = get_or raw.metadata [];
  provenance = get_or raw.provenance (record { lineage_id = none; entries = [] });
  tags = get_or raw.tags [];
  mime_type = raw.mime_type;
  size_bytes = get_or raw.size_bytes 0;
  storage_key = raw.storage_key;
  knowledge_links = get_or raw.knowledge_links [];
  links = get_or raw.links [];
})

pub record Snapshot : Type 0 where
  pub artifacts : List RawArtifact
  pub watches : List Watch

unfoldable pub snapshot : ArtifactService → Snapshot
unfolding serialize_record
snapshot s = record {
  artifacts = map serialize_record (Dict.values s.records);
  watches = s.watches;
}

-- The innermost loop of `_rebuild_reference_index`.
refer_to : (artifact_id : ℕ) → List String → Dict String (List ℕ) → Dict String (List ℕ)
unfolding Bag.add ids_under
refer_to artifact_id [] d = d
refer_to artifact_id (target ∷ targets) d =
    refer_to artifact_id targets (Dict.put target (Bag.add artifact_id (ids_under target d)) d)

refer_all : (artifact_id : ℕ) → List (List String) → Dict String (List ℕ) → Dict String (List ℕ)
unfolding refer_to
refer_all artifact_id [] d = d
refer_all artifact_id (targets ∷ buckets) d =
    refer_all artifact_id buckets (refer_to artifact_id targets d)

references : List ArtifactRecord → Dict String (List ℕ) → Dict String (List ℕ)
unfolding refer_all
references [] d = d
references (r ∷ rs) d = references rs (refer_all r.artifact_id (Dict.values r.links) d)

unfoldable pub rebuild_reference_index : ArtifactService → ArtifactService
unfolding references
rebuild_reference_index s = record s { referenced_by = references (Dict.values s.records) [] }

-- The loop of `restore`.
unfoldable pub restore_records : List RawArtifact → ArtifactService → Outcome ArtifactService
unfolding deserialize_record index_record
restore_records [] s = returned s
restore_records (raw ∷ raws) s =
    deserialize_record raw >>= λ r. restore_records raws (index_record false r s)

-- The service that a status raises an error in has part of the records; it is left out.
unfoldable pub restore : Snapshot → ArtifactService → Outcome ArtifactService
unfolding restore_records rebuild_reference_index
restore saved s =
    restore_records saved.artifacts (record s {
      records = [];
      by_goal = [];
      by_type = [];
      by_lineage = [];
      referenced_by = [];
      watches = saved.watches;
    })
    >>= λ t. returned (rebuild_reference_index t)
