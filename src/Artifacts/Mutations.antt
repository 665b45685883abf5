-- ===== src/Artifacts/Mutations.antt =====
-- emergence/artifacts/service.py: the operations that change the artifacts.
use emergence_os.Base.{
  ℕ, ◌+◌, String, not, Option, none, some, List, [], ◌∷◌, ◌++◌, map, select, length, Outcome,
  returned, raised, value_error, if◌then◌else◌, ◌==◌, nat_eq, string_eq, ◌>>=◌,
}
use emergence_os.Base.Bag
use emergence_os.Base.Dict
use emergence_os.Base.Dict.{Dict}
use emergence_os.Base.Text.{strip, is_blank}
use emergence_os.Base.Value.{Value, none_value}
use emergence_os.Artifacts.{
  Platform, active, superseded, deleted, Provenance, BlobPath, ArtifactRecord, ArtifactService,
  artifact_created, artifact_updated, artifact_deleted, Context, blob_path_eq, lineage_of,
  ids_under, goal_for, space_for,
}
use emergence_os.Artifacts.Watches.{notify_watchers}
-- A text or bytes.
use emergence_os.Artifacts.Records.{
  Content, CreateRequest, UpdateRequest, add_record, build_provenance, bytes, characters, id_value,
  merged, or_else, or_text, publish, put_record, require_active,
}

module _ (platform : Platform) where
  -- `_blob_path`
  unfoldable pub blob_path : ArtifactRecord → BlobPath
  unfolding lineage_of
  blob_path r = record {
    space_id = r.space_id;
    lineage = lineage_of r;
    version = r.version;
    file_name = platform.safe_filename r.name;
  }

  unfoldable pub bytes_of : Content → List ℕ
  bytes_of (characters s) = platform.encode s
  bytes_of (bytes b) = b

  -- `_write_blob`, and the two fields that are set after it. Encoding and writing do not fail here.
  unfoldable pub store_blob :
      ArtifactRecord → Content → ArtifactService → ArtifactRecord × ArtifactService
  unfolding blob_path bytes_of
  store_blob r content s = (
    record r { size_bytes = length (bytes_of content); storage_key = some (blob_path r) },
    record s { blobs = Dict.put (blob_path r) (bytes_of content) s.blobs },
  )

  -- The list of tags without the blank ones.
  unfoldable pub clean_tags : List String → List String
  unfolding is_blank strip
  clean_tags tags =
      map (λ tag. platform.lower (strip tag)) (select (λ tag. not (is_blank tag)) tags)

  unfoldable pub new_artifact :
      Option Context → (artifact_id now : ℕ) → CreateRequest → ArtifactService → ArtifactRecord
  unfolding space_for goal_for strip build_provenance clean_tags
  new_artifact ctx artifact_id now q s = record {
    artifact_id = artifact_id;
    name = strip q.name;
    artifact_type = platform.lower (strip q.artifact_type);
    owner_goal_id = or_else q.owner_goal_id (goal_for ctx q.owner_process_id);
    owner_process_id = q.owner_process_id;
    space_id = or_text q.space_id (space_for ctx q.owner_process_id);
    version = 1;
    status = active;
    created_at = now;
    updated_at = now;
    metadata = q.metadata;
    provenance = build_provenance ctx q.provenance q.owner_process_id q.based_on artifact_id s;
    tags = clean_tags q.tags;
    mime_type = or_else (mime_given q.mime_type) (platform.guess_mime_type q.name);
    size_bytes = 0;
    storage_key = none;
    knowledge_links = q.knowledge_links;
    links = [];
  }
    where
      mime_given : Option String → Option String
      mime_given none = none
      mime_given (some m) = if m == "" then none else some m

  unfoldable pub create :
      Option Context
      → (artifact_id now : ℕ) → CreateRequest
      → ArtifactService
      → Outcome (ArtifactRecord × ArtifactService)
  unfolding is_blank new_artifact store_blob add_record
  create ctx artifact_id now q s =
      if is_blank q.name
      then raised value_error
      else if is_blank q.artifact_type
      then raised value_error
      else let stored = store_blob (new_artifact ctx artifact_id now q s) q.content s in
        returned (stored.0, add_record artifact_created stored)

  updater : Option ℕ → Provenance → Value
  updater (some process_id) p = id_value process_id
  updater none p = or_none (Dict.get "updated_by_process" p.entries)
    where
      or_none : Option Value → Value
      or_none none = none_value
      or_none (some v) = v

  -- The provenance of a new version.
  unfoldable pub next_provenance : ArtifactRecord → Option ℕ → Provenance
  unfolding updater lineage_of
  next_provenance current owner = record {
    lineage_id = some (lineage_of current);
    entries = Dict.put "updated_by_process" (updater owner current.provenance) (
        Dict.put "previous_version" (id_value current.version) (
          Dict.put "previous_artifact_id" (id_value current.artifact_id)
            current.provenance.entries));
  }

  unfoldable pub next_version : (new_id now : ℕ) → UpdateRequest → ArtifactRecord → ArtifactRecord
  unfolding strip next_provenance clean_tags merged
  next_version new_id now q current = record {
    artifact_id = new_id;
    name = strip (or_text q.name current.name);
    artifact_type = current.artifact_type;
    owner_goal_id = current.owner_goal_id;
    owner_process_id = or_else q.owner_process_id current.owner_process_id;
    space_id = current.space_id;
    version = current.version + 1;
    status = active;
    created_at = current.created_at;
    updated_at = now;
    metadata = merged current.metadata q.metadata;
    provenance = next_provenance current q.owner_process_id;
    tags = tags_or q.tags;
    mime_type = current.mime_type;
    size_bytes = 0;
    storage_key = none;
    knowledge_links = current.knowledge_links;
    links = current.links;
  }
    where
      tags_or : Option (List String) → List String
      tags_or none = current.tags
      tags_or (some tags) = clean_tags tags

  -- `update` of an active record. The new version inherits the fields as they were.
  unfoldable pub update_found :
      (new_id now : ℕ)
      → UpdateRequest
      → ArtifactRecord
      → ArtifactService
      → ArtifactRecord × ArtifactService
  unfolding next_version store_blob add_record
  update_found new_id now q current s =
      let old : ArtifactRecord = record current { status = superseded } in
      let stored = store_blob (next_version new_id now q current) q.content (put_record old s) in
      (stored.0, add_record (λ r. artifact_updated r current.version) stored)

  unfoldable pub update :
      (artifact_id new_id now : ℕ)
      → UpdateRequest
      → ArtifactService
      → Outcome (ArtifactRecord × ArtifactService)
  unfolding require_active update_found
  update artifact_id new_id now q s =
      require_active artifact_id s >>= λ current. returned (update_found new_id now q current s)

-- `delete` of an active record.
unfoldable pub delete_found : (now : ℕ) → ArtifactRecord → ArtifactService → ArtifactService
unfolding notify_watchers
delete_found now r s =
    let gone : ArtifactRecord = record r { status = deleted; updated_at = now } in
    notify_watchers gone (publish (artifact_deleted gone) (put_record gone s))

unfoldable pub delete : (artifact_id now : ℕ) → ArtifactService → Outcome ArtifactService
unfolding require_active delete_found
delete artifact_id now s = require_active artifact_id s >>= λ r. returned (delete_found now r s)

or_empty : Option (List String) → List String
or_empty none = []
or_empty (some targets) = targets

-- `links` with one more target of a type.
unfoldable pub link_to :
    (link_type target : String) → Dict String (List String) → Dict String (List String)
unfolding or_empty
link_to link_type target links =
    let bucket = or_empty (Dict.get link_type links) in
    Dict.put link_type (if Bag.has target bucket then bucket else bucket ++ target ∷ []) links

unfoldable pub link_found :
    (target link_type : String) → (now : ℕ) → ArtifactRecord → ArtifactService → ArtifactService
unfolding link_to ids_under Bag.add
link_found target link_type now r s =
    record (put_record (record r { links = link_to link_type target r.links; updated_at = now })
      s) {
        referenced_by =
            Dict.put target (Bag.add r.artifact_id (ids_under target s.referenced_by))
              s.referenced_by;
      }

unfoldable pub link :
    (artifact_id : ℕ)
    → (target link_type : String) → (now : ℕ) → ArtifactService
    → Outcome ArtifactService
unfolding require_active is_blank link_found
link artifact_id target link_type now s = require_active artifact_id s >>= λ r.
    if is_blank target then raised value_error else returned (link_found target link_type now r s)
