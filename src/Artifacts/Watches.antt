-- ===== src/Artifacts/Watches.antt =====
-- emergence/artifacts/service.py: processes that are told of artifacts.
use emergence_os.Base.{
  ℕ, String, Bool, true, false, ◌||◌, ◌&&◌, Option, none, some, List, [], ◌∷◌, ◌++◌, map,
  if◌then◌else◌, ◌==◌, nat_eq, string_eq,
}
use emergence_os.Base.Bag
use emergence_os.Base.Text.{strip}
use emergence_os.Artifacts.{Platform, ArtifactRecord, ArtifactService, Watch, lineage_of, ids_under}

-- `required.issubset(set(tags))`
unfoldable pub is_subset : (required tags : List String) → Bool
unfolding Bag.has
is_subset [] tags = true
is_subset (tag ∷ required) tags = Bag.has tag tags && is_subset required tags

-- `str(record.artifact_id) == record_id` for an id of the record's lineage.
unfoldable pub in_own_lineage : ArtifactRecord → ArtifactService → Bool
unfolding ids_under Bag.has
in_own_lineage r s = Bag.has r.artifact_id (ids_under (lineage_of r) s.by_lineage)

-- The first test of `_notify_watchers`.
unfoldable pub matches_id : Option ℕ → ArtifactRecord → ArtifactService → Bool
unfolding in_own_lineage lineage_of
matches_id none r s = true
matches_id (some id) r s = (id == r.artifact_id) || in_own_lineage r s || (id == lineage_of r)

matches_type : Option String → ArtifactRecord → Bool
matches_type none r = true
matches_type (some artifact_type) r = artifact_type == r.artifact_type

-- The two other tests.
unfoldable pub matches_rest : Watch → ArtifactRecord → Bool
unfolding matches_type is_subset
matches_rest w r = matches_type w.artifact_type r && is_subset w.tags r.tags

-- The loop of `_notify_watchers`.
unfoldable pub told : List Watch → ArtifactRecord → ArtifactService → List ℕ → List ℕ
unfolding matches_id matches_rest Bag.add
told [] r s pending = pending
told (w ∷ watches) r s pending = told watches r s (
    if matches_id w.artifact_id r s && matches_rest w r
    then Bag.add w.process_id pending
    else pending)

unfoldable pub notify_watchers : ArtifactRecord → ArtifactService → ArtifactService
unfolding told
notify_watchers r s = record s {
  pending_notifications = told s.watches r s s.pending_notifications;
}

module _ (platform : Platform) where
  lowered : Option String → Option String
  unfolding strip
  lowered none = none
  lowered (some artifact_type) =
      if artifact_type == "" then none else some (platform.lower (strip artifact_type))

  unfoldable pub register_watch :
      (process_id : ℕ) (artifact_id : Option ℕ) (artifact_type : Option String) (tags : List String)
      → ArtifactService
      → ArtifactService
  unfolding lowered strip
  register_watch process_id artifact_id artifact_type tags s = record s {
    watches =
        s.watches
        ++ record {
          process_id = process_id;
          artifact_id = artifact_id;
          artifact_type = lowered artifact_type;
          tags = map (λ tag. platform.lower (strip tag)) tags;
        }
          ∷ [];
  }

-- `consume_notification`
unfoldable pub consume_notification : (process_id : ℕ) → ArtifactService → Bool × ArtifactService
unfolding Bag.has Bag.discard
consume_notification process_id s =
    if Bag.has process_id s.pending_notifications
    then (true, record s { pending_notifications = Bag.discard process_id s.pending_notifications })
    else (false, s)
