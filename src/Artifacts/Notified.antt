-- ===== src/Artifacts/Notified.antt =====
-- emergence/artifacts/service.py: which processes a new artifact is told to.
use emergence_os.Base.{
  ℕ, Bool, true, false, ◌||◌, ◌&&◌, Option, none, some, List, [], ◌∷◌, ◌≡◌, refl, subst, ◌∙◌, ◌==◌,
  ==_refl, nat_eq, arith, returned,
}
use emergence_os.Base.Bag
use emergence_os.Artifacts.{
  Platform, Context, ArtifactService, ArtifactRecord, Watch, ArtifactEvent, artifact_created,
  lineage_of,
}
use emergence_os.Artifacts.Mutations.{create, new_artifact, store_blob}
use emergence_os.Artifacts.Records.{CreateRequest, add_record, index_record}
use emergence_os.Artifacts.Watches.{notify_watchers, told, matches_id, matches_rest, in_own_lineage}
use emergence_os.Artifacts.Lineage.{has-ids_under-append_new}
use emergence_os.Artifacts.Effects.{create-eq-returned}

-- The process has a watch whose type and tags fit the artifact.
unfoldable pub is_watched_by : (process_id : ℕ) → List Watch → ArtifactRecord → Bool
is_watched_by process_id [] r = false
is_watched_by process_id (w ∷ watches) r =
    (w.process_id == process_id) && matches_rest w r || is_watched_by process_id watches r

has-told :
    (process_id : ℕ) (watches : List Watch) (r : ArtifactRecord) (s : ArtifactService)
    (pending : List ℕ)
    → in_own_lineage r s ≡ true
    → Bag.has process_id (told watches r s pending)
      ≡ (is_watched_by process_id watches r || Bag.has process_id pending)
unfolding told is_watched_by
has-told process_id [] r s pending own = refl
has-told process_id (w ∷ watches) r s pending own =
    has-told process_id watches r s _ own
    ∙ ground (arith, any_id w.artifact_id, Bag.has-add w.process_id process_id pending)
  where
    any_id : (id : Option ℕ) → matches_id id r s ≡ true
    any_id none = refl
    any_id (some id) = ground (arith, own)

add_record-told :
    (process_id : ℕ) (event : ArtifactRecord → ArtifactEvent) (r : ArtifactRecord)
    (s : ArtifactService)
    → Bag.has process_id ((add_record event (r, s)).pending_notifications)
      ≡ (is_watched_by process_id s.watches r || Bag.has process_id s.pending_notifications)
unfolding add_record notify_watchers index_record in_own_lineage
add_record-told process_id event r s = has-told process_id s.watches r _ s.pending_notifications (
    has-ids_under-append_new (lineage_of r) (lineage_of r) r.artifact_id r.artifact_id s.by_lineage
    ∙ ground (arith, ==_refl (lineage_of r), ==_refl r.artifact_id))

-- `create` tells exactly the processes that have a watch whose type and tags fit the new artifact.
-- The artifact that a watch names has no effect.
pub create-told :
    (platform : Platform) (ctx : Option Context) (id now : ℕ) (q : CreateRequest)
    (s : ArtifactService) (r : ArtifactRecord) (t : ArtifactService) (process_id : ℕ)
    → create platform ctx id now q s ≡ returned (r, t)
    → Bag.has process_id t.pending_notifications
      ≡ (is_watched_by process_id s.watches r || Bag.has process_id s.pending_notifications)
unfolding store_blob
create-told platform ctx id now q s r t process_id h =
    let new = store_blob platform (new_artifact platform ctx id now q s) q.content s in
    subst
      (λ (out : ArtifactRecord × ArtifactService).
        Bag.has process_id (out.1).pending_notifications ≡ (
          is_watched_by process_id s.watches (out.0) || Bag.has process_id s.pending_notifications))
      (create-eq-returned platform ctx id now q s (r, t) h)
      (add_record-told process_id artifact_created (new.0) (new.1))
