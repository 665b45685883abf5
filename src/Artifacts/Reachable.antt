-- ===== src/Artifacts/Reachable.antt =====
-- emergence/artifacts/service.py: every sequence of operations keeps the records and the index of
-- versions in agreement.
use emergence_os.Base.{
  ℕ, String, Bool, true, false, Option, none, List, [], ◌≡◌, subst, inl, inr, nat_eq, Bool-cases,
  arith, returned,
}
use emergence_os.Base.Bag
use emergence_os.Base.Dict
use emergence_os.Base.Dict.{Dict}
use emergence_os.Artifacts.{
  Platform, Context, ArtifactService, ArtifactRecord, new_service, ids_under,
}
use emergence_os.Artifacts.Mutations.{
  create, update, update_found, delete, link, new_artifact, next_version, store_blob,
}
use emergence_os.Artifacts.Records.{CreateRequest, UpdateRequest, add_record, index_record}
use emergence_os.Artifacts.Watches.{register_watch, consume_notification, notify_watchers}
use emergence_os.Artifacts.Lineage.{IsSound}
use emergence_os.Artifacts.Snapshots.{snapshot, restore}
use emergence_os.Artifacts.Settled.{
  AreVersioned, IsSettled, with_index, IsSettled-AreVersioned, delete-IsSettled, link-IsSettled,
  restore-IsSettled,
}
use emergence_os.Artifacts.Effects.{
  IsConsistent, create-eq-returned, update-eq-returned, create-IsSound, create-IsConsistent,
  update-IsConsistent, delete-IsConsistent, link-IsConsistent,
}

-- A service after operations on it, and whether it was restored. What is restored was saved from
-- such a service. A new id is new, and no caller of `create` gives a lineage.
pub data Reachable (platform : Platform) : (was_restored : Bool) → ArtifactService → Type 0 where
  started : Reachable platform false new_service
  created :
      (ctx : Option Context) (id now : ℕ) (q : CreateRequest) (s : ArtifactService)
      (r : ArtifactRecord) (t : ArtifactService) {b : Bool}
      → Reachable platform b s
      → Dict.has id s.records ≡ false
      → q.provenance.lineage_id ≡ none
      → create platform ctx id now q s ≡ returned (r, t)
      → Reachable platform b t
  updated :
      (artifact_id new_id now : ℕ) (q : UpdateRequest) (s : ArtifactService) (r : ArtifactRecord)
      (t : ArtifactService) {b : Bool}
      → Reachable platform b s
      → Dict.has new_id s.records ≡ false
      → update platform artifact_id new_id now q s ≡ returned (r, t)
      → Reachable platform b t
  gone :
      (artifact_id now : ℕ) (s t : ArtifactService) {b : Bool}
      → Reachable platform b s
      → delete artifact_id now s ≡ returned t
      → Reachable platform b t
  linked :
      (artifact_id : ℕ) (target link_type : String) (now : ℕ) (s t : ArtifactService) {b : Bool}
      → Reachable platform b s
      → link artifact_id target link_type now s ≡ returned t
      → Reachable platform b t
  watched :
      (process_id : ℕ) (artifact_id : Option ℕ) (artifact_type : Option String) (tags : List String)
      (s : ArtifactService) {b : Bool}
      → Reachable platform b s
      → Reachable platform b (register_watch platform process_id artifact_id artifact_type tags s)
  consumed :
      (process_id : ℕ) (s : ArtifactService) {b : Bool}
      → Reachable platform b s
      → Reachable platform b ((consume_notification process_id s).1)
  reloaded :
      (s u t : ArtifactService) {b c : Bool}
      → Reachable platform b s
      → Reachable platform c u
      → restore (snapshot s) u ≡ returned t
      → Reachable platform true t

-- After a restore it is only the records that stay sound: the index is not filled again.
abbrev pub IsSoundAfter : (was_restored : Bool) → ArtifactService → Type 0
IsSoundAfter false s = IsConsistent s
IsSoundAfter true s = AreVersioned s.records

new_service-IsConsistent : IsConsistent new_service
unfolding Dict.get Dict.keys ids_under Bag.has
new_service-IsConsistent = record {
  keyed = λ id r h. absurd (ground (arith, h));
  distinct = tt;
  rooted = λ id r h. absurd (ground (arith, h));
  one_version = λ a b r t h _ _ _. absurd (ground (arith, h));
  active_is_latest = λ a b r t h _ _ _. absurd (ground (arith, h));
  indexed = λ id r h. absurd (ground (arith, h));
  filed = λ l id h. absurd (ground (arith, h));
}

register_watch-IsConsistent :
    (platform : Platform) (process_id : ℕ) (artifact_id : Option ℕ) (artifact_type : Option String)
    (tags : List String) (s : ArtifactService)
    → IsConsistent s
    → IsConsistent (register_watch platform process_id artifact_id artifact_type tags s)
unfolding register_watch
register_watch-IsConsistent platform process_id artifact_id artifact_type tags s v = v

consume_notification-IsSound :
    (process_id : ℕ) (s : ArtifactService) (b : Dict ℕ (List ℕ))
    → IsSound s.records b
    → IsSound (consume_notification process_id s).1.records b
unfolding consume_notification
consume_notification-IsSound process_id s b v =
    elim (Bool-cases (Bag.has process_id s.pending_notifications)) [
      | inl pending ↦ rw pending v
      | inr none_pending ↦ rw none_pending v
    ]

consume_notification-IsConsistent :
    (process_id : ℕ) (s : ArtifactService)
    → IsConsistent s
    → IsConsistent ((consume_notification process_id s).1)
unfolding consume_notification
consume_notification-IsConsistent process_id s v =
    elim (Bool-cases (Bag.has process_id s.pending_notifications)) [
      | inl pending ↦ rw pending v
      | inr none_pending ↦ rw none_pending v
    ]

never_restored-IsConsistent :
    (platform : Platform) (s : ArtifactService) → Reachable platform false s → IsConsistent s
never_restored-IsConsistent platform _ started = new_service-IsConsistent
never_restored-IsConsistent platform _ (created ctx id now q s r t reached fresh own h) =
    subst (λ (out : ArtifactRecord × ArtifactService). IsConsistent (out.1))
      (create-eq-returned platform ctx id now q s (r, t) h)
      (create-IsConsistent platform ctx id now q s (never_restored-IsConsistent platform s reached)
        fresh own)
never_restored-IsConsistent platform _ (updated artifact_id new_id now q s r t reached fresh h) =
    let (current, held, live, same) =
      update-eq-returned platform artifact_id new_id now q s (r, t) h in
    subst (λ (out : ArtifactRecord × ArtifactService). IsConsistent (out.1)) same
      (update-IsConsistent platform new_id now q s artifact_id current
        (never_restored-IsConsistent platform s reached) fresh held live)
never_restored-IsConsistent platform _ (gone artifact_id now s t reached h) =
    delete-IsConsistent artifact_id now s t (never_restored-IsConsistent platform s reached) h
never_restored-IsConsistent platform _ (linked artifact_id target link_type now s t reached h) =
    link-IsConsistent artifact_id target link_type now s t
      (never_restored-IsConsistent platform s reached) h
never_restored-IsConsistent platform _
      (watched process_id artifact_id artifact_type tags s reached) =
    register_watch-IsConsistent platform process_id artifact_id artifact_type tags s
      (never_restored-IsConsistent platform s reached)
never_restored-IsConsistent platform _ (consumed process_id s reached) =
    consume_notification-IsConsistent process_id s (never_restored-IsConsistent platform s reached)

Reachable-IsSettled :
    (platform : Platform) (s : ArtifactService) {b : Bool} → Reachable platform b s → IsSettled s
unfolding add_record index_record notify_watchers store_blob new_artifact update_found next_version
    register_watch
Reachable-IsSettled platform _ started = ([], new_service-IsConsistent)
Reachable-IsSettled platform _ (created ctx id now q s r t reached fresh own h) =
    let (b, v) = Reachable-IsSettled platform s reached in
    subst (λ (out : ArtifactRecord × ArtifactService). IsSettled (out.1))
      (create-eq-returned platform ctx id now q s (r, t) h)
      (_, create-IsSound platform ctx id now q s b v fresh own)
Reachable-IsSettled platform _ (updated artifact_id new_id now q s r t reached fresh h) =
    let (b, v) = Reachable-IsSettled platform s reached in
    let (current, held, live, same) =
      update-eq-returned platform artifact_id new_id now q s (r, t) h in
    subst (λ (out : ArtifactRecord × ArtifactService). IsSettled (out.1)) same
      (
        (update_found platform new_id now q current (with_index b s)).1.by_lineage,
        update-IsConsistent platform new_id now q (with_index b s) artifact_id current v fresh held
            live,
      )
Reachable-IsSettled platform _ (gone artifact_id now s t reached h) =
    delete-IsSettled artifact_id now s t (Reachable-IsSettled platform s reached) h
Reachable-IsSettled platform _ (linked artifact_id target link_type now s t reached h) =
    link-IsSettled artifact_id target link_type now s t (Reachable-IsSettled platform s reached) h
Reachable-IsSettled platform _ (watched process_id artifact_id artifact_type tags s reached) =
    Reachable-IsSettled platform s reached
Reachable-IsSettled platform _ (consumed process_id s reached) =
    let (b, v) = Reachable-IsSettled platform s reached in
    (b, consume_notification-IsSound process_id s b v)
Reachable-IsSettled platform _ (reloaded s u t reached onto h) =
    restore-IsSettled s u t (Reachable-IsSettled platform s reached) h

-- In a service that was reached by the operations of the service, with new ids, without giving a
-- lineage to `create`, and with any restores of what such a service had saved: no two records have
-- one id, and every record is held under its own id and belongs to a lineage whose first record is
-- held; no two records of a lineage have the same version; and an active record has the greatest
-- version of its lineage. As long as nothing was restored, the index by lineage lists exactly the
-- records of the lineage.
pub Reachable-IsSoundAfter :
    (platform : Platform) (was_restored : Bool) (s : ArtifactService)
    → Reachable platform was_restored s
    → IsSoundAfter was_restored s
Reachable-IsSoundAfter platform false s reached = never_restored-IsConsistent platform s reached
Reachable-IsSoundAfter platform true s reached =
    IsSettled-AreVersioned s (Reachable-IsSettled platform s reached)
