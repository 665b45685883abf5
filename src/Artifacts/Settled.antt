-- ===== src/Artifacts/Settled.antt =====
-- emergence/artifacts/service.py: what the records have by themselves, without the index of versions.
use emergence_os.Base.{
  ℕ, ◌≤◌, String, true, false, List, [], ◌∷◌, ◌≡◌, refl, sym, ap, subst, ◌∙◌, returned, inl, inr,
  Bool-cases, arith, nat_eq, returned-injective, >>=-eq-returned,
}
use emergence_os.Base.Bag.{Distinct}
use emergence_os.Base.Dict
use emergence_os.Base.Dict.{Dict}
use emergence_os.Base.Keys.{Distinct-keys-put}
use emergence_os.Base.Text.{is_blank}
use emergence_os.Artifacts.{ArtifactService, ArtifactRecord, is_active, lineage_of}
use emergence_os.Artifacts.Mutations.{delete, delete_found, link, link_found}
use emergence_os.Artifacts.Records.{index_record, require_active}
use emergence_os.Artifacts.Watches.{notify_watchers}
use emergence_os.Artifacts.Lineage.{IsHeld, IsSound}
use emergence_os.Artifacts.Effects.{
  IsConsistent, delete-IsConsistent, link-IsConsistent, link_given,
}
use emergence_os.Artifacts.Snapshots.{
  RawArtifact, Snapshot, deserialize_record, snapshot, restore, restore_records,
  rebuild_reference_index,
}
use emergence_os.Artifacts.Restored.{restore-snapshot}

-- The part of `IsSound` that is about the records alone.
pub record AreVersioned (records : Dict ℕ ArtifactRecord) : Type 0 where
  pub keyed : (id : ℕ) (r : ArtifactRecord) → IsHeld records id r → r.artifact_id ≡ id
  pub distinct : Distinct (Dict.keys records)
  pub rooted :
      (id : ℕ) (r : ArtifactRecord) → IsHeld records id r → Dict.has (lineage_of r) records ≡ true
  pub one_version :
      (a b : ℕ) (r t : ArtifactRecord)
      → IsHeld records a r
      → IsHeld records b t
      → lineage_of r ≡ lineage_of t
      → r.version ≡ t.version
      → a ≡ b
  pub active_is_latest :
      (a b : ℕ) (r t : ArtifactRecord)
      → IsHeld records a r
      → IsHeld records b t
      → lineage_of r ≡ lineage_of t
      → is_active r.status ≡ true
      → t.version ≤ r.version

-- The service with another index of versions.
abbrev pub with_index : Dict ℕ (List ℕ) → ArtifactService → ArtifactService
with_index b s = record s { by_lineage = b }

-- There is an index that the records agree with.
abbrev pub IsSettled : ArtifactService → Type 0
IsSettled s = (b : Dict ℕ (List ℕ)) × IsConsistent (with_index b s)

pub IsSettled-AreVersioned : (s : ArtifactService) → IsSettled s → AreVersioned s.records
IsSettled-AreVersioned s (b, v) = record {
  keyed = v.keyed;
  distinct = v.distinct;
  rooted = v.rooted;
  one_version = v.one_version;
  active_is_latest = v.active_is_latest;
}

-- What `delete` does to the records does not depend on the index.
delete-with_index :
    (artifact_id now : ℕ) (r : ArtifactRecord) (b : Dict ℕ (List ℕ)) (s : ArtifactService)
    → require_active artifact_id s ≡ returned r
    → delete artifact_id now (with_index b s) ≡ returned (delete_found now r (with_index b s))
unfolding delete require_active
delete-with_index artifact_id now r b s found = rw found refl

pub delete-IsSettled :
    (artifact_id now : ℕ) (s t : ArtifactService)
    → IsSettled s
    → delete artifact_id now s ≡ returned t
    → IsSettled t
unfolding delete delete_found notify_watchers
delete-IsSettled artifact_id now s t (b, v) h =
    let (r, found, same) = >>=-eq-returned (require_active artifact_id s) _ h in
    let kept =
      delete-IsConsistent artifact_id now (with_index b s) _ v
        (delete-with_index artifact_id now r b s found) in
    (
      b,
      subst (λ (u : ArtifactService). IsConsistent (with_index b u)) (returned-injective _ _ same)
          kept,
    )

-- `link` does not read the index.
link_found-with_index :
    (target link_type : String) (now : ℕ) (r : ArtifactRecord) (b : Dict ℕ (List ℕ))
    (s : ArtifactService)
    → link_found target link_type now r (with_index b s)
      ≡ with_index b (link_found target link_type now r s)
unfolding link_found
link_found-with_index target link_type now r b s = refl

link-with_index :
    (artifact_id : ℕ) (target link_type : String) (now : ℕ) (b : Dict ℕ (List ℕ))
    (s t : ArtifactService)
    → link artifact_id target link_type now s ≡ returned t
    → link artifact_id target link_type now (with_index b s) ≡ returned (with_index b t)
unfolding link require_active
link-with_index artifact_id target link_type now b s t h =
    let (r, found, same) = >>=-eq-returned (require_active artifact_id s) _ h in
    let changed = link_given target link_type now r s t same in
    rw (found, link_found-with_index target link_type now r b s)
      elim (Bool-cases (is_blank target)) [
        | inl blank ↦ absurd (ground (arith, same, blank))
        | inr given ↦ rw given (ap (λ (u : ArtifactService). returned (with_index b u)) changed)
      ]

pub link-IsSettled :
    (artifact_id : ℕ) (target link_type : String) (now : ℕ) (s t : ArtifactService)
    → IsSettled s
    → link artifact_id target link_type now s ≡ returned t
    → IsSettled t
link-IsSettled artifact_id target link_type now s t (b, v) h = (
  b,
  link-IsConsistent artifact_id target link_type now (with_index b s) (with_index b t) v
      (link-with_index artifact_id target link_type now b s t h),
)

restore_records-Distinct :
    (raws : List RawArtifact) (s t : ArtifactService)
    → Distinct (Dict.keys s.records)
    → restore_records raws s ≡ returned t
    → Distinct (Dict.keys t.records)
unfolding restore_records index_record
restore_records-Distinct [] s t d h =
    subst (λ (u : ArtifactService). Distinct (Dict.keys u.records)) (returned-injective _ _ h) d
restore_records-Distinct (raw ∷ raws) s t d h =
    let (r, parsed, rest) = >>=-eq-returned (deserialize_record raw) _ h in
    restore_records-Distinct raws (index_record false r s) t
      (Distinct-keys-put r.artifact_id r s.records d) rest

restore-Distinct :
    (saved : Snapshot) (s t : ArtifactService)
    → restore saved s ≡ returned t
    → Distinct (Dict.keys t.records)
unfolding restore rebuild_reference_index Dict.keys
restore-Distinct saved s t h =
    let (u, read, rest) = >>=-eq-returned (restore_records saved.artifacts _) _ h in
    subst (λ (u : ArtifactService). Distinct (Dict.keys u.records)) (returned-injective _ _ rest)
      (restore_records-Distinct saved.artifacts _ u tt read)

-- Records that are found under the same ids agree with the same index.
IsSound-same :
    (d e : Dict ℕ ArtifactRecord) (b : Dict ℕ (List ℕ))
    → ((id : ℕ) → Dict.get id e ≡ Dict.get id d)
    → Distinct (Dict.keys e)
    → IsSound d b
    → IsSound e b
IsSound-same d e b same distinct v =
    let before : (id : ℕ) (r : ArtifactRecord) → IsHeld e id r → IsHeld d id r =
      λ id r h. sym (same id) ∙ h in
    record {
      keyed = λ id r h. v.keyed id r (before id r h);
      distinct = distinct;
      rooted = λ id r h. ground (
        arith,
        v.rooted id r (before id r h),
        same (lineage_of r),
        Dict.has-eq-is_some (lineage_of r) d,
        Dict.has-eq-is_some (lineage_of r) e,
      );
      one_version = λ a c r t h k. v.one_version a c r t (before a r h) (before c t k);
      active_is_latest = λ a c r t h k. v.active_is_latest a c r t (before a r h) (before c t k);
      indexed = λ id r h. v.indexed id r (before id r h);
      filed = λ l id h. let (r, held, under) = v.filed l id h in (r, same id ∙ held, under);
    }

-- What was saved of a settled service is settled where it is restored.
pub restore-IsSettled :
    (s u t : ArtifactService) → IsSettled s → restore (snapshot s) u ≡ returned t → IsSettled t
unfolding snapshot
restore-IsSettled s u t (b, v) h =
    let (t', done, same, watched) = restore-snapshot (with_index b s) u v in
    let it : t' ≡ t = returned-injective _ _ (sym done ∙ h) in
    (
      b,
      IsSound-same s.records t.records b
          (λ id. ap (λ (x : ArtifactService). Dict.get id x.records) (sym it) ∙ same id)
          (restore-Distinct (snapshot s) u t h) v,
    )
