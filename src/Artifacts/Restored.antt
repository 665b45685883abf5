-- ===== src/Artifacts/Restored.antt =====
-- emergence/artifacts/service.py: what a restored service has of the one that was saved.
use emergence_os.Base.{
  ℕ, false, none, some, List, [], ◌∷◌, map, ◌≡◌, refl, subst, ◌∙◌, inl, inr, if◌then◌else◌, ==_refl,
  nat_eq, Option-cases, arith, returned, >>=-eq-returned, returned-injective, select,
}
use emergence_os.Base.Bag.{Distinct}
use emergence_os.Base.Keys.{has-keys}
use emergence_os.Base.Dict
use emergence_os.Base.Dict.{Dict}
use emergence_os.Artifacts.{
  Watch, ArtifactService, ArtifactRecord, ArtifactStatus, active, superseded, deleted,
}
use emergence_os.Artifacts.Records.{index_record}
use emergence_os.Artifacts.Reads.{get, versions, summarize_goal}
use emergence_os.Artifacts.Lineage.{IsHeld}
use emergence_os.Artifacts.Effects.{IsConsistent}
use emergence_os.Artifacts.Snapshots.{
  RawArtifact, Snapshot, serialize_record, deserialize_record, status_value, status_from, snapshot,
  restore, restore_records, rebuild_reference_index,
}

-- A record that is written and read back is the record.
pub deserialize_record-serialize_record :
    (r : ArtifactRecord) → deserialize_record (serialize_record r) ≡ returned r
unfolding deserialize_record serialize_record status_from status_value
deserialize_record-serialize_record r = rw (known r.status) refl
  where
    known : (status : ArtifactStatus) → status_from (status_value status) ≡ returned status
    known active = refl
    known superseded = refl
    known deleted = refl

put_values : List ArtifactRecord → Dict ℕ ArtifactRecord → Dict ℕ ArtifactRecord
put_values [] d = d
put_values (r ∷ rs) d = put_values rs (Dict.put r.artifact_id r d)

restore_records-map :
    (rs : List ArtifactRecord) (s : ArtifactService)
    → restore_records (map serialize_record rs) s
      ≡ returned (record s { records = put_values rs s.records })
unfolding restore_records put_values index_record
restore_records-map [] s = refl
restore_records-map (r ∷ rs) s =
    rw (deserialize_record-serialize_record r) (restore_records-map rs (index_record false r s))

abbrev IsKeyed : Dict ℕ ArtifactRecord → Type 0
IsKeyed d = (id : ℕ) (r : ArtifactRecord) → IsHeld d id r → r.artifact_id ≡ id

get-put_values :
    (d e : Dict ℕ ArtifactRecord) (id : ℕ)
    → Distinct (Dict.keys d)
    → IsKeyed d
    → Dict.get id (put_values (Dict.values d) e)
      ≡ (if Dict.has id d then Dict.get id d else Dict.get id e)
unfolding put_values Dict.values Dict.keys Dict.get Dict.has
get-put_values [] e id h k = refl
get-put_values ((j, r) ∷ d) e id h k =
    let here : r.artifact_id ≡ j = k j r (rw (==_refl j) refl) in
    let rest = get-put_values d (Dict.put r.artifact_id r e) id h.1 (λ i u held. k i u (
      ground (
        arith,
        held,
        h.0,
        has-keys j d,
        nat_eq.same_iff j i,
        Dict.has-eq-is_some i d,
        Dict.has-eq-is_some j d,
      ))) in
    ground (
      arith,
      rest,
      here,
      h.0,
      has-keys j d,
      nat_eq.same_iff j id,
      Dict.has-eq-is_some id d,
      Dict.get-put r.artifact_id id r e,
    )

restored_record :
    (d : Dict ℕ ArtifactRecord) (id : ℕ)
    → Distinct (Dict.keys d)
    → IsKeyed d
    → Dict.get id (put_values (Dict.values d) []) ≡ Dict.get id d
unfolding Dict.get
restored_record d id h k = get-put_values d [] id h k ∙ ground (arith, Dict.has-eq-is_some id d)

-- The service as the loop of `restore` finds it.
abbrev cleared : List Watch → ArtifactService → ArtifactService
cleared watches s = record s {
  records = [];
  by_goal = [];
  by_type = [];
  by_lineage = [];
  referenced_by = [];
  watches = watches;
}

-- The three indices that `_index_record` fills.
abbrev HasNoIndex : ArtifactService → Type 0
HasNoIndex s = (s.by_goal ≡ []) × (s.by_type ≡ []) × (s.by_lineage ≡ [])

restore_records-HasNoIndex :
    (raws : List RawArtifact) (s t : ArtifactService)
    → HasNoIndex s
    → restore_records raws s ≡ returned t
    → HasNoIndex t
unfolding restore_records index_record
restore_records-HasNoIndex [] s t e h = subst HasNoIndex (returned-injective _ _ h) e
restore_records-HasNoIndex (raw ∷ raws) s t e h =
    let (r, parsed, rest) = >>=-eq-returned (deserialize_record raw) _ h in
    restore_records-HasNoIndex raws (index_record false r s) t e rest

restore-HasNoIndex :
    (saved : Snapshot) (s t : ArtifactService) → restore saved s ≡ returned t → HasNoIndex t
unfolding restore rebuild_reference_index
restore-HasNoIndex saved s t h =
    let (u, read, rest) = >>=-eq-returned (restore_records saved.artifacts _) _ h in
    subst HasNoIndex (returned-injective _ _ rest)
      (restore_records-HasNoIndex saved.artifacts _ u (refl, refl, refl) read)

-- After a restore nothing is listed: `versions` is empty for every artifact, `get` finds no version
-- by its number, and a goal counts no artifact.
pub restore-versions :
    (saved : Snapshot) (s t : ArtifactService)
    → restore saved s ≡ returned t
    → (artifact_id version goal_id : ℕ)
    → (versions artifact_id t ≡ [])
      × (get artifact_id (some version) t ≡ returned none)
      × ((summarize_goal goal_id t).artifact_count ≡ 0)
unfolding versions get summarize_goal Dict.values select Dict.get
restore-versions saved s t h artifact_id version goal_id =
    let (goals, types, lineages) = restore-HasNoIndex saved s t h in
    elim (Option-cases (Dict.get artifact_id t.records)) [
      | inl missing ↦ rw missing rw goals (refl, refl, refl)
      | inr (r, there) ↦ rw there rw goals rw lineages (refl, refl, refl)
    ]

-- A service whose records and index agree is saved and restored: no error is raised, every id has
-- the record that it had, and the watches are those that were saved.
pub restore-snapshot :
    (s u : ArtifactService)
    → IsConsistent s
    → (t : ArtifactService) × (restore (snapshot s) u ≡ returned t)
      × ((id : ℕ) → Dict.get id t.records ≡ Dict.get id s.records)
      × (t.watches ≡ s.watches)
unfolding restore snapshot rebuild_reference_index
restore-snapshot s u v = (
  rebuild_reference_index
      (record (cleared s.watches u) { records = put_values (Dict.values s.records) [] }),
  (rw (restore_records-map (Dict.values s.records) (cleared s.watches u)) refl),
  λ id. restored_record s.records id v.distinct v.keyed,
  refl,
)
