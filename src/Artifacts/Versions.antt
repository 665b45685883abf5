-- ===== src/Artifacts/Versions.antt =====
-- emergence/artifacts/service.py: what a reader finds of the versions of an artifact.
use emergence_os.Base.{
  ℕ, ◌+◌, ◌<◌, true, false, none, some, List, [], ◌∷◌, ◌≡◌, refl, sym, ap, subst, ◌∙◌, ◌≢◌, inl,
  inr, ◌==◌, ==_refl, nat_eq, Bool-cases, arith, returned, some-injective,
}
use emergence_os.Base.Bag
use emergence_os.Base.Dict
use emergence_os.Base.Dict.{Dict}
use emergence_os.Artifacts.{
  Platform, ArtifactService, ArtifactRecord, BlobPath, same_path, same_path_iff, blob_path_eq,
  superseded, is_active, lineage_of, ids_under,
}
use emergence_os.Artifacts.Mutations.{
  update, update_found, next_version, store_blob, blob_path, bytes_of,
}
use emergence_os.Artifacts.Records.{UpdateRequest, add_record, index_record, put_record}
use emergence_os.Artifacts.Watches.{notify_watchers}
use emergence_os.Artifacts.Reads.{get, version_of, find_version, read_content, content_of}
use emergence_os.Artifacts.Lineage.{IsHeld, IsHeld-put_self, IsHeld-put_other}
use emergence_os.Artifacts.Effects.{
  IsConsistent, IsHeld-by_id, update-eq-returned, update-IsConsistent,
}

-- What is held under one id is one record.
held_once :
    (records : Dict ℕ ArtifactRecord) (a b : ℕ) (r t : ArtifactRecord)
    → a ≡ b
    → IsHeld records a r
    → IsHeld records b t
    → r ≡ t
held_once records a b r t same h k =
    some-injective r t (sym h ∙ ap (λ (i : ℕ). Dict.get i records) same ∙ k)

find_version_unique :
    (version : ℕ) (ids : List ℕ) (records : Dict ℕ ArtifactRecord) (b : ℕ) (t : ArtifactRecord)
    → ((id : ℕ)
        → Bag.has id ids ≡ true
        → (r : ArtifactRecord) × IsHeld records id r × (r.version ≡ version → r ≡ t))
    → Bag.has b ids ≡ true
    → IsHeld records b t
    → t.version ≡ version
    → find_version version ids records ≡ returned (some t)
unfolding find_version Bag.has
find_version_unique version [] records b t only listed held same = absurd (ground (arith, listed))
find_version_unique version (id ∷ ids) records b t only listed held same =
    let (r, held_r, unique) = only id (ground (arith, ==_refl id)) in
    rw held_r elim (Bool-cases (r.version == version)) [
      | inl this ↦ rw this (
          ap (λ (x : ArtifactRecord). returned (some x))
            (unique ((nat_eq.same_iff r.version version).0 this)))
      | inr another ↦ rw another (
          find_version_unique version ids records b t
            (λ id1 later. only id1 (ground (arith, later)))
            (elim (Bool-cases (id == b)) [
              | inl here ↦ absurd (
                  ground (
                    arith,
                    another,
                    same,
                    ap (λ (x : ArtifactRecord). x.version)
                        (held_once records id b r t ((nat_eq.same_iff id b).0 here) held_r held),
                  ))
              | inr elsewhere ↦ ground (arith, listed, elsewhere)
            ])
            held same)
    ]

-- Of an artifact that is held, `get` finds every version that is held of its lineage.
pub get-version :
    (s : ArtifactService) (a b : ℕ) (r t : ArtifactRecord)
    → IsConsistent s
    → IsHeld s.records a r
    → IsHeld s.records b t
    → lineage_of r ≡ lineage_of t
    → get a (some t.version) s ≡ returned (some t)
unfolding get version_of
get-version s a b r t v held_r held_t same = rw held_r (
    find_version_unique t.version (ids_under (lineage_of r) s.by_lineage) s.records b t
      (λ id listed.
        let (u, held_u, same_u) = v.filed (lineage_of r) id listed in
        (
          u,
          held_u,
          λ e.
              held_once s.records id b u t (v.one_version id b u t held_u held_t (same_u ∙ same) e)
                held_u held_t,
        ))
      (subst (λ (l : ℕ). Bag.has b (ids_under l s.by_lineage) ≡ true) (sym same)
        (v.indexed b t held_t))
      held_t refl)

read_content-version :
    (platform : Platform) (s : ArtifactService) (b : ℕ) (t : ArtifactRecord)
    → IsConsistent s
    → IsHeld s.records b t
    → read_content platform b (some t.version) s
      ≡ returned (Dict.get (blob_path platform t) s.blobs)
unfolding read_content content_of
read_content-version platform s b t v held = rw (get-version s b b t t v held held refl) refl

-- The blob of a version is not that of another.
other_blob :
    (platform : Platform) (r u : ArtifactRecord) (content : List ℕ) (blobs : Dict BlobPath (List ℕ))
    → (lineage_of u ≡ lineage_of r → u.version < r.version)
    → Dict.get (blob_path platform u) (Dict.put (blob_path platform r) content blobs)
      ≡ Dict.get (blob_path platform u) blobs
unfolding blob_path
other_blob platform r u content blobs older =
    Dict.get-put (blob_path platform r) (blob_path platform u) content blobs
    ∙ elim (Bool-cases (same_path (blob_path platform r) (blob_path platform u))) [
      | inl same ↦
          let e = (same_path_iff (blob_path platform r) (blob_path platform u)).0 same in
          absurd (
            ground (
              arith,
              older (sym (ap (λ (p : BlobPath). p.lineage) e)),
              ap (λ (p : BlobPath). p.version) e,
            ))
      | inr other ↦ rw other refl
    ]

blob_written :
    (p : BlobPath) (content : List ℕ) (blobs : Dict BlobPath (List ℕ))
    → Dict.get p (Dict.put p content blobs) ≡ some content
blob_written p content blobs = Dict.get-put p p content blobs ∙ (rw (==_refl p) refl)

module _ (platform : Platform) (artifact_id new_id now : ℕ) (q : UpdateRequest)
    (s : ArtifactService) (v : IsConsistent s) (fresh : Dict.has new_id s.records ≡ false)
    (current : ArtifactRecord) (held : IsHeld s.records artifact_id current)
    (live : is_active current.status ≡ true) where
  old : ArtifactRecord
  old = record current { status = superseded }

  is_not_new : (b : ℕ) (u : ArtifactRecord) → IsHeld s.records b u → b ≢ new_id
  is_not_new b u held_u e = ground (arith, e, fresh, held_u, Dict.has-eq-is_some b s.records)

  -- The record that a held one is after the update.
  after_update :
      (b : ℕ) (u : ArtifactRecord)
      → IsHeld s.records b u
      → (w : ArtifactRecord) × IsHeld ((update_found platform new_id now q current s).1.records) b w
        × (w.version ≡ u.version)
        × (blob_path platform w ≡ blob_path platform u)
  unfolding update_found add_record index_record notify_watchers store_blob next_version blob_path
      old lineage_of
  after_update b u held_u = elim (Bool-cases (current.artifact_id == b)) [
    | inl this ↦
        let same : current.artifact_id ≡ b = (nat_eq.same_iff current.artifact_id b).0 this in
        let c =
          held_once s.records current.artifact_id b current u same
            (IsHeld-by_id s artifact_id current v held) held_u in
        (
          old,
          IsHeld-put_other new_id b _ old (Dict.put current.artifact_id old s.records)
              (is_not_new b u held_u)
              (subst (λ (i : ℕ). IsHeld (Dict.put current.artifact_id old s.records) i old) same
                (IsHeld-put_self current.artifact_id old s.records)),
          ap (λ (x : ArtifactRecord). x.version) c,
          ap (blob_path platform) c,
        )
    | inr another ↦ (
      u,
      IsHeld-put_other new_id b _ u (Dict.put current.artifact_id old s.records)
          (is_not_new b u held_u)
          (IsHeld-put_other current.artifact_id b old u s.records
            (λ e. ground (arith, e, another, nat_eq.same_iff current.artifact_id b)) held_u),
      refl,
      refl,
    )
  ]

  older_than_next :
      (b : ℕ) (u : ArtifactRecord)
      → IsHeld s.records b u
      → lineage_of u ≡ lineage_of current
      → u.version < current.version + 1
  older_than_next b u held_u same =
      let below = v.active_is_latest artifact_id b current u held held_u (sym same) live in
      omega arith

  kept_content :
      (b : ℕ) (u : ArtifactRecord)
      → IsHeld s.records b u
      → read_content platform b (some u.version) ((update_found platform new_id now q current s).1)
        ≡ read_content platform b (some u.version) s
  unfolding update_found add_record index_record notify_watchers store_blob next_version lineage_of
      blob_path
  kept_content b u held_u =
      let (w, held_w, version_w, blob_w) = after_update b u held_u in
      let t = (update_found platform new_id now q current s).1 in
      let new : ArtifactRecord = next_version platform new_id now q current in
      ap (λ (n : ℕ). read_content platform b (some n) t) (sym version_w)
      ∙ read_content-version platform t b w
          (update-IsConsistent platform new_id now q s artifact_id current v fresh held live) held_w
      ∙ ap (λ (p : BlobPath). returned (Dict.get p t.blobs)) blob_w
      ∙ ap returned (
          other_blob platform new u (bytes_of platform q.content) s.blobs
            (older_than_next b u held_u))
      ∙ sym (read_content-version platform s b u v held_u)

  new_content :
      read_content platform new_id none ((update_found platform new_id now q current s).1)
      ≡ returned (some (bytes_of platform q.content))
  unfolding update_found add_record index_record notify_watchers store_blob next_version
      read_content content_of get blob_path lineage_of
  new_content =
      let old : ArtifactRecord = record current { status = superseded } in
      let new : ArtifactRecord =
        (store_blob platform (next_version platform new_id now q current) q.content
          (put_record old s)).0 in
      rw (IsHeld-put_self new_id new (Dict.put current.artifact_id old s.records))
        (ap returned (blob_written (blob_path platform new) (bytes_of platform q.content) s.blobs))

-- After an update that is accepted, with a new id, in a service whose records and index agree: the
-- new id reads as the content given, and every record that was held before reads, at its version,
-- as it did.
pub update-read_content :
    (platform : Platform) (artifact_id new_id now : ℕ) (q : UpdateRequest) (s : ArtifactService)
    (r : ArtifactRecord) (t : ArtifactService)
    → IsConsistent s
    → Dict.has new_id s.records ≡ false
    → update platform artifact_id new_id now q s ≡ returned (r, t)
    → (read_content platform new_id none t ≡ returned (some (bytes_of platform q.content)))
      × ((b : ℕ) (u : ArtifactRecord)
          → IsHeld s.records b u
          → read_content platform b (some u.version) t ≡ read_content platform b (some u.version) s)
update-read_content platform artifact_id new_id now q s r t v fresh h =
    let (current, held, live, same) =
      update-eq-returned platform artifact_id new_id now q s (r, t) h in
    let to_t : (update_found platform new_id now q current s).1 ≡ t =
      ap (λ (x : ArtifactRecord × ArtifactService). x.1) same in
    (
      ap (read_content platform new_id none) (sym to_t)
          ∙ new_content platform artifact_id new_id now q s v fresh current held live,
      λ b u held_u.
          ap (read_content platform b (some u.version)) (sym to_t)
          ∙ kept_content platform artifact_id new_id now q s v fresh current held live b u held_u,
    )
