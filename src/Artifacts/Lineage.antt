-- ===== src/Artifacts/Lineage.antt =====
-- emergence/artifacts/service.py: the records and the index of versions agree.
use emergence_os.Base.{
  ℕ, ◌≤◌, true, ◌||◌, some, List, [], ◌∷◌, ◌++◌, ◌≡◌, refl, sym, ◌∙◌, ◌≢◌, ◌⊎◌, ◌&&◌, inl, inr,
  if◌then◌else◌, ◌==◌, ==_refl, nat_eq, Bool-cases, arith, some-injective,
}
use emergence_os.Base.Bag
use emergence_os.Base.Dict
use emergence_os.Base.Dict.{Dict}
use emergence_os.Artifacts.{ArtifactRecord, is_active, lineage_of, ids_under, append_new}

-- The record `r` is held under `id`.
abbrev pub IsHeld : Dict ℕ ArtifactRecord → (id : ℕ) → ArtifactRecord → Type 0
IsHeld records id r = Dict.get id records ≡ some r

-- No id comes twice; a record is held under its id and belongs to a lineage whose first record is
-- held; two records of one lineage have different versions; an active record is the latest of its
-- lineage; the index of a lineage has the ids of its records.
pub record IsSound (records : Dict ℕ ArtifactRecord) (by_lineage : Dict ℕ (List ℕ)) : Type 0 where
  pub keyed : (id : ℕ) (r : ArtifactRecord) → IsHeld records id r → r.artifact_id ≡ id
  pub distinct : Bag.Distinct (Dict.keys records)
  pub rooted :
      (id : ℕ) (r : ArtifactRecord) → IsHeld records id r → Dict.has (lineage_of r) records ≡ true
  pub one_version :
      (a b : ℕ) (r t : ArtifactRecord)
      → IsHeld records a r
      → IsHeld records b t
      → lineage_of r ≡ lineage_of t
      → r.version ≡ t.version
      → a ≡ b
  pub active_is_latest :
      (a b : ℕ) (r t : ArtifactRecord)
      → IsHeld records a r
      → IsHeld records b t
      → lineage_of r ≡ lineage_of t
      → is_active r.status ≡ true
      → t.version ≤ r.version
  pub indexed :
      (id : ℕ) (r : ArtifactRecord)
      → IsHeld records id r
      → Bag.has id (ids_under (lineage_of r) by_lineage) ≡ true
  pub filed :
      (lineage id : ℕ)
      → Bag.has id (ids_under lineage by_lineage) ≡ true
      → (r : ArtifactRecord) × IsHeld records id r × (lineage_of r ≡ lineage)

-- What is held after a record is put: that record, or one from before under another id.
pub IsHeld-put :
    (k id : ℕ) (r t : ArtifactRecord) (records : Dict ℕ ArtifactRecord)
    → IsHeld (Dict.put k r records) id t
    → ((id ≡ k) × (t ≡ r)) ⊎ ((id ≢ k) × IsHeld records id t)
IsHeld-put k id r t records h = elim (Bool-cases (k == id)) [
  | inl same ↦ inl (
    sym ((nat_eq.same_iff k id).0 same),
    some-injective t r (sym h ∙ Dict.get-put k id r records ∙ (rw same refl)),
  )
  | inr other ↦ inr (
    λ e. ground (arith, e, nat_eq.same_iff k id),
    sym (Dict.get-put k id r records ∙ (rw other refl)) ∙ h,
  )
]

pub IsHeld-put_self :
    (k : ℕ) (r : ArtifactRecord) (records : Dict ℕ ArtifactRecord)
    → IsHeld (Dict.put k r records) k r
IsHeld-put_self k r records = Dict.get-put k k r records ∙ (rw (==_refl k) refl)

pub IsHeld-put_other :
    (k id : ℕ) (r t : ArtifactRecord) (records : Dict ℕ ArtifactRecord)
    → id ≢ k
    → IsHeld records id t
    → IsHeld (Dict.put k r records) id t
IsHeld-put_other k id r t records n h =
    ground (arith, n, nat_eq.same_iff k id, Dict.get-put k id r records)

pub ids_under-append_new :
    (k l id : ℕ) (d : Dict ℕ (List ℕ))
    → ids_under l (append_new k id d) ≡ (
        if k == l
        then (if Bag.has id (ids_under k d) then ids_under k d else ids_under k d ++ id ∷ [])
        else ids_under l d)
unfolding ids_under append_new
ids_under-append_new k l id d = elim (Bool-cases (k == l)) [
  | inl same ↦
      rw
        (Dict.get-put k l
          (if Bag.has id (ids_under k d) then ids_under k d else ids_under k d ++ id ∷ []) d)
        rw same refl
  | inr other ↦
      rw
        (Dict.get-put k l
          (if Bag.has id (ids_under k d) then ids_under k d else ids_under k d ++ id ∷ []) d)
        rw other refl
]

pub has-ids_under-append_new :
    (k l id b : ℕ) (d : Dict ℕ (List ℕ))
    → Bag.has b (ids_under l (append_new k id d))
      ≡ ((k == l) && (id == b) || Bag.has b (ids_under l d))
unfolding Bag.has
has-ids_under-append_new k l id b d = ground (
  arith,
  ids_under-append_new k l id d,
  nat_eq.same_iff k l,
  nat_eq.same_iff id b,
  Bag.has-append b (ids_under k d) (id ∷ []),
)
