-- ===== src/Artifacts/Joining.antt =====
-- emergence/artifacts/service.py: a record changes or joins, and the records and the
-- index of versions still agree.
use emergence_os.Base.{
  ℕ, ◌≤◌, ◌<◌, true, false, ◌||◌, List, ◌≡◌, refl, sym, ap, subst, ◌∙◌, inl, inr, ◌==◌, ==_refl,
  nat_eq, Bool-cases, arith, some-injective,
}
use emergence_os.Base.Bag
use emergence_os.Base.Dict
use emergence_os.Base.Dict.{Dict}
use emergence_os.Base.Keys.{Distinct-keys-put}
use emergence_os.Artifacts.{ArtifactRecord, is_active, lineage_of, ids_under, append_new}
-- The record `r` is held under `id`.
use emergence_os.Artifacts.Lineage.{
  IsHeld, IsSound, IsHeld-put, IsHeld-put_self, IsHeld-put_other, has-ids_under-append_new,
}

-- The record `t` may take the place of `r`.
pub record IsChangeOf (t r : ArtifactRecord) : Type 0 where
  pub same_id : t.artifact_id ≡ r.artifact_id
  pub same_lineage : lineage_of t ≡ lineage_of r
  pub same_version : t.version ≡ r.version
  pub active_before : is_active t.status ≡ true → is_active r.status ≡ true

unchanged : (r : ArtifactRecord) → IsChangeOf r r
unchanged r = record {
  same_id = refl;
  same_lineage = refl;
  same_version = refl;
  active_before = λ h. h;
}

module _ (records : Dict ℕ ArtifactRecord) (r t : ArtifactRecord) (k : ℕ) (h : IsHeld records k r)
    (c : IsChangeOf t r) where
  IsHeld-before_put :
      (id : ℕ) (u : ArtifactRecord)
      → IsHeld (Dict.put k t records) id u
      → (u0 : ArtifactRecord) × IsHeld records id u0 × IsChangeOf u u0
  IsHeld-before_put id u held = elim (IsHeld-put k id t u records held) [
    | inl (p, q) ↦ (
      r,
      ap (λ (i : ℕ). Dict.get i records) p ∙ h,
      subst (λ (x : ArtifactRecord). IsChangeOf x r) (sym q) c,
    )
    | inr (n, old) ↦ (u, old, unchanged u)
  ]

  IsHeld-after_put :
      (id : ℕ) (u : ArtifactRecord)
      → IsHeld records id u
      → (u1 : ArtifactRecord) × IsHeld (Dict.put k t records) id u1 × IsChangeOf u1 u
  IsHeld-after_put id u held = elim (Bool-cases (k == id)) [
    | inl same ↦ (
      t,
      Dict.get-put k id t records ∙ (rw same refl),
      subst (IsChangeOf t)
          (some-injective r u
            (sym h ∙ ap (λ (i : ℕ). Dict.get i records) ((nat_eq.same_iff k id).0 same) ∙ held))
          c,
    )
    | inr other ↦ (u, Dict.get-put k id t records ∙ (rw other held), unchanged u)
  ]

  -- A record may change all but its id, lineage and version, when it does not become active.
  pub IsSound-replace :
      (by_lineage : Dict ℕ (List ℕ))
      → IsSound records by_lineage
      → IsSound (Dict.put k t records) by_lineage
  IsSound-replace by_lineage v = record {
    keyed = λ id u held.
        let (u0, held0, cu) = IsHeld-before_put id u held in cu.same_id ∙ v.keyed id u0 held0;
    distinct = Distinct-keys-put k t records v.distinct;
    rooted = λ id u held.
        let (u0, held0, cu) = IsHeld-before_put id u held in
        ground
          (arith, Dict.has-put k (lineage_of u) t records, cu.same_lineage, v.rooted id u0 held0);
    one_version = λ a b u w hu hw same_lineage same_version.
        let (u0, hu0, cu) = IsHeld-before_put a u hu in
        let (w0, hw0, cw) = IsHeld-before_put b w hw in
        v.one_version a b u0 w0 hu0 hw0 (sym cu.same_lineage ∙ same_lineage ∙ cw.same_lineage)
          (sym cu.same_version ∙ same_version ∙ cw.same_version);
    active_is_latest = λ a b u w hu hw same_lineage active.
        let (u0, hu0, cu) = IsHeld-before_put a u hu in
        let (w0, hw0, cw) = IsHeld-before_put b w hw in
        let below =
          v.active_is_latest a b u0 w0 hu0 hw0
            (sym cu.same_lineage ∙ same_lineage ∙ cw.same_lineage) (cu.active_before active) in
        ground (arith, below, cu.same_version, cw.same_version);
    indexed = λ id u held.
        let (u0, held0, cu) = IsHeld-before_put id u held in
        subst (λ (l : ℕ). Bag.has id (ids_under l by_lineage) ≡ true) (sym cu.same_lineage)
          (v.indexed id u0 held0);
    filed = λ lineage id listed.
        let (u0, held0, same) = v.filed lineage id listed in
        let (u1, held1, cu) = IsHeld-after_put id u0 held0 in (u1, held1, cu.same_lineage ∙ same);
  }

-- A new record may join, the first of its lineage or the next version of it, when the others of
-- the lineage are not active.
module _ (records : Dict ℕ ArtifactRecord) (r : ArtifactRecord)
    (fresh : Dict.has r.artifact_id records ≡ false)
    (root : ((lineage_of r == r.artifact_id) || Dict.has (lineage_of r) records) ≡ true)
    (newest : (id : ℕ) (u : ArtifactRecord)
      → IsHeld records id u
      → lineage_of u ≡ lineage_of r
      → (is_active u.status ≡ false) × (u.version < r.version))
    (by_lineage : Dict ℕ (List ℕ)) (v : IsSound records by_lineage) where
  joined : Dict ℕ ArtifactRecord
  joined = Dict.put r.artifact_id r records

  relisted : Dict ℕ (List ℕ)
  relisted = append_new (lineage_of r) r.artifact_id by_lineage

  version_as : (u : ArtifactRecord) → u ≡ r → u.version ≡ r.version
  version_as u q = ap (λ (x : ArtifactRecord). x.version) q

  one_version_joined :
      (a b : ℕ) (u w : ArtifactRecord)
      → IsHeld joined a u
      → IsHeld joined b w
      → lineage_of u ≡ lineage_of w
      → u.version ≡ w.version
      → a ≡ b
  unfolding joined
  one_version_joined a b u w hu hw same_lineage same_version =
      elim (IsHeld-put r.artifact_id a r u records hu) [
        | inl (p, q) ↦ elim (IsHeld-put r.artifact_id b r w records hw) [
          | inl (p2, q2) ↦ p ∙ sym p2
          | inr (n2, old2) ↦
              let below = newest b w old2 (sym same_lineage ∙ ap lineage_of q) in
              absurd (ground (arith, below.1, version_as u q, same_version))
        ]
        | inr (n, old) ↦ elim (IsHeld-put r.artifact_id b r w records hw) [
          | inl (p2, q2) ↦
              let below = newest a u old (same_lineage ∙ ap lineage_of q2) in
              absurd (ground (arith, below.1, version_as w q2, same_version))
          | inr (n2, old2) ↦ v.one_version a b u w old old2 same_lineage same_version
        ]
      ]

  latest_joined :
      (a b : ℕ) (u w : ArtifactRecord)
      → IsHeld joined a u
      → IsHeld joined b w
      → lineage_of u ≡ lineage_of w
      → is_active u.status ≡ true
      → w.version ≤ u.version
  unfolding joined
  latest_joined a b u w hu hw same_lineage active =
      elim (IsHeld-put r.artifact_id a r u records hu) [
        | inl (p, q) ↦ elim (IsHeld-put r.artifact_id b r w records hw) [
          | inl (p2, q2) ↦ ground (arith, version_as u q, version_as w q2)
          | inr (n2, old2) ↦
              let below = newest b w old2 (sym same_lineage ∙ ap lineage_of q) in
              ground (arith, below.1, version_as u q)
        ]
        | inr (n, old) ↦ elim (IsHeld-put r.artifact_id b r w records hw) [
          | inl (p2, q2) ↦
              let below = newest a u old (same_lineage ∙ ap lineage_of q2) in
              absurd (ground (arith, below.0, active))
          | inr (n2, old2) ↦ v.active_is_latest a b u w old old2 same_lineage active
        ]
      ]

  indexed_joined :
      (id : ℕ) (u : ArtifactRecord)
      → IsHeld joined id u
      → Bag.has id (ids_under (lineage_of u) relisted) ≡ true
  unfolding joined relisted
  indexed_joined id u held =
      has-ids_under-append_new (lineage_of r) (lineage_of u) r.artifact_id id by_lineage
      ∙ elim (IsHeld-put r.artifact_id id r u records held) [
        | inl (p, q) ↦ ground (
          arith,
          p,
          ap lineage_of q,
          ==_refl r.artifact_id,
          ==_refl (lineage_of r),
          nat_eq.same_iff r.artifact_id id,
          nat_eq.same_iff (lineage_of r) (lineage_of u),
        )
        | inr (n, old) ↦ ground (arith, v.indexed id u old)
      ]

  filed_joined :
      (lineage id : ℕ)
      → Bag.has id (ids_under lineage relisted) ≡ true
      → (u : ArtifactRecord) × IsHeld joined id u × (lineage_of u ≡ lineage)
  unfolding joined relisted
  filed_joined lineage id listed = elim (Bool-cases (Bag.has id (ids_under lineage by_lineage))) [
    | inl before ↦
        let (u0, held0, same) = v.filed lineage id before in
        (
          u0,
          IsHeld-put_other r.artifact_id id r u0 records
              (λ e. ground (arith, e, fresh, held0, Dict.has-eq-is_some id records)) held0,
          same,
        )
    | inr new ↦
        let both = has-ids_under-append_new (lineage_of r) lineage r.artifact_id id by_lineage in
        let same : lineage_of r ≡ lineage =
          ground (arith, both, listed, new, nat_eq.same_iff (lineage_of r) lineage) in
        let same_id : r.artifact_id ≡ id =
          ground (arith, both, listed, new, nat_eq.same_iff r.artifact_id id) in
        (
          r,
          subst (λ (i : ℕ). IsHeld (Dict.put r.artifact_id r records) i r) same_id
              (IsHeld-put_self r.artifact_id r records),
          same,
        )
  ]

  pub IsSound-join :
      IsSound
        (Dict.put r.artifact_id r records)
        (append_new (lineage_of r) r.artifact_id by_lineage)
  unfolding joined relisted
  IsSound-join = record {
    keyed = λ id u held. elim (IsHeld-put r.artifact_id id r u records held) [
      | inl (p, q) ↦ ap (λ (x : ArtifactRecord). x.artifact_id) q ∙ sym p
      | inr (n, old) ↦ v.keyed id u old
    ];
    distinct = Distinct-keys-put r.artifact_id r records v.distinct;
    rooted = λ id u held. elim (IsHeld-put r.artifact_id id r u records held) [
      | inl (p, q) ↦
          ground (arith, Dict.has-put r.artifact_id (lineage_of u) r records, ap lineage_of q, root)
      | inr (n, old) ↦
          ground (arith, Dict.has-put r.artifact_id (lineage_of u) r records, v.rooted id u old)
    ];
    one_version = one_version_joined;
    active_is_latest = latest_joined;
    indexed = indexed_joined;
    filed = filed_joined;
  }
