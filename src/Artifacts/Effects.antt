-- ===== src/Artifacts/Effects.antt =====
-- emergence/artifacts/service.py: each operation keeps the records and the index of versions in
-- agreement.
use emergence_os.Base.{
  ℕ, ◌+◌, ◌<◌, String, true, false, Option, none, List, ◌≡◌, refl, sym, ap, subst, ◌≢◌, inl, inr,
  if◌then◌else◌, ==_refl, nat_eq, Bool-cases, arith, returned, raised, value_error,
  returned-injective, >>=-eq-returned,
}
use emergence_os.Base.Dict
use emergence_os.Base.Dict.{Dict}
use emergence_os.Base.Text.{is_blank}
use emergence_os.Artifacts.{
  Platform, Context, ArtifactService, ArtifactRecord, artifact_created, superseded, deleted,
  is_active, lineage_of, append_new,
}
use emergence_os.Artifacts.Mutations.{
  create, update, update_found, delete, delete_found, link, link_found, link_to, new_artifact,
  next_version, store_blob,
}
use emergence_os.Artifacts.Records.{
  CreateRequest, UpdateRequest, add_record, index_record, build_provenance, require_active,
  put_record,
}
use emergence_os.Artifacts.Watches.{notify_watchers}
use emergence_os.Artifacts.Lineage.{IsHeld, IsSound, IsHeld-put}
use emergence_os.Artifacts.Joining.{IsChangeOf, IsSound-replace, IsSound-join}

-- The records and the index of the service agree.
abbrev pub IsConsistent : ArtifactService → Type 0
IsConsistent s = IsSound s.records s.by_lineage

-- The record that `require_active` returns is the one that is held, and it is active.
pub require_active-eq-returned :
    (artifact_id : ℕ) (s : ArtifactService) (r : ArtifactRecord)
    → require_active artifact_id s ≡ returned r
    → IsHeld s.records artifact_id r × (is_active r.status ≡ true)
unfolding require_active
require_active-eq-returned artifact_id s r h = ground arith

-- A request that `create` accepts.
pub create-eq-returned :
    (platform : Platform) (ctx : Option Context) (id now : ℕ) (q : CreateRequest)
    (s : ArtifactService) (out : ArtifactRecord × ArtifactService)
    → create platform ctx id now q s ≡ returned out
    → let stored = store_blob platform (new_artifact platform ctx id now q s) q.content s in
      (stored.0, add_record artifact_created stored) ≡ out
unfolding create
create-eq-returned platform ctx id now q s out h = elim (Bool-cases (is_blank q.name)) [
  | inl blank ↦ absurd (ground (arith, h, blank))
  | inr named ↦ elim (Bool-cases (is_blank q.artifact_type)) [
    | inl blank ↦ absurd (ground (arith, h, named, blank))
    | inr typed ↦ returned-injective _ _ (ground (arith, h, named, typed))
  ]
]

-- An update that is accepted is one of an active record that is held.
pub update-eq-returned :
    (platform : Platform) (artifact_id new_id now : ℕ) (q : UpdateRequest) (s : ArtifactService)
    (out : ArtifactRecord × ArtifactService)
    → update platform artifact_id new_id now q s ≡ returned out
    → (current : ArtifactRecord) × IsHeld s.records artifact_id current
      × (is_active current.status ≡ true)
      × (update_found platform new_id now q current s ≡ out)
unfolding update
update-eq-returned platform artifact_id new_id now q s out h =
    let (current, found, same) = >>=-eq-returned (require_active artifact_id s) _ h in
    let (held, live) = require_active-eq-returned artifact_id s current found in
    (current, held, live, returned-injective _ _ same)

created_lineage :
    (platform : Platform) (ctx : Option Context) (id now : ℕ) (q : CreateRequest)
    (s : ArtifactService)
    → q.provenance.lineage_id ≡ none
    → lineage_of ((store_blob platform (new_artifact platform ctx id now q s) q.content s).0) ≡ id
unfolding new_artifact store_blob lineage_of build_provenance
created_lineage platform ctx id now q s h = rw h refl

-- The new record agrees with any index of the older ones, once it is listed there.
pub create-IsSound :
    (platform : Platform) (ctx : Option Context) (id now : ℕ) (q : CreateRequest)
    (s : ArtifactService) (b : Dict ℕ (List ℕ))
    → IsSound s.records b
    → Dict.has id s.records ≡ false
    → q.provenance.lineage_id ≡ none
    → let stored = store_blob platform (new_artifact platform ctx id now q s) q.content s in
      IsSound
        (add_record artifact_created stored).records
        (append_new (lineage_of (stored.0)) stored.0.artifact_id b)
unfolding add_record index_record notify_watchers store_blob new_artifact
create-IsSound platform ctx id now q s b v fresh own =
    let own_lineage = created_lineage platform ctx id now q s own in
    let r = (store_blob platform (new_artifact platform ctx id now q s) q.content s).0 in
    IsSound-join s.records r fresh (ground (arith, own_lineage, ==_refl id))
      (λ id1 u held same. absurd (ground (arith, v.rooted id1 u held, same, own_lineage, fresh))) b
      v

pub create-IsConsistent :
    (platform : Platform) (ctx : Option Context) (id now : ℕ) (q : CreateRequest)
    (s : ArtifactService)
    → IsConsistent s
    → Dict.has id s.records ≡ false
    → q.provenance.lineage_id ≡ none
    → IsConsistent (
        add_record artifact_created
          (store_blob platform (new_artifact platform ctx id now q s) q.content s))
unfolding add_record index_record notify_watchers store_blob new_artifact
create-IsConsistent platform ctx id now q s v fresh own =
    create-IsSound platform ctx id now q s s.by_lineage v fresh own

superseded_is_change : (r : ArtifactRecord) → IsChangeOf (record r { status = superseded }) r
unfolding lineage_of
superseded_is_change r = record {
  same_id = refl;
  same_lineage = refl;
  same_version = refl;
  active_before = λ h. absurd (ground (arith, h));
}

-- The others of the lineage of an active record are not active, and have a smaller version.
pub others_are_older :
    (s : ArtifactService) (current u : ArtifactRecord) (artifact_id id : ℕ)
    → IsConsistent s
    → IsHeld s.records artifact_id current
    → is_active current.status ≡ true
    → IsHeld s.records id u
    → id ≢ artifact_id
    → lineage_of u ≡ lineage_of current
    → (is_active u.status ≡ false) × (u.version < current.version + 1)
others_are_older s current u artifact_id id v held live held_u n same =
    let below = v.active_is_latest artifact_id id current u held held_u (sym same) live in
    elim (Bool-cases (is_active u.status)) [
      | inl also ↦
          let above = v.active_is_latest id artifact_id u current held_u held same also in
          absurd (n (v.one_version id artifact_id u current held_u held same (omega arith)))
      | inr inactive ↦ (inactive, omega arith)
    ]

pub IsHeld-by_id :
    (s : ArtifactService) (artifact_id : ℕ) (r : ArtifactRecord)
    → IsConsistent s
    → IsHeld s.records artifact_id r
    → IsHeld s.records r.artifact_id r
IsHeld-by_id s artifact_id r v held =
    subst (λ (i : ℕ). IsHeld s.records i r) (sym (v.keyed artifact_id r held)) held

pub update-IsConsistent :
    (platform : Platform) (new_id now : ℕ) (q : UpdateRequest) (s : ArtifactService)
    (artifact_id : ℕ) (current : ArtifactRecord)
    → IsConsistent s
    → Dict.has new_id s.records ≡ false
    → IsHeld s.records artifact_id current
    → is_active current.status ≡ true
    → IsConsistent ((update_found platform new_id now q current s).1)
unfolding update_found add_record index_record notify_watchers store_blob next_version
update-IsConsistent platform new_id now q s artifact_id current v fresh held live =
    let old : ArtifactRecord = record current { status = superseded } in
    let new : ArtifactRecord =
      (store_blob platform (next_version platform new_id now q current) q.content
        (put_record old s)).0 in
    let held_there = IsHeld-by_id s artifact_id current v held in
    IsSound-join (Dict.put current.artifact_id old s.records) new
      (ground (
        arith,
        fresh,
        held_there,
        Dict.has-eq-is_some new_id s.records,
        nat_eq.same_iff current.artifact_id new_id,
        Dict.has-put current.artifact_id new_id old s.records,
      ))
      (ground (
        arith,
        v.rooted artifact_id current held,
        Dict.has-put current.artifact_id (lineage_of current) old s.records,
      ))
      (λ id u held_u same. elim (IsHeld-put current.artifact_id id old u s.records held_u) [
        | inl (p, superseded_now) ↦ (
          ground (arith, ap (λ (x : ArtifactRecord). is_active x.status) superseded_now),
          ground (arith, ap (λ (x : ArtifactRecord). x.version) superseded_now),
        )
        | inr (n, before) ↦
            others_are_older s current u current.artifact_id id v held_there live before n same
      ])
      s.by_lineage
      (IsSound-replace s.records current old current.artifact_id held_there
        (superseded_is_change current) s.by_lineage v)

pub delete-IsConsistent :
    (artifact_id now : ℕ) (s t : ArtifactService)
    → IsConsistent s
    → delete artifact_id now s ≡ returned t
    → IsConsistent t
unfolding delete delete_found notify_watchers lineage_of
delete-IsConsistent artifact_id now s t v h =
    let (r, found, same) = >>=-eq-returned (require_active artifact_id s) _ h in
    let (held, live) = require_active-eq-returned artifact_id s r found in
    let gone : ArtifactRecord = record r { status = deleted; updated_at = now } in
    let change : IsChangeOf gone r = record {
      same_id = refl;
      same_lineage = refl;
      same_version = refl;
      active_before = λ a. absurd (ground (arith, a));
    } in
    subst IsConsistent (returned-injective _ _ same) (
      IsSound-replace s.records r gone r.artifact_id (IsHeld-by_id s artifact_id r v held) change
        s.by_lineage v)

pub link_given :
    (target link_type : String) (now : ℕ) (r : ArtifactRecord) (s t : ArtifactService)
    → (if is_blank target
        then raised value_error
        else returned (link_found target link_type now r s))
      ≡ returned t
    → link_found target link_type now r s ≡ t
link_given target link_type now r s t h = elim (Bool-cases (is_blank target)) [
  | inl blank ↦ absurd (ground (arith, h, blank))
  | inr given ↦ returned-injective _ _ (ground (arith, h, given))
]

pub link-IsConsistent :
    (artifact_id : ℕ) (target link_type : String) (now : ℕ) (s t : ArtifactService)
    → IsConsistent s
    → link artifact_id target link_type now s ≡ returned t
    → IsConsistent t
unfolding link link_found lineage_of
link-IsConsistent artifact_id target link_type now s t v h =
    let (r, found, same) = >>=-eq-returned (require_active artifact_id s) _ h in
    let (held, live) = require_active-eq-returned artifact_id s r found in
    let more : ArtifactRecord = record r {
      links = link_to link_type target r.links;
      updated_at = now;
    } in
    let change : IsChangeOf more r = record {
      same_id = refl;
      same_lineage = refl;
      same_version = refl;
      active_before = λ a. a;
    } in
    subst IsConsistent (link_given target link_type now r s t same) (
      IsSound-replace s.records r more r.artifact_id (IsHeld-by_id s artifact_id r v held) change
        s.by_lineage v)
