-- ===== src/Knowledge/Forgetting.antt =====
-- emergence/memory/knowledge_index.py: what `_on_memory_deleted` leaves.
use emergence_os.Base.{
  ℕ, Bool, true, false, ◌||◌, ◌&&◌, Option, none, some, some-injective, List, [], ◌∷◌, ◌≡◌, refl,
  sym, ap, subst, ◌∙◌, inl, inr, if◌then◌else◌, ◌==◌, ==_refl, nat_eq, Bool-cases, arith, All,
  All-map, returned, returned-injective, All-select, select,
}
use emergence_os.Base.Bag
use emergence_os.Base.Bag.{Distinct}
use emergence_os.Base.Dict
use emergence_os.Base.Dict.{Dict}
use emergence_os.Base.Keys.{Distinct-keys-pop, get-absent, All-entries, All-values}
use emergence_os.Knowledge.{
  ArtifactKey, artifact_key_eq, KnowledgeArtifact, KnowledgeIndex, ids_of, is_indexed,
}
use emergence_os.Memory.{MemoryCategory}
use emergence_os.Knowledge.Index.{MemoryNotice, category_from_event, process_id_from_event}
use emergence_os.Knowledge.Changes.{forget_listed, drop_all, is_named_by, on_memory_deleted}
use emergence_os.Knowledge.Coherence.{IsHeld, IsCoherent, IsOfGoal, ids_of-put, lists}

has-forget_listed :
    (g : Option ℕ) (l : ℕ) (id b : ArtifactKey) (d : Dict ℕ (List ArtifactKey))
    → ((k : ℕ) → Distinct (ids_of k d))
    → Bag.has b (ids_of l (forget_listed g id d))
      ≡ (if lists g l && (id == b) then false else Bag.has b (ids_of l d))
unfolding forget_listed
has-forget_listed none l id b d h = refl
has-forget_listed (some g) l id b d h = rw (ids_of-put g l (Bag.remove id (ids_of g d)) d) ground (
  arith,
  Bag.has-remove id b (ids_of g d) (h g),
  nat_eq.same_iff g l,
  artifact_key_eq.same_iff id b,
)

Distinct-forget_listed :
    (g : Option ℕ) (l : ℕ) (id : ArtifactKey) (d : Dict ℕ (List ArtifactKey))
    → ((k : ℕ) → Distinct (ids_of k d))
    → Distinct (ids_of l (forget_listed g id d))
unfolding forget_listed
Distinct-forget_listed none l id d h = h l
Distinct-forget_listed (some g) l id d h =
    rw (ids_of-put g l (Bag.remove id (ids_of g d)) d) elim (Bool-cases (g == l)) [
      | inl same ↦ rw same (Bag.Distinct-remove id (ids_of g d) (h g))
      | inr other ↦ rw other (h l)
    ]

-- An artifact whose id has its goal, if it is held at all, is dropped.
drop_one-IsCoherent :
    (a : KnowledgeArtifact) (x : KnowledgeIndex)
    → IsOfGoal a x
    → IsCoherent x
    → IsCoherent (record x {
      artifacts = Dict.pop a.artifact_id x.artifacts;
      by_goal = forget_listed a.goal_id a.artifact_id x.by_goal;
    })
drop_one-IsCoherent a x same_goal v = record {
  keyed = λ id b h. v.keyed id b (IsHeld-before_put id b h);
  distinct = Distinct-keys-pop a.artifact_id x.artifacts v.distinct;
  listed = λ id b g h goal.
      has-forget_listed a.goal_id g a.artifact_id id x.by_goal v.once
      ∙ ground (arith, is_other id b h, v.listed id b g (IsHeld-before_put id b h) goal);
  filed = λ g id h.
      let both = sym (has-forget_listed a.goal_id g a.artifact_id id x.by_goal v.once) ∙ h in
      let (b, held, goal) = v.filed g id (ground (arith, both)) in
      (
        b,
        ground
            (arith, held, is_kept g id b held goal both, Dict.get-pop a.artifact_id id x.artifacts),
        goal,
      );
  once = λ g. Distinct-forget_listed a.goal_id g a.artifact_id x.by_goal v.once;
}
  where
    is_other :
        (id : ArtifactKey) (b : KnowledgeArtifact)
        → IsHeld (Dict.pop a.artifact_id x.artifacts) id b
        → (a.artifact_id == id) ≡ false
    is_other id b h = ground (arith, h, Dict.get-pop a.artifact_id id x.artifacts)

    IsHeld-before_put :
        (id : ArtifactKey) (b : KnowledgeArtifact)
        → IsHeld (Dict.pop a.artifact_id x.artifacts) id b
        → IsHeld x.artifacts id b
    IsHeld-before_put id b h = ground (arith, h, Dict.get-pop a.artifact_id id x.artifacts)

    is_kept :
        (g : ℕ) (id : ArtifactKey) (b : KnowledgeArtifact)
        → IsHeld x.artifacts id b
        → b.goal_id ≡ some g
        → (if lists a.goal_id g && (a.artifact_id == id)
            then false
            else Bag.has id (ids_of g x.by_goal))
          ≡ true
        → (a.artifact_id == id) ≡ false
    is_kept g id b held goal h = elim (Bool-cases (a.artifact_id == id)) [
      | inl same ↦
          let of_a = same_goal b (
            ap (λ (i : ArtifactKey). Dict.get i x.artifacts)
              ((artifact_key_eq.same_iff a.artifact_id id).0 same)
            ∙ held) in
          let listed : lists a.goal_id g ≡ true =
            ap (λ (o : Option ℕ). lists o g) (sym of_a ∙ goal) ∙ ==_refl g in
          absurd (ground (arith, h, listed, same))
      | inr other ↦ other
    ]

-- The id is that of one of the artifacts.
is_id_of : ArtifactKey → List KnowledgeArtifact → Bool
is_id_of id [] = false
is_id_of id (a ∷ artifacts) = (a.artifact_id == id) || is_id_of id artifacts

-- An artifact that is dropped is not held, and the others stay.
held-drop_all :
    (matches : List KnowledgeArtifact) (x : KnowledgeIndex) (id : ArtifactKey)
    → Dict.get id ((drop_all matches x).artifacts)
      ≡ (if is_id_of id matches then none else Dict.get id x.artifacts)
unfolding drop_all is_id_of
held-drop_all [] x id = refl
held-drop_all (a ∷ matches) x id =
    held-drop_all matches _ id ∙ ground (arith, Dict.get-pop a.artifact_id id x.artifacts)

IsOfGoal-drop :
    (a b : KnowledgeArtifact) (x : KnowledgeIndex)
    → IsOfGoal a x
    → IsOfGoal a (record x {
      artifacts = Dict.pop b.artifact_id x.artifacts;
      by_goal = forget_listed b.goal_id b.artifact_id x.by_goal;
    })
IsOfGoal-drop a b x h c held =
    h c (ground (arith, held, Dict.get-pop b.artifact_id a.artifact_id x.artifacts))

drop_all-IsCoherent :
    (matches : List KnowledgeArtifact) (x : KnowledgeIndex)
    → All (λ a. IsOfGoal a x) matches
    → IsCoherent x
    → IsCoherent (drop_all matches x)
unfolding drop_all
drop_all-IsCoherent [] x h v = v
drop_all-IsCoherent (a ∷ matches) x h v =
    drop_all-IsCoherent matches _ (All-map _ _ matches (λ b k. IsOfGoal-drop b a x k) h.1)
      (drop_one-IsCoherent a x h.0 v)

chosen : (KnowledgeArtifact → Bool) → Option KnowledgeArtifact → Bool
chosen p none = false
chosen p (some a) = p a

is_id_of-select :
    (p : KnowledgeArtifact → Bool) (d : Dict ArtifactKey KnowledgeArtifact) (id : ArtifactKey)
    → Distinct (Dict.keys d)
    → All (λ (e : ArtifactKey × KnowledgeArtifact). (e.1).artifact_id ≡ e.0) d
    → is_id_of id (select p (Dict.values d)) ≡ chosen p (Dict.get id d)
unfolding Dict.values Dict.keys Dict.get is_id_of select chosen
is_id_of-select p [] id h k = refl
is_id_of-select p ((j, a) ∷ d) id h k =
    let rest = is_id_of-select p d id h.1 k.1 in
    ground (
      arith,
      rest,
      k.0,
      get-absent j d h.0,
      artifact_key_eq.same_iff j id,
      ap (chosen p) (get-absent j d h.0),
    )

module _ (x : KnowledgeIndex) (v : IsCoherent x) where
  all-IsOfGoal : All (λ a. IsOfGoal a x) (Dict.values x.artifacts)
  all-IsOfGoal =
      All-values (λ a. IsOfGoal a x) x.artifacts
        (All-entries _ x.artifacts v.distinct (λ k a held b held_b.
          ap (λ (c : KnowledgeArtifact). c.goal_id)
            (some-injective b a (
              sym held_b
              ∙ ap (λ (i : ArtifactKey). Dict.get i x.artifacts) (v.keyed k a held)
              ∙ held))))

  drop_selected :
      (p : KnowledgeArtifact → Bool) (id : ArtifactKey)
      → Dict.get id ((drop_all (select p (Dict.values x.artifacts)) x).artifacts)
        ≡ (if chosen p (Dict.get id x.artifacts) then none else Dict.get id x.artifacts)
  drop_selected p id =
      held-drop_all (select p (Dict.values x.artifacts)) x id
      ∙ (rw
          (is_id_of-select p x.artifacts id v.distinct
            (All-entries _ x.artifacts v.distinct (λ k a held. v.keyed k a held)))
          refl)

-- The artifact `o`, if there is one, is named by the event.
pub is_forgotten : MemoryNotice → MemoryCategory → Option KnowledgeArtifact → Bool
unfolding chosen
is_forgotten e category o = chosen (is_named_by e category (process_id_from_event e)) o

deleted_as :
    (e : MemoryNotice) (x : KnowledgeIndex) (category : MemoryCategory)
    → category_from_event e ≡ returned category
    → is_indexed category ≡ true
    → on_memory_deleted e x
      ≡ returned (
          drop_all
            (select (is_named_by e category (process_id_from_event e)) (Dict.values x.artifacts))
            x)
unfolding on_memory_deleted
deleted_as e x category known indexed = rw known rw indexed refl

-- An event of a category that is indexed leaves the artifacts and the lists in agreement, where
-- they agreed before, and takes away the artifacts about the memory that it names and no others.
pub on_memory_deleted-IsCoherent :
    (e : MemoryNotice) (x y : KnowledgeIndex) (category : MemoryCategory)
    → IsCoherent x
    → category_from_event e ≡ returned category
    → is_indexed category ≡ true
    → on_memory_deleted e x ≡ returned y
    → IsCoherent y
      × ((id : ArtifactKey)
          → Dict.get id y.artifacts ≡ (
              if is_forgotten e category (Dict.get id x.artifacts)
              then none
              else Dict.get id x.artifacts))
unfolding on_memory_deleted is_forgotten
on_memory_deleted-IsCoherent e x y category v known indexed h =
    let p = is_named_by e category (process_id_from_event e) in
    let matches = select p (Dict.values x.artifacts) in
    let same : drop_all matches x ≡ y =
      returned-injective _ _ (sym (deleted_as e x category known indexed) ∙ h) in
    (
      subst IsCoherent same (
          drop_all-IsCoherent matches x
            (All-select _ p (Dict.values x.artifacts) (all-IsOfGoal x v)) v),
      λ id.
          ap (λ (z : KnowledgeIndex). Dict.get id z.artifacts) (sym same) ∙ drop_selected x v p id,
    )
