-- ===== src/Knowledge/Coherence.antt =====
-- emergence/memory/knowledge_index.py: the artifacts and the lists of the goals agree.
use emergence_os.Base.{
  ℕ, Bool, true, false, ◌||◌, ◌&&◌, Option, none, some, some-injective, List, [], ◌∷◌, ◌++◌, ◌≡◌,
  refl, sym, ap, ◌∙◌, ◌≢◌, ◌⊎◌, inl, inr, if◌then◌else◌, ◌==◌, ==_refl, nat_eq, Bool-cases, arith,
}
use emergence_os.Base.Bag
use emergence_os.Base.Bag.{Distinct}
use emergence_os.Base.Dict
use emergence_os.Base.Dict.{Dict}
use emergence_os.Base.Keys.{Distinct-keys-put}
use emergence_os.Knowledge.{
  new_index, ArtifactKey, artifact_key_eq, KnowledgeArtifact, KnowledgeIndex, ids_of,
}
use emergence_os.Knowledge.Index.{list_under, add_artifact}

abbrev pub IsHeld :
    Dict ArtifactKey KnowledgeArtifact → (id : ArtifactKey) → KnowledgeArtifact → Type 0
IsHeld artifacts id a = Dict.get id artifacts ≡ some a

-- An artifact is held under its id, which comes once; the list of a goal has, once each, the ids of
-- the artifacts of the goal.
pub record IsCoherent (x : KnowledgeIndex) : Type 0 where
  pub keyed :
      (id : ArtifactKey) (a : KnowledgeArtifact) → IsHeld x.artifacts id a → a.artifact_id ≡ id
  pub distinct : Distinct (Dict.keys x.artifacts)
  pub listed :
      (id : ArtifactKey) (a : KnowledgeArtifact) (goal_id : ℕ)
      → IsHeld x.artifacts id a
      → a.goal_id ≡ some goal_id
      → Bag.has id (ids_of goal_id x.by_goal) ≡ true
  pub filed :
      (goal_id : ℕ) (id : ArtifactKey)
      → Bag.has id (ids_of goal_id x.by_goal) ≡ true
      → (a : KnowledgeArtifact) × IsHeld x.artifacts id a × (a.goal_id ≡ some goal_id)
  pub once : (goal_id : ℕ) → Distinct (ids_of goal_id x.by_goal)

-- An artifact that is held under the id of `a` has the goal of `a`.
abbrev pub IsOfGoal : KnowledgeArtifact → KnowledgeIndex → Type 0
IsOfGoal a x = (b : KnowledgeArtifact) → IsHeld x.artifacts a.artifact_id b → b.goal_id ≡ a.goal_id

pub IsHeld-put :
    (k id : ArtifactKey) (a b : KnowledgeArtifact) (d : Dict ArtifactKey KnowledgeArtifact)
    → IsHeld (Dict.put k a d) id b
    → ((id ≡ k) × (b ≡ a)) ⊎ ((id ≢ k) × IsHeld d id b)
IsHeld-put k id a b d h = elim (Bool-cases (k == id)) [
  | inl same ↦ inl (
    sym ((artifact_key_eq.same_iff k id).0 same),
    some-injective b a (sym h ∙ Dict.get-put k id a d ∙ (rw same refl)),
  )
  | inr other ↦ inr (
    λ e. ground (arith, e, artifact_key_eq.same_iff k id),
    sym (Dict.get-put k id a d ∙ (rw other refl)) ∙ h,
  )
]

pub ids_of-put :
    (g l : ℕ) (ids : List ArtifactKey) (d : Dict ℕ (List ArtifactKey))
    → ids_of l (Dict.put g ids d) ≡ (if g == l then ids else ids_of l d)
unfolding ids_of
ids_of-put g l ids d = elim (Bool-cases (g == l)) [
  | inl same ↦ rw (Dict.get-put g l ids d) rw same refl
  | inr other ↦ rw (Dict.get-put g l ids d) rw other refl
]

abbrev pub lists : Option ℕ → ℕ → Bool
lists none l = false
lists (some g) l = g == l

pub has-list_under :
    (g : Option ℕ) (l : ℕ) (id b : ArtifactKey) (d : Dict ℕ (List ArtifactKey))
    → Bag.has b (ids_of l (list_under g id d)) ≡ (lists g l && (id == b) || Bag.has b (ids_of l d))
unfolding list_under Bag.has
has-list_under none l id b d = refl
has-list_under (some g) l id b d = ground (
  arith,
  ids_of-put g l (if Bag.has id (ids_of g d) then ids_of g d else ids_of g d ++ id ∷ []) d,
  nat_eq.same_iff g l,
  artifact_key_eq.same_iff id b,
  Bag.has-append b (ids_of g d) (id ∷ []),
)

Distinct-list_under :
    (g : Option ℕ) (l : ℕ) (id : ArtifactKey) (d : Dict ℕ (List ArtifactKey))
    → ((k : ℕ) → Distinct (ids_of k d))
    → Distinct (ids_of l (list_under g id d))
unfolding list_under
Distinct-list_under none l id d h = h l
Distinct-list_under (some g) l id d h =
    rw (ids_of-put g l (if Bag.has id (ids_of g d) then ids_of g d else ids_of g d ++ id ∷ []) d)
      elim (Bool-cases (g == l)) [
        | inl same ↦ rw same elim (Bool-cases (Bag.has id (ids_of g d))) [
          | inl there ↦ rw there (h g)
          | inr absent ↦ rw absent (Bag.Distinct-append_one id (ids_of g d) absent (h g))
        ]
        | inr other ↦ rw other (h l)
      ]

lists-some : (o : Option ℕ) (l : ℕ) → lists o l ≡ true → o ≡ some l
lists-some none l h = absurd (ground (arith, h))
lists-some (some g) l h = ap some ((nat_eq.same_iff g l).0 h)

-- An artifact joins, or takes the place of one of its goal.
pub add_artifact-IsCoherent :
    (a : KnowledgeArtifact) (x : KnowledgeIndex)
    → IsOfGoal a x
    → IsCoherent x
    → IsCoherent (add_artifact a x)
unfolding add_artifact
add_artifact-IsCoherent a x same_goal v = record {
  keyed = λ id b h. elim (IsHeld-put a.artifact_id id a b x.artifacts h) [
    | inl (p, q) ↦ ap (λ (c : KnowledgeArtifact). c.artifact_id) q ∙ sym p
    | inr (n, old) ↦ v.keyed id b old
  ];
  distinct = Distinct-keys-put a.artifact_id a x.artifacts v.distinct;
  listed = λ id b g h goal.
      has-list_under a.goal_id g a.artifact_id id x.by_goal
      ∙ elim (IsHeld-put a.artifact_id id a b x.artifacts h) [
        | inl (p, q) ↦ new_is_listed id b g p q goal
        | inr (n, old) ↦ ground (arith, v.listed id b g old goal)
      ];
  filed = λ g id h. filed_after g id h (Bool-cases (a.artifact_id == id));
  once = λ g. Distinct-list_under a.goal_id g a.artifact_id x.by_goal v.once;
}
  where
    new_is_listed :
        (id : ArtifactKey) (b : KnowledgeArtifact) (g : ℕ)
        → id ≡ a.artifact_id
        → b ≡ a
        → b.goal_id ≡ some g
        → (lists a.goal_id g && (a.artifact_id == id) || Bag.has id (ids_of g x.by_goal)) ≡ true
    new_is_listed id b g p q goal =
        rw (sym (ap (λ (c : KnowledgeArtifact). c.goal_id) q) ∙ goal) ground (
          arith,
          p,
          ==_refl a.artifact_id,
          nat_eq.same_iff g g,
          artifact_key_eq.same_iff a.artifact_id id,
        )

    goal_of_new :
        (g : ℕ) (id : ArtifactKey)
        → a.artifact_id ≡ id
        → (lists a.goal_id g && (a.artifact_id == id) || Bag.has id (ids_of g x.by_goal)) ≡ true
        → a.goal_id ≡ some g
    goal_of_new g id same h = elim (Bool-cases (Bag.has id (ids_of g x.by_goal))) [
      | inl before ↦
          let (b, held, goal) = v.filed g id before in
          sym (same_goal b (ap (λ (i : ArtifactKey). Dict.get i x.artifacts) same ∙ held)) ∙ goal
      | inr new ↦ lists-some a.goal_id g (ground (arith, h, new))
    ]

    filed_after :
        (g : ℕ) (id : ArtifactKey)
        → Bag.has id (ids_of g (list_under a.goal_id a.artifact_id x.by_goal)) ≡ true
        → ((a.artifact_id == id) ≡ true) ⊎ ((a.artifact_id == id) ≡ false)
        → (b : KnowledgeArtifact) × IsHeld (Dict.put a.artifact_id a x.artifacts) id b
          × (b.goal_id ≡ some g)
    filed_after g id h (inl same) = (
      a,
      Dict.get-put a.artifact_id id a x.artifacts ∙ (rw same refl),
      goal_of_new g id ((artifact_key_eq.same_iff a.artifact_id id).0 same)
          (sym (has-list_under a.goal_id g a.artifact_id id x.by_goal) ∙ h),
    )
    filed_after g id h (inr other) =
        let (b, held, goal) =
          v.filed g id
            (ground (arith, has-list_under a.goal_id g a.artifact_id id x.by_goal, h, other)) in
        (b, Dict.get-put a.artifact_id id a x.artifacts ∙ (rw other held), goal)

pub new_index-IsCoherent : IsCoherent new_index
unfolding Dict.get Dict.keys ids_of Bag.has
new_index-IsCoherent = record {
  keyed = λ id a h. absurd (ground (arith, h));
  distinct = tt;
  listed = λ id a g h _. absurd (ground (arith, h));
  filed = λ g id h. absurd (ground (arith, h));
  once = λ g. tt;
}
