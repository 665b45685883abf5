-- ===== src/Knowledge/Storing.antt =====
-- emergence/memory/knowledge_index.py: what `_on_memory_stored` leaves.
use emergence_os.Base.{
  ℕ, String, Bool, true, false, Option, none, some, some-injective, ◌≡◌, refl, sym, ap, subst, ◌∙◌,
  ◌≢◌, inl, inr, ◌==◌, ==_refl, string_eq, nat_eq, Bool-cases, Option-cases, arith, returned,
  returned-injective, >>=-eq-returned,
}
use emergence_os.Base.Bag
use emergence_os.Base.Dict
use emergence_os.Base.Dict.{Dict}
use emergence_os.Base.Value.{Value}
use emergence_os.Memory.{MemoryCategory}
use emergence_os.Knowledge.{
  ArtifactKey, of_event, artifact_key_eq, KnowledgeArtifact, KnowledgeIndex, Context, ids_of,
  is_indexed, goal_for,
}
use emergence_os.Knowledge.Index.{
  MemoryNotice, category_from_event, process_id_from_event, key_from_event, add_artifact,
  forget_existing,
}
use emergence_os.Knowledge.Changes.{artifact_of_event, store_for, on_memory_stored}
use emergence_os.Knowledge.Coherence.{IsHeld, IsCoherent, has-list_under, add_artifact-IsCoherent}

-- `forget_existing` changes neither the artifacts nor the lists under texts.
pub forget_existing-keeps :
    (o : Option KnowledgeArtifact) (id : ArtifactKey) (x : KnowledgeIndex)
    → ((forget_existing o id x).artifacts ≡ x.artifacts)
      × ((forget_existing o id x).by_goal ≡ x.by_goal)
unfolding forget_existing
forget_existing-keeps none id x = (refl, refl)
forget_existing-keeps (some a) id x = elim (Option-cases a.goal_id) [
  | inl missing ↦ rw missing (refl, refl)
  | inr (g, given) ↦ rw given (refl, refl)
]

IsCoherent-keeps :
    (x y : KnowledgeIndex)
    → y.artifacts ≡ x.artifacts
    → y.by_goal ≡ x.by_goal
    → IsCoherent x
    → IsCoherent y
IsCoherent-keeps x y p q v = record {
  keyed = λ id a h. v.keyed id a (subst (λ d. IsHeld d id a) p h);
  distinct = rw p v.distinct;
  listed = λ id a g h goal. rw q (v.listed id a g (subst (λ d. IsHeld d id a) p h) goal);
  filed = λ g id h.
      let (a, held, goal) = v.filed g id (subst (λ d. Bag.has id (ids_of g d) ≡ true) q h) in
      (a, (rw p held), goal);
  once = λ g. rw q (v.once g);
}

module _ (lower : String → String) (ends_with : String → String → Bool) (size_of : Value → ℕ)
    (ctx : Option Context) (e : MemoryNotice) (x : KnowledgeIndex) where
  pub stored_as :
      (category : MemoryCategory)
      → category_from_event e ≡ returned category
      → is_indexed category ≡ true
      → on_memory_stored lower ends_with size_of ctx e x
        ≡ returned (store_for lower ends_with size_of ctx e category (process_id_from_event e) x)
  unfolding on_memory_stored
  stored_as category known indexed = rw known rw indexed refl

  store_for-IsCoherent :
      (category : MemoryCategory) (o : Option ℕ)
      → IsCoherent x
      → ((process_id : ℕ) (b : KnowledgeArtifact)
          → o ≡ some process_id
          → IsHeld x.artifacts (of_event e.event_id) b
          → b.goal_id ≡ goal_for ctx process_id)
      → IsCoherent (store_for lower ends_with size_of ctx e category o x)
  unfolding store_for
  store_for-IsCoherent category none v same_goal = v
  store_for-IsCoherent category (some process_id) v same_goal =
      elim (Bool-cases (key_from_event e == "")) [
        | inl blank ↦ rw blank v
        | inr given ↦
            let o = Dict.get (of_event e.event_id) x.artifacts in
            let (p, q) = forget_existing-keeps o (of_event e.event_id) x in
            rw given (
              add_artifact-IsCoherent
                (artifact_of_event lower ends_with size_of ctx e category process_id
                  (key_from_event e))
                (forget_existing o (of_event e.event_id) x)
                (λ b held. same_goal process_id b refl (
                  subst
                    (λ (d : Dict ArtifactKey KnowledgeArtifact). IsHeld d (of_event e.event_id) b) p
                    held))
                (IsCoherent-keeps x (forget_existing o (of_event e.event_id) x) p q v))
      ]

  pub ignored_as :
      (category : MemoryCategory)
      → category_from_event e ≡ returned category
      → is_indexed category ≡ false
      → on_memory_stored lower ends_with size_of ctx e x ≡ returned x
  unfolding on_memory_stored
  ignored_as category known other = rw known rw other refl

  -- The handler that returns has found a category.
  pub has_category :
      (y : KnowledgeIndex)
      → on_memory_stored lower ends_with size_of ctx e x ≡ returned y
      → (category : MemoryCategory) × (category_from_event e ≡ returned category)
  unfolding on_memory_stored
  has_category y h =
      let (category, known, rest) = >>=-eq-returned (category_from_event e) _ h in (category, known)

  -- The handler that returns leaves the artifacts and the lists in agreement, when an artifact that
  -- is held for the event already is one of the goal of the event's process.
  pub on_memory_stored-IsCoherent :
      (y : KnowledgeIndex)
      → IsCoherent x
      → ((process_id : ℕ) (b : KnowledgeArtifact)
          → process_id_from_event e ≡ some process_id
          → IsHeld x.artifacts (of_event e.event_id) b
          → b.goal_id ≡ goal_for ctx process_id)
      → on_memory_stored lower ends_with size_of ctx e x ≡ returned y
      → IsCoherent y
  on_memory_stored-IsCoherent y v same_goal h =
      let (category, known) = has_category y h in
      elim (Bool-cases (is_indexed category)) [
        | inl indexed ↦
            subst IsCoherent (returned-injective _ _ (sym (stored_as category known indexed) ∙ h))
              (store_for-IsCoherent category (process_id_from_event e) v same_goal)
        | inr other ↦
            subst IsCoherent (returned-injective _ _ (sym (ignored_as category known other) ∙ h)) v
      ]

  before : KnowledgeIndex
  before = forget_existing (Dict.get (of_event e.event_id) x.artifacts) (of_event e.event_id) x

  stored_given :
      (category : MemoryCategory) (process_id : ℕ)
      → (key_from_event e == "") ≡ false
      → store_for lower ends_with size_of ctx e category (some process_id) x
        ≡ add_artifact
            (artifact_of_event lower ends_with size_of ctx e category process_id (key_from_event e))
            before
  unfolding store_for before
  stored_given category process_id given = rw given refl

  still_listed :
      (goal_id : ℕ) (b : KnowledgeArtifact)
      → IsCoherent x
      → IsHeld x.artifacts (of_event e.event_id) b
      → b.goal_id ≡ some goal_id
      → Bag.has (of_event e.event_id) (ids_of goal_id before.by_goal) ≡ true
  unfolding before
  still_listed goal_id b v held goal =
      ap (λ d. Bag.has (of_event e.event_id) (ids_of goal_id d))
        ((forget_existing-keeps (Dict.get (of_event e.event_id) x.artifacts) (of_event e.event_id)
          x).1)
      ∙ v.listed (of_event e.event_id) b goal_id held goal

  stored_goal :
      (category : MemoryCategory) (process_id : ℕ) (c : KnowledgeArtifact) (goal_id : ℕ)
      → c ≡ artifact_of_event lower ends_with size_of ctx e category process_id (key_from_event e)
      → c.goal_id ≡ some goal_id
      → goal_for ctx process_id ≡ some goal_id
  unfolding artifact_of_event
  stored_goal category process_id c goal_id new goal =
      sym (ap (λ (k : KnowledgeArtifact). k.goal_id) new) ∙ goal

  -- In an index whose artifacts and lists agree, an event of an indexed category, with a process
  -- and a key, is delivered again after its process came to another goal: the list of the old goal
  -- still has its artifact, and so the artifacts and the lists no longer agree.
  pub on_memory_stored-stale :
      (category : MemoryCategory) (process_id old_goal : ℕ) (b : KnowledgeArtifact)
      (y : KnowledgeIndex)
      → category_from_event e ≡ returned category
      → is_indexed category ≡ true
      → process_id_from_event e ≡ some process_id
      → (key_from_event e == "") ≡ false
      → IsCoherent x
      → IsHeld x.artifacts (of_event e.event_id) b
      → b.goal_id ≡ some old_goal
      → goal_for ctx process_id ≢ some old_goal
      → on_memory_stored lower ends_with size_of ctx e x ≡ returned y
      → (Bag.has (of_event e.event_id) (ids_of old_goal y.by_goal) ≡ true) × ¬ (IsCoherent y)
  unfolding add_artifact Bag.has artifact_of_event
  on_memory_stored-stale category process_id old_goal b y known indexed by_process given v held goal
        moved h =
      let a =
        artifact_of_event lower ends_with size_of ctx e category process_id (key_from_event e) in
      let same =
        sym (stored_given category process_id given)
        ∙ ap (λ (o : Option ℕ). store_for lower ends_with size_of ctx e category o x)
            (sym by_process)
        ∙ returned-injective _ _ (sym (stored_as category known indexed) ∙ h) in
      let listed : Bag.has (of_event e.event_id) (ids_of old_goal y.by_goal) ≡ true =
        ap (λ (w : KnowledgeIndex). Bag.has (of_event e.event_id) (ids_of old_goal w.by_goal))
          (sym same)
        ∙ has-list_under a.goal_id old_goal (of_event e.event_id) (of_event e.event_id) _
        ∙ ground (arith, still_listed old_goal b v held goal) in
      (
        listed,
        λ w.
            let (c, held_c, goal_c) = w.filed old_goal (of_event e.event_id) listed in
            let new = some-injective c a (
              sym held_c
              ∙ ap (λ (u : KnowledgeIndex). Dict.get (of_event e.event_id) u.artifacts) (sym same)
              ∙ Dict.get-put (of_event e.event_id) (of_event e.event_id) a _
              ∙ (rw (==_refl (of_event e.event_id)) refl)) in
            moved (stored_goal category process_id c old_goal new goal_c),
      )
