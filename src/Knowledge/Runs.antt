-- ===== src/Knowledge/Runs.antt =====
-- emergence/memory/knowledge_index.py: runs of both handlers.
use emergence_os.Base.{
  ℕ, String, Bool, true, false, Option, none, some, some-injective, List, [], ◌∷◌, ◌≡◌, refl, sym,
  ap, subst, ◌∙◌, inl, inr, if◌then◌else◌, ◌==◌, string_eq, Bool-cases, arith, All, Outcome,
  returned, returned-injective, ◌>>=◌, >>=-eq-returned,
}
use emergence_os.Base.Dict
use emergence_os.Base.Dict.{Dict}
use emergence_os.Base.Value.{Value}
use emergence_os.Memory.{MemoryCategory}
use emergence_os.Knowledge.{
  ArtifactKey, of_event, artifact_key_eq, KnowledgeArtifact, KnowledgeIndex, Context, new_index,
  is_indexed, goal_for,
}
use emergence_os.Knowledge.Index.{
  MemoryNotice, category_from_event, process_id_from_event, key_from_event, add_artifact,
}
use emergence_os.Knowledge.Changes.{
  artifact_of_event, store_for, on_memory_stored, on_memory_deleted,
}
use emergence_os.Knowledge.Coherence.{IsHeld, IsCoherent, IsHeld-put, new_index-IsCoherent}
use emergence_os.Knowledge.Storing.{
  forget_existing-keeps, stored_as, ignored_as, has_category, on_memory_stored-IsCoherent,
}
use emergence_os.Knowledge.Forgetting.{is_forgotten, on_memory_deleted-IsCoherent}

-- The events that the index is subscribed to.
pub data Delivery : Type 0 where
  stored deleted : MemoryNotice → Delivery

abbrev pub notice_of : Delivery → MemoryNotice
notice_of (stored e) = e
notice_of (deleted e) = e

-- `owner` gives the process of an event by its id.
abbrev pub IsOwnedBy : (owner : ℕ → Option ℕ) → Delivery → Type 0
IsOwnedBy owner d = process_id_from_event (notice_of d) ≡ owner (notice_of d).event_id

-- The artifacts of events have the goals of the events' processes.
record IsFaithful (ctx : Option Context) (owner : ℕ → Option ℕ) (x : KnowledgeIndex) : Type 0 where
  coherent : IsCoherent x
  goals :
      (n : ℕ) (b : KnowledgeArtifact)
      → IsHeld x.artifacts (of_event n) b
      → (p : ℕ) × (owner n ≡ some p) × (b.goal_id ≡ goal_for ctx p)

has_deleted_category :
    (e : MemoryNotice) (x y : KnowledgeIndex)
    → on_memory_deleted e x ≡ returned y
    → (category : MemoryCategory) × (category_from_event e ≡ returned category)
unfolding on_memory_deleted
has_deleted_category e x y h =
    let (category, known, rest) = >>=-eq-returned (category_from_event e) _ h in (category, known)

deleted_nothing :
    (e : MemoryNotice) (x : KnowledgeIndex) (category : MemoryCategory)
    → category_from_event e ≡ returned category
    → is_indexed category ≡ false
    → on_memory_deleted e x ≡ returned x
unfolding on_memory_deleted
deleted_nothing e x category known other = rw known rw other refl

still_held :
    (forgotten : Bool) (o : Option KnowledgeArtifact) (b : KnowledgeArtifact)
    → (if forgotten then none else o) ≡ some b
    → o ≡ some b
still_held true o b h = absurd (ground (arith, h))
still_held false o b h = h

module _ (lower : String → String) (ends_with : String → String → Bool) (size_of : Value → ℕ)
    (ctx : Option Context) where
  handle_one : Delivery → KnowledgeIndex → Outcome KnowledgeIndex
  handle_one (stored e) x = on_memory_stored lower ends_with size_of ctx e x
  handle_one (deleted e) x = on_memory_deleted e x

  unfoldable pub handle_all : List Delivery → KnowledgeIndex → Outcome KnowledgeIndex
  unfolding handle_one
  handle_all [] x = returned x
  handle_all (d ∷ deliveries) x = handle_one d x >>= λ y. handle_all deliveries y

  module _ (e : MemoryNotice) (category : MemoryCategory) (process_id : ℕ)
      (x : KnowledgeIndex) where
    of_notice : KnowledgeArtifact
    of_notice =
        artifact_of_event lower ends_with size_of ctx e category process_id (key_from_event e)

    blank_artifacts :
        (key_from_event e == "") ≡ true
        → (store_for lower ends_with size_of ctx e category (some process_id) x).artifacts
          ≡ x.artifacts
    unfolding store_for
    blank_artifacts blank = rw blank refl

    given_artifacts :
        (key_from_event e == "") ≡ false
        → (store_for lower ends_with size_of ctx e category (some process_id) x).artifacts
          ≡ Dict.put (of_event e.event_id) of_notice x.artifacts
    unfolding store_for add_artifact artifact_of_event of_notice
    given_artifacts given = rw given (
        ap (λ (d : Dict ArtifactKey KnowledgeArtifact). Dict.put (of_event e.event_id) of_notice d)
          ((forget_existing-keeps (Dict.get (of_event e.event_id) x.artifacts) (of_event e.event_id)
            x).0))

    goal_of_notice : (b : KnowledgeArtifact) → b ≡ of_notice → b.goal_id ≡ goal_for ctx process_id
    unfolding of_notice artifact_of_event
    goal_of_notice b same = ap (λ (a : KnowledgeArtifact). a.goal_id) same

  of_event-injective : (m n : ℕ) → of_event m ≡ of_event n → m ≡ n
  of_event-injective m n h = cc

  module _ (owner : ℕ → Option ℕ) where
    goals_stored :
        (e : MemoryNotice) (category : MemoryCategory) (o : Option ℕ) (x : KnowledgeIndex)
        → o ≡ owner e.event_id
        → IsFaithful ctx owner x
        → (n : ℕ) (b : KnowledgeArtifact)
        → IsHeld (store_for lower ends_with size_of ctx e category o x).artifacts (of_event n) b
        → (p : ℕ) × (owner n ≡ some p) × (b.goal_id ≡ goal_for ctx p)
    unfolding store_for
    goals_stored e category none x same v n b held = v.goals n b held
    goals_stored e category (some process_id) x same v n b held =
        elim (Bool-cases (key_from_event e == "")) [
          | inl blank ↦ v.goals n b (
              subst (λ (d : Dict ArtifactKey KnowledgeArtifact). IsHeld d (of_event n) b)
                (blank_artifacts e category process_id x blank) held)
          | inr given ↦
              elim (IsHeld-put (of_event e.event_id) (of_event n)
                (of_notice e category process_id x) b x.artifacts
                (subst (λ (d : Dict ArtifactKey KnowledgeArtifact). IsHeld d (of_event n) b)
                  (given_artifacts e category process_id x given) held)) [
                    | inl (p, q) ↦ (
                      process_id,
                      ap owner (of_event-injective n e.event_id p) ∙ sym same,
                      goal_of_notice e category process_id x b q,
                    )
                    | inr (other, old) ↦ v.goals n b old
                  ]
        ]

    stored-IsFaithful :
        (e : MemoryNotice) (x y : KnowledgeIndex)
        → process_id_from_event e ≡ owner e.event_id
        → IsFaithful ctx owner x
        → on_memory_stored lower ends_with size_of ctx e x ≡ returned y
        → IsFaithful ctx owner y
    stored-IsFaithful e x y same v h = record {
      coherent =
          on_memory_stored-IsCoherent lower ends_with size_of ctx e x y v.coherent
            (λ process_id b known held.
              let (p, by_owner, goal) = v.goals e.event_id b held in
              goal
              ∙ ap (goal_for ctx) (some-injective p process_id (sym by_owner ∙ sym same ∙ known)))
            h;
      goals =
          let (category, known) = has_category lower ends_with size_of ctx e x y h in
          elim (Bool-cases (is_indexed category)) [
            | inl indexed ↦
                let to_y =
                  returned-injective _ _
                    (sym (stored_as lower ends_with size_of ctx e x category known indexed) ∙ h) in
                λ n b held. goals_stored e category (process_id_from_event e) x same v n b (
                  subst (λ (z : KnowledgeIndex). IsHeld z.artifacts (of_event n) b) (sym to_y) held)
            | inr other ↦
                let to_y =
                  returned-injective _ _
                    (sym (ignored_as lower ends_with size_of ctx e x category known other) ∙ h) in
                λ n b held. v.goals n b (
                  subst (λ (z : KnowledgeIndex). IsHeld z.artifacts (of_event n) b) (sym to_y) held)
          ];
    }

    deleted-IsFaithful :
        (e : MemoryNotice) (x y : KnowledgeIndex)
        → IsFaithful ctx owner x
        → on_memory_deleted e x ≡ returned y
        → IsFaithful ctx owner y
    deleted-IsFaithful e x y v h =
        let (category, known) = has_deleted_category e x y h in
        elim (Bool-cases (is_indexed category)) [
          | inl indexed ↦
              let (coherent, left) =
                on_memory_deleted-IsCoherent e x y category v.coherent known indexed h in
              record {
                coherent = coherent;
                goals = λ n b held. v.goals n b (
                    still_held (is_forgotten e category (Dict.get (of_event n) x.artifacts)) _ b
                      (sym (left (of_event n)) ∙ held));
              }
          | inr other ↦
              subst (IsFaithful ctx owner)
                (returned-injective _ _ (sym (deleted_nothing e x category known other) ∙ h)) v
        ]

    new_index-IsFaithful : IsFaithful ctx owner new_index
    unfolding Dict.get
    new_index-IsFaithful = record {
      coherent = new_index-IsCoherent;
      goals = λ n b held. absurd (ground (arith, held));
    }

    run-IsFaithful :
        (deliveries : List Delivery) (x y : KnowledgeIndex)
        → All (IsOwnedBy owner) deliveries
        → IsFaithful ctx owner x
        → handle_all deliveries x ≡ returned y
        → IsFaithful ctx owner y
    unfolding handle_all handle_one
    run-IsFaithful [] x y o v h = subst (IsFaithful ctx owner) (returned-injective _ _ h) v
    run-IsFaithful (stored e ∷ deliveries) x y o v h =
        let (z, first, rest) =
          >>=-eq-returned (on_memory_stored lower ends_with size_of ctx e x) _ h in
        run-IsFaithful deliveries z y o.1 (stored-IsFaithful e x z o.0 v first) rest
    run-IsFaithful (deleted e ∷ deliveries) x y o v h =
        let (z, first, rest) = >>=-eq-returned (on_memory_deleted e x) _ h in
        run-IsFaithful deliveries z y o.1 (deleted-IsFaithful e x z v first) rest

    -- From the empty index, any events about memories that are stored and deleted, in any order and
    -- any number of times, leave the artifacts and the lists of the goals in agreement, when the
    -- kernel is the same throughout and events with one id are of one process.
    pub handle_all-IsCoherent :
        (deliveries : List Delivery) (y : KnowledgeIndex)
        → All (IsOwnedBy owner) deliveries
        → handle_all deliveries new_index ≡ returned y
        → IsCoherent y
    handle_all-IsCoherent deliveries y o h =
        (run-IsFaithful deliveries new_index y o new_index-IsFaithful h).coherent
