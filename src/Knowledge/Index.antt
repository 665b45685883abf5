-- ===== src/Knowledge/Index.antt =====
-- emergence/memory/knowledge_index.py: events about memories, and the steps that the
-- operations share.
use emergence_os.Base.{
  ℕ, String, Bool, ◌&&◌, Option, none, some, List, [], ◌∷◌, ◌++◌, if◌then◌else◌, ◌==◌, nat_eq,
  string_eq, Outcome, returned, raised, value_error,
}
use emergence_os.Base.Bag
use emergence_os.Base.Dict
use emergence_os.Base.Dict.{Dict}
use emergence_os.Base.Text.{occurs_in}
use emergence_os.Base.Value.{Value}
use emergence_os.Memory.{MemoryCategory, working, episodic, semantic, same_category, MemoryKey}
use emergence_os.Knowledge.{ArtifactKey, artifact_key_eq, KnowledgeArtifact, KnowledgeIndex, ids_of}

-- An event about a memory, as the handlers read it: the attributes that it may have, and the
-- entries of its payload. An id's text is the id.
pub record MemoryNotice : Type 0 where
  pub event_id : ℕ
  pub category : Option MemoryCategory
  pub process_id : Option ℕ
  pub key : String
  pub payload_category : Option String
  pub payload_process_id : Option ℕ
  pub payload_key : String
  pub payload_value : Option Value
  pub source_process : Option ℕ
  pub timestamp : ℕ
  pub correlation_id : Option ℕ
  pub causation_id : Option ℕ

-- `MemoryCategory(text)`
unfoldable pub category_from : String → Outcome MemoryCategory
category_from name =
    if name == "working"
    then returned working
    else if name == "episodic"
    then returned episodic
    else if name == "semantic"
    then returned semantic
    else raised value_error

given_category : Option String → Outcome MemoryCategory
unfolding category_from
given_category none = returned working
given_category (some name) = category_from name

-- `_category_from_event`
unfoldable pub category_from_event : MemoryNotice → Outcome MemoryCategory
unfolding given_category
category_from_event e = by_attribute e.category
  where
    by_attribute : Option MemoryCategory → Outcome MemoryCategory
    by_attribute none = given_category e.payload_category
    by_attribute (some category) = returned category

abbrev or_else : Option ℕ → Option ℕ → Option ℕ
or_else none b = b
or_else (some a) b = some a

-- `_process_id_from_event`
unfoldable pub process_id_from_event : MemoryNotice → Option ℕ
process_id_from_event e = or_else e.process_id (or_else e.payload_process_id e.source_process)

-- The key of the event, or else that of its payload.
unfoldable pub key_from_event : MemoryNotice → String
key_from_event e = if e.key == "" then e.payload_key else e.key

-- The artifact is about the memory of a process under a key.
unfoldable pub is_about :
    (process_id : ℕ) → (key : String) → MemoryCategory → KnowledgeArtifact → Bool
is_about process_id key category a =
    (a.process_id == process_id) && (a.key == key) && same_category a.category category

-- `_by_goal` with one more id of a goal.
unfoldable pub list_under :
    Option ℕ → ArtifactKey → Dict ℕ (List ArtifactKey) → Dict ℕ (List ArtifactKey)
unfolding ids_of
list_under none id d = d
list_under (some goal_id) id d =
    let ids = ids_of goal_id d in
    Dict.put goal_id (if Bag.has id ids then ids else ids ++ id ∷ []) d

-- The artifact joins `_artifacts` and the list of its goal.
unfoldable pub add_artifact : KnowledgeArtifact → KnowledgeIndex → KnowledgeIndex
unfolding list_under
add_artifact a x = record x {
  artifacts = Dict.put a.artifact_id a x.artifacts;
  by_goal = list_under a.goal_id a.artifact_id x.by_goal;
}

-- `self._by_goal[existing.goal_id]`, whose key is a `GoalID`.
forget_object : Option ℕ → ArtifactKey → KnowledgeIndex → KnowledgeIndex
unfolding ids_of
forget_object none id x = x
forget_object (some goal_id) id x = record x {
  by_goal_object =
      Dict.put goal_id (Bag.remove id (ids_of goal_id x.by_goal_object)) x.by_goal_object;
}

-- The id leaves the list of the artifact that is held under it.
unfoldable pub forget_existing :
    Option KnowledgeArtifact → ArtifactKey → KnowledgeIndex → KnowledgeIndex
unfolding forget_object
forget_existing none id x = x
forget_existing (some a) id x = forget_object a.goal_id id x

-- An entry of the memory as `parse_scoped_memory_key` takes its key apart. The text of a key of
-- the older layout has four parts when the short key has a colon, and is no key then.
unfoldable pub parse_scoped_memory_key : MemoryKey → Option (String × MemoryCategory × ℕ × String)
unfolding occurs_in
parse_scoped_memory_key k = by_space k.space
  where
    by_space : Option String → Option (String × MemoryCategory × ℕ × String)
    by_space (some space_id) = some (space_id, k.category, k.process_id, k.key)
    by_space none =
        if occurs_in ":" k.key then none else some ("default", k.category, k.process_id, k.key)

-- `_find_artifact`
unfoldable pub find_artifact :
    (process_id : ℕ)
    → (key : String) → MemoryCategory
    → List KnowledgeArtifact
    → Option KnowledgeArtifact
unfolding is_about
find_artifact process_id key category [] = none
find_artifact process_id key category (a ∷ artifacts) =
    let rest = find_artifact process_id key category artifacts in
    if is_about process_id key category a then some a else rest
