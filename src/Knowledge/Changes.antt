-- ===== src/Knowledge/Changes.antt =====
-- emergence/memory/knowledge_index.py: the operations that change the index.
use emergence_os.Base.{
  ℕ, String, Bool, false, not, Option, none, some, List, [], ◌∷◌, select, if◌then◌else◌, ◌==◌,
  is_some, nat_eq, string_eq, Outcome, returned, ◌>>=◌,
}
use emergence_os.Base.Bag
use emergence_os.Base.Dict
use emergence_os.Base.Dict.{Dict}
use emergence_os.Base.Value.{Value, none_value}
use emergence_os.Memory.{MemoryCategory, MemoryKey}
use emergence_os.Knowledge.{
  ArtifactKey, of_event, of_memory, artifact_key_eq, KnowledgeArtifact, KnowledgeIndex, Context,
  ids_of, is_indexed, infer_artifact_type, goal_for, space_for_goal, plugin_for,
}
-- An event about a memory, as the handlers read it: the attributes that it may have, and the
-- entries of its payload. An id's text is the id.
use emergence_os.Knowledge.Index.{
  MemoryNotice, category_from_event, process_id_from_event, key_from_event, add_artifact,
  forget_existing, is_about, parse_scoped_memory_key, find_artifact,
}

-- `size_of` is the number of bytes of a value's text in UTF-8.
module _ (lower : String → String) (ends_with : String → String → Bool) (size_of : Value → ℕ) where
  size_of_given : Option Value → ℕ
  size_of_given none = 0
  size_of_given (some none_value) = 0
  size_of_given (some v) = size_of v

  -- The artifact of an event that the handler accepts.
  unfoldable pub artifact_of_event :
      Option Context
      → MemoryNotice
      → MemoryCategory
      → (process_id : ℕ) → (key : String) → KnowledgeArtifact
  unfolding size_of_given infer_artifact_type goal_for plugin_for space_for_goal
  artifact_of_event ctx e category process_id key = record {
    artifact_id = of_event e.event_id;
    goal_id = goal_for ctx process_id;
    artifact_type = infer_artifact_type lower ends_with key category;
    key = key;
    category = category;
    process_id = process_id;
    plugin = plugin_for ctx process_id;
    size_bytes = size_of_given e.payload_value;
    stored_at = e.timestamp;
    event_id = e.event_id;
    correlation_id = e.correlation_id;
    causation_id = e.causation_id;
    space_id = space_for_goal ctx (goal_for ctx process_id);
  }

  -- `_on_memory_stored` after the test of the category.
  unfoldable pub store_for :
      Option Context → MemoryNotice → MemoryCategory → Option ℕ → KnowledgeIndex → KnowledgeIndex
  unfolding key_from_event artifact_of_event add_artifact forget_existing
  store_for ctx e category none x = x
  store_for ctx e category (some process_id) x =
      let key = key_from_event e in
      let id = of_event e.event_id in
      if key == ""
      then x
      else add_artifact (artifact_of_event ctx e category process_id key)
          (forget_existing (Dict.get id x.artifacts) id x)

  unfoldable pub on_memory_stored :
      Option Context → MemoryNotice → KnowledgeIndex → Outcome KnowledgeIndex
  unfolding category_from_event process_id_from_event store_for
  on_memory_stored ctx e x = category_from_event e >>= λ category.
      returned
        (if is_indexed category then store_for ctx e category (process_id_from_event e) x else x)

  stored_all : Option Context → List MemoryNotice → KnowledgeIndex → Outcome KnowledgeIndex
  unfolding on_memory_stored
  stored_all ctx [] x = returned x
  stored_all ctx (e ∷ events) x = on_memory_stored ctx e x >>= λ y. stored_all ctx events y

  -- `events` are those of the store whose type is `memory_stored`.
  unfoldable pub rebuild_from_event_store :
      Option Context → (events : List MemoryNotice) → Outcome KnowledgeIndex
  unfolding stored_all
  rebuild_from_event_store ctx events =
      stored_all ctx events (record { artifacts = []; by_goal = []; by_goal_object = [] })

  -- The artifact of an entry of the memory that the index lacks.
  unfoldable pub artifact_of_memory :
      Context
      → (now event_id : ℕ) → MemoryKey
      → Value
      → (space_id : String) → MemoryCategory
      → (process_id : ℕ) → (key : String) → KnowledgeArtifact
  unfolding size_of_given infer_artifact_type goal_for plugin_for
  artifact_of_memory ctx now event_id k value space_id category process_id key = record {
    artifact_id = of_memory k;
    goal_id = goal_for (some ctx) process_id;
    artifact_type = infer_artifact_type lower ends_with key category;
    key = key;
    category = category;
    process_id = process_id;
    plugin = plugin_for (some ctx) process_id;
    size_bytes = size_of_given (some value);
    stored_at = now;
    event_id = event_id;
    correlation_id = none;
    causation_id = none;
    space_id = space_id;
  }

  -- The body of the loop of `reconcile_from_memory`.
  reconcile_entry :
      Context
      → (now event_id : ℕ) → MemoryKey
      → Value
      → Option (String × MemoryCategory × ℕ × String)
      → KnowledgeIndex
      → KnowledgeIndex
  unfolding find_artifact artifact_of_memory add_artifact
  reconcile_entry ctx now event_id k value none x = x
  reconcile_entry ctx now event_id k value (some (space_id, category, process_id, key)) x =
      if not (is_indexed category)
      then x
      else if is_some (find_artifact process_id key category (Dict.values x.artifacts))
      then x
      else add_artifact
          (artifact_of_memory ctx now event_id k value space_id category process_id key) x

  -- `new_id` draws the id of the event that stands for the entry.
  reconcile_entries :
      Context
      → (now : ℕ) → (new_id : MemoryKey → ℕ) → Dict MemoryKey Value
      → KnowledgeIndex
      → KnowledgeIndex
  unfolding reconcile_entry parse_scoped_memory_key
  reconcile_entries ctx now new_id [] x = x
  reconcile_entries ctx now new_id ((k, value) ∷ entries) x =
      reconcile_entries ctx now new_id entries
        (reconcile_entry ctx now (new_id k) k value (parse_scoped_memory_key k) x)

  unfoldable pub reconcile_from_memory :
      Option Context → (now : ℕ) → (new_id : MemoryKey → ℕ) → KnowledgeIndex → KnowledgeIndex
  unfolding reconcile_entries
  reconcile_from_memory none now new_id x = x
  reconcile_from_memory (some ctx) now new_id x =
      reconcile_entries ctx now new_id ctx.memory.entries x

-- `_by_goal` without an id of a goal.
unfoldable pub forget_listed :
    Option ℕ → ArtifactKey → Dict ℕ (List ArtifactKey) → Dict ℕ (List ArtifactKey)
unfolding ids_of
forget_listed none id d = d
forget_listed (some goal_id) id d = Dict.put goal_id (Bag.remove id (ids_of goal_id d)) d

-- The loop of `_on_memory_deleted`.
unfoldable pub drop_all : List KnowledgeArtifact → KnowledgeIndex → KnowledgeIndex
unfolding forget_listed
drop_all [] x = x
drop_all (a ∷ matches) x = drop_all matches (record x {
  artifacts = Dict.pop a.artifact_id x.artifacts;
  by_goal = forget_listed a.goal_id a.artifact_id x.by_goal;
})

-- The artifact is about the memory that the event names. An event without a process names none.
unfoldable pub is_named_by : MemoryNotice → MemoryCategory → Option ℕ → KnowledgeArtifact → Bool
unfolding is_about key_from_event
is_named_by e category none a = false
is_named_by e category (some process_id) a = is_about process_id (key_from_event e) category a

unfoldable pub on_memory_deleted : MemoryNotice → KnowledgeIndex → Outcome KnowledgeIndex
unfolding category_from_event is_named_by process_id_from_event drop_all
on_memory_deleted e x = category_from_event e >>= λ category. returned (
    if is_indexed category
    then drop_all
        (select (is_named_by e category (process_id_from_event e)) (Dict.values x.artifacts)) x
    else x)
