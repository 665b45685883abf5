-- ===== src/Knowledge.antt =====
-- emergence/memory/knowledge_index.py: what is known of the memories of goals.
mod Display
pub mod Index
pub mod Changes
pub mod Reads
pub mod Coherence
pub mod Forgetting
pub mod Storing
pub mod Restored
pub mod Runs
mod Examples
unfoldable pub use Display.*
use emergence_os.Base.{
  ℕ, String, Bool, true, false, ◌||◌, ◌&&◌, ◌≡◌, ◌↔◌, Option, none, some, List, [], ◌∷◌, ◌++◌,
  arith, Hashable, nat_beq, if◌then◌else◌, ◌==◌, string_eq, nat_eq, Outcome, returned, raised,
  value_error, ◌>>=◌, length,
}
use emergence_os.Base.Dict
use emergence_os.Base.Dict.{Dict}
use emergence_os.Base.Text.{occurs_in}
use emergence_os.Base.Value.{Value}
use emergence_os.Goals.{GoalRegistry, GoalRecord, goal_for_process}
use emergence_os.Memory.{
  Memory, MemoryCategory, working, episodic, semantic, MemoryKey, same_key, same_key_iff,
}
use emergence_os.Process.{Process}
use emergence_os.Registries.ProcessTable.{ProcessTable}

pub data ArtifactType : Type 0 where
  document summary report embedding dataset finding : ArtifactType

-- The id of an event, or of a key of the memory after `memory:`.
pub data ArtifactKey : Type 0 where
  of_event : ℕ → ArtifactKey
  of_memory : MemoryKey → ArtifactKey

abbrev pub same_artifact_key : ArtifactKey → ArtifactKey → Bool
same_artifact_key (of_event a) (of_event b) = nat_beq a b
same_artifact_key (of_memory a) (of_memory b) = same_key a b
same_artifact_key _ _ = false

pub same_artifact_key_iff : (a b : ArtifactKey) → (same_artifact_key a b ≡ true) ↔ (a ≡ b)
same_artifact_key_iff (of_event a) (of_event b) = ground (arith, nat_eq.same_iff a b)
same_artifact_key_iff (of_memory a) (of_memory b) = ground (arith, same_key_iff a b)
same_artifact_key_iff (of_event a) (of_memory b) = ground arith
same_artifact_key_iff (of_memory a) (of_event b) = ground arith

instance abbrev pub artifact_key_eq : Hashable ArtifactKey
artifact_key_eq = record { same = same_artifact_key; same_iff = same_artifact_key_iff }

pub record KnowledgeArtifact : Type 0 where
  pub artifact_id : ArtifactKey
  pub goal_id : Option ℕ
  pub artifact_type : ArtifactType
  pub key : String
  pub category : MemoryCategory
  pub process_id : ℕ
  pub plugin : Option String
  pub size_bytes : ℕ
  pub stored_at : ℕ
  pub event_id : ℕ
  pub correlation_id : Option ℕ
  pub causation_id : Option ℕ
  pub space_id : String

-- `by_goal` has the entries of `_by_goal` under texts, and `by_goal_object` those under a `GoalID`,
-- which is equal to no text.
pub record KnowledgeIndex : Type 0 where
  pub artifacts : Dict ArtifactKey KnowledgeArtifact
  pub by_goal : Dict ℕ (List ArtifactKey)
  pub by_goal_object : Dict ℕ (List ArtifactKey)

abbrev pub new_index : KnowledgeIndex
new_index = record { artifacts = []; by_goal = []; by_goal_object = [] }

-- The parts of the kernel context that the index asks, once it is bound.
pub record Context : Type 0 where
  pub goals : GoalRegistry
  pub process_table : ProcessTable
  pub memory : Memory

-- What a `defaultdict(list)` holds under a goal.
unfoldable pub ids_of : (goal_id : ℕ) → Dict ℕ (List ArtifactKey) → List ArtifactKey
ids_of goal_id d = or_empty (Dict.get goal_id d)
  where
    or_empty : Option (List ArtifactKey) → List ArtifactKey
    or_empty none = []
    or_empty (some ids) = ids

-- `_INDEXED_CATEGORIES`
abbrev pub is_indexed : MemoryCategory → Bool
is_indexed working = false
is_indexed episodic = true
is_indexed semantic = true

-- `lower` is `str.lower`, and `ends_with` is `str.endswith`.
unfoldable pub infer_artifact_type :
    (lower : String → String) (ends_with : String → String → Bool) (key : String)
    → MemoryCategory
    → ArtifactType
unfolding occurs_in
infer_artifact_type lower ends_with key category =
    let normalized = lower key in
    if occurs_in "report" normalized
    then report
    else if normalized == "findings" || normalized == "finding" || occurs_in "finding" normalized
    then finding
    else if occurs_in "summary" normalized || occurs_in "evaluation" normalized
    then summary
    else if occurs_in "embedding" normalized || occurs_in "vector" normalized
    then embedding
    else if occurs_in "dataset" normalized || ends_with normalized "_data"
    then dataset
    else by_category category
  where
    by_category : MemoryCategory → ArtifactType
    by_category episodic = finding
    by_category _ = document

-- `_goal_for_process`
unfoldable pub goal_for : Option Context → (process_id : ℕ) → Option ℕ
goal_for none process_id = none
goal_for (some ctx) process_id = goal_for_process process_id ctx.goals

space_of_record : Option GoalRecord → String
space_of_record none = "default"
space_of_record (some r) = r.space_id

-- `_space_for_goal`
unfoldable pub space_for_goal : Option Context → Option ℕ → String
unfolding space_of_record
space_for_goal ctx none = "default"
space_for_goal none (some goal_id) = "default"
space_for_goal (some ctx) (some goal_id) = space_of_record (Dict.get goal_id ctx.goals.records)

definition_name : Option Process → Option String
definition_name none = none
definition_name (some p) = some p.definition.name

-- `_plugin_for_process`
unfoldable pub plugin_for : Option Context → (process_id : ℕ) → Option String
unfolding definition_name
plugin_for none process_id = none
plugin_for (some ctx) process_id = definition_name (Dict.get process_id ctx.process_table)
