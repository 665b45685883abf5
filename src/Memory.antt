-- ===== src/Memory.antt =====
-- emergence/memory/memory_manager.py over emergence/memory/memory_store.py. The ranking of `search` by
-- emergence/memory/vector_index.py is left out; the index is the documents that it holds.
mod Keys
pub mod Lookup
pub mod Snapshot
mod Examples
unfoldable pub use Keys.*
use emergence_os.Base.{
  ℕ, String, Bool, true, false, ◌||◌, ◌&&◌, Option, none, some, List, [], ◌∷◌, ◌++◌, if◌then◌else◌,
  ◌==◌, string_eq, nat_eq,
}
use emergence_os.Base.Dict
use emergence_os.Base.Dict.{Dict}
use emergence_os.Base.Value.{Value}

-- The events of emergence/events/memory_events.py.
pub data MemoryEvent : Type 0 where
  stored : (process_id : ℕ) (key : String) (category : MemoryCategory) (value : Value) → MemoryEvent
  retrieved deleted : (process_id : ℕ) (key : String) (category : MemoryCategory) → MemoryEvent

-- `entries` is the memory store, `index` holds the documents of the vector index, and `published` is
-- the log of the events, the oldest first.
pub record Memory : Type 0 where
  pub entries : Dict MemoryKey Value
  pub index : Dict MemoryKey Value
  pub published : List MemoryEvent

abbrev publish : MemoryEvent → Memory → Memory
publish e m = record m { published = m.published ++ e ∷ [] }

-- The categories that `store` adds to the index.
abbrev is_indexed : MemoryCategory → Bool
is_indexed working = false
is_indexed episodic = true
is_indexed semantic = true

-- `store.get(key, default)`
unfoldable pub get_or : Value → Option Value → Value
get_or default none = default
get_or default (some v) = v

-- A short key under one of the two prefixes of `working_snapshot`.
unfoldable pub is_working : (space : String) (process_id : ℕ) → MemoryKey → Bool
is_working space process_id k =
    same_category k.category working
    && k.process_id == process_id
    && (same_space k.space (some space) || same_space k.space none)

-- The loop of `working_snapshot`, which goes through the keys in the order of insertion.
unfoldable pub collect :
    (space : String) (process_id : ℕ) → Dict MemoryKey Value → Dict String Value → Dict String Value
unfolding is_working
collect space process_id [] result = result
collect space process_id ((k, v) ∷ more) result =
    collect space process_id more
      (if is_working space process_id k then Dict.put k.key v result else result)

-- `space_of` is the resolver that was bound, or the default space for every process.
module _ (space_of : (process_id : ℕ) → String) where
  -- `_scoped_key`
  abbrev pub scoped : (process_id : ℕ) → MemoryCategory → String → MemoryKey
  scoped process_id category key = record {
    space = some (space_of process_id);
    category = category;
    process_id = process_id;
    key = key;
  }

  -- The older layout, the second candidate of `_scoped_key_candidates`.
  abbrev pub legacy : (process_id : ℕ) → MemoryCategory → String → MemoryKey
  legacy process_id category key = record {
    space = none;
    category = category;
    process_id = process_id;
    key = key;
  }

  unfoldable pub store : (process_id : ℕ) → MemoryCategory → String → Value → Memory → Memory
  store process_id category key value m =
      let k = scoped process_id category key in
      publish (stored process_id key category value) (record m {
        entries = Dict.put k value m.entries;
        index = if is_indexed category then Dict.put k value m.index else m.index;
      })

  -- The loop over the candidates of `peek` and `retrieve`.
  unfoldable pub lookup :
      (process_id : ℕ) → MemoryCategory → String → (default : Value) → Memory → Value
  unfolding get_or
  lookup process_id category key default m =
      let new = scoped process_id category key in
      let old = legacy process_id category key in
      if Dict.has new m.entries
      then get_or default (Dict.get new m.entries)
      else if Dict.has old m.entries
      then get_or default (Dict.get old m.entries)
      else default

  unfoldable pub peek :
      (process_id : ℕ) → MemoryCategory → String → (default : Value) → Memory → Value
  unfolding lookup
  peek process_id category key default m = lookup process_id category key default m

  unfoldable pub retrieve :
      (process_id : ℕ) → MemoryCategory → String → (default : Value) → Memory → Value × Memory
  unfolding lookup
  retrieve process_id category key default m =
      (lookup process_id category key default m, publish (retrieved process_id key category) m)

  abbrev remove : MemoryKey → Memory → Memory
  remove k m = record m { entries = Dict.pop k m.entries; index = Dict.pop k m.index }

  unfoldable pub delete : (process_id : ℕ) → MemoryCategory → String → Memory → Memory
  delete process_id category key m =
      let new = scoped process_id category key in
      let old = legacy process_id category key in
      publish (deleted process_id key category) (
        if Dict.has new m.entries
        then remove new m
        else if Dict.has old m.entries
        then remove old m
        else m)

  unfoldable pub exists : (process_id : ℕ) → MemoryCategory → String → Memory → Bool
  exists process_id category key m =
      Dict.has (scoped process_id category key) m.entries
      || Dict.has (legacy process_id category key) m.entries

  unfoldable pub working_snapshot : (process_id : ℕ) → Memory → Dict String Value
  unfolding collect
  working_snapshot process_id m = collect (space_of process_id) process_id m.entries []
