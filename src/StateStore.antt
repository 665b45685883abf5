-- ===== src/StateStore.antt =====
-- emergence/kernel/state_store.py. An operation returns the new store and the calls that it makes
-- on the way out, in their order: events for the bus, and watchers. A watcher is known by a number.
pub mod Laws
use emergence_os.Base.{
  ℕ, String, Bool, Option, none, some, List, [], ◌∷◌, ◌++◌, map, if◌then◌else◌, ◌==◌, string_eq,
  nat_eq,
}
use emergence_os.Base.Bag
use emergence_os.Base.Dict
use emergence_os.Base.Dict.{Dict}
use emergence_os.Base.Value.{Value, py_equal}

pub record StateStore : Type 0 where
  pub state : Dict String Value
  pub watchers : Dict String (List ℕ)

-- The events of emergence/events/state_*_event.py, before the bus stamps them.
pub data StateEvent : Type 0 where
  created : (key : String) (value : Value) → StateEvent
  changed : (key : String) (old_value new_value : Value) → StateEvent
  deleted : (key : String) (old_value : Value) → StateEvent

pub data Effect : Type 0 where
  published : StateEvent → Effect
  called : (callback : ℕ) (key : String) (value : Value) → Effect

-- The constructor.
abbrev pub new_store : StateStore
new_store = record { state = []; watchers = [] }

or_default : Value → Option Value → Value
or_default default none = default
or_default default (some v) = v

unfoldable pub get : String → (default : Value) → StateStore → Value
unfolding or_default
get key default s = or_default default (Dict.get key s.state)

unfoldable pub or_none : Option (List ℕ) → List ℕ
or_none none = []
or_none (some callbacks) = callbacks

-- The loop over `self._watchers.get(key, [])`.
unfoldable pub notify : String → Value → StateStore → List Effect
unfolding or_none
notify key value s = map (λ callback. called callback key value) (or_none (Dict.get key s.watchers))

abbrev pub with_state : String → Value → StateStore → StateStore
with_state key value s = record s { state = Dict.put key value s.state }

-- `set`, by what the key held.
unfoldable pub set_over : Option Value → String → Value → StateStore → StateStore × List Effect
unfolding notify
set_over none key value s =
    let s' = with_state key value s in (s', published (created key value) ∷ notify key value s')
set_over (some old) key value s =
    let s' = with_state key value s in
    if py_equal old value
    then (s, [])
    else (s', published (changed key old value) ∷ notify key value s')

unfoldable pub set : String → Value → StateStore → StateStore × List Effect
unfolding set_over
set key value s = set_over (Dict.get key s.state) key value s

unfoldable pub delete_over : Option Value → String → StateStore → StateStore × List Effect
delete_over none key s = (s, [])
delete_over (some old) key s = (
  record { state = Dict.pop key s.state; watchers = Dict.pop key s.watchers },
  published (deleted key old) ∷ [],
)

unfoldable pub delete : String → StateStore → StateStore × List Effect
unfolding delete_over
delete key s = delete_over (Dict.get key s.state) key s

unfoldable pub exists : String → StateStore → Bool
exists key s = Dict.has key s.state

unfoldable pub keys : StateStore → List String
keys s = Dict.keys s.state

unfoldable pub clear : StateStore → StateStore
clear s = record s { state = [] }

abbrev pub snapshot : StateStore → Dict String Value
snapshot s = s.state

unfoldable pub watch : String → ℕ → StateStore → StateStore
unfolding or_none
watch key callback s = record s {
  watchers = Dict.put key (or_none (Dict.get key s.watchers) ++ callback ∷ []) s.watchers;
}

put_or_drop : String → List ℕ → StateStore → StateStore
put_or_drop key [] s = record s { watchers = Dict.pop key s.watchers }
put_or_drop key (c ∷ callbacks) s = record s { watchers = Dict.put key (c ∷ callbacks) s.watchers }

unwatch_from : Option (List ℕ) → String → ℕ → StateStore → StateStore
unfolding put_or_drop
unwatch_from none key callback s = s
unwatch_from (some callbacks) key callback s =
    put_or_drop key
      (if Bag.has callback callbacks then Bag.remove callback callbacks else callbacks) s

unfoldable pub unwatch : String → ℕ → StateStore → StateStore
unfolding unwatch_from
unwatch key callback s = unwatch_from (Dict.get key s.watchers) key callback s
