-- ===== src/Replay/Rebuild.antt =====
-- The event log of the state store (emergence/kernel/state_store.py), replayed by
-- emergence/events/replay.py, against the store that wrote it.
use emergence_os.Base.{
  ℕ, ◌+◌, String, ◌≡◌, refl, ap, ◌∙◌, true, false, Option, none, some, List, [], ◌∷◌, ◌++◌, All,
  map, if◌then◌else◌, string_eq, ==_refl, Bool-cases, inl, inr, select,
}
use emergence_os.Base.Dict
use emergence_os.Base.Dict.{Dict}
use emergence_os.Base.Value.{Value, none_value, text, truthy, py_equal}
use emergence_os.Event.{Event, Stamp, state_created_event, state_changed_event, state_deleted_event}
use emergence_os.StateStore.{
  StateStore, StateEvent, created, changed, deleted, Effect, published, called, new_store, set,
  set_over, delete, delete_over, notify, or_none,
}
use emergence_os.Replay.{ReplaySnapshot, new_snapshot, apply, replay_onto, replay}

module _ (stamp : StateEvent → Stamp) where
  -- The event that the bus gets.
  abbrev pub event_of : StateEvent → Event
  event_of (created key value) = state_created_event key value (stamp (created key value))
  event_of (changed key old new) = state_changed_event key old new (stamp (changed key old new))
  event_of (deleted key old) = state_deleted_event key old (stamp (deleted key old))

  -- The events among the calls that an operation makes.
  abbrev pub events_of : List Effect → List Event
  events_of [] = []
  events_of (published e ∷ effects) = event_of e ∷ events_of effects
  events_of (called callback key value ∷ effects) = events_of effects

  events_of-notify :
      (key : String) (value : Value) (s : StateStore) → events_of (notify key value s) ≡ []
  unfolding notify
  events_of-notify key value s = only_calls (or_none (Dict.get key s.watchers))
    where
      only_calls : (l : List ℕ) → events_of (map (λ callback. called callback key value) l) ≡ []
      only_calls [] = refl
      only_calls (c ∷ l) = only_calls l

  -- The snapshot holds what the store holds.
  abbrev Agrees : ReplaySnapshot → StateStore → Type 0
  Agrees r s = (k : String) → Dict.get k r.state ≡ Dict.get k s.state

  apply_created :
      (k : String) (v : Value) (r : ReplaySnapshot)
      → truthy (text k) ≡ true
      → (apply (event_of (created k v)) r).state
        ≡ Dict.put k (if truthy v then v else none_value) r.state
  unfolding apply Dict.get state_created_event
  apply_created k v r h = elim (Bool-cases (truthy v)) [
    | inl t ↦ rw (h, t) refl
    | inr f ↦ rw (h, f) refl
  ]

  apply_changed :
      (k : String) (old v : Value) (r : ReplaySnapshot)
      → truthy (text k) ≡ true
      → (apply (event_of (changed k old v)) r).state
        ≡ Dict.put k (if truthy v then v else none_value) r.state
  unfolding apply Dict.get state_changed_event
  apply_changed k old v r h = elim (Bool-cases (truthy v)) [
    | inl t ↦ rw (h, t) refl
    | inr f ↦ rw (h, f) refl
  ]

  apply_deleted :
      (k : String) (old : Value) (r : ReplaySnapshot)
      → truthy (text k) ≡ true
      → (apply (event_of (deleted k old)) r).state ≡ Dict.pop k r.state
  unfolding apply Dict.get state_deleted_event
  apply_deleted k old r h = rw h refl

  -- One more value in both.
  put-Agrees :
      (k j : String) (v : Value) (r : ReplaySnapshot) (d : Dict String Value) (s : StateStore)
      → truthy v ≡ true
      → Agrees r s
      → d ≡ Dict.put k (if truthy v then v else none_value) r.state
      → Dict.get j d ≡ Dict.get j (Dict.put k v s.state)
  put-Agrees k j v r d s hv a e =
      rw (e, hv, Dict.get-put k j v r.state, Dict.get-put k j v s.state, a j) refl

  set_over-Agrees :
      (o : Option Value) (k : String) (v : Value) (r : ReplaySnapshot) (s : StateStore)
      → truthy (text k) ≡ true
      → truthy v ≡ true
      → Agrees r s
      → Agrees (replay_onto (events_of (set_over o k v s).1) r) (set_over o k v s).0
  unfolding set_over replay_onto
  set_over-Agrees none k v r s hk hv a j =
      rw (events_of-notify k v (record s { state = Dict.put k v s.state }))
        (put-Agrees k j v r _ s hv a (apply_created k v _ hk))
  set_over-Agrees (some old) k v r s hk hv a j = elim (Bool-cases (py_equal old v)) [
    | inl same ↦ rw same (a j)
    | inr other ↦
        rw (other, events_of-notify k v (record s { state = Dict.put k v s.state }))
          (put-Agrees k j v r _ s hv a (apply_changed k old v _ hk))
  ]

  delete_over-Agrees :
      (o : Option Value) (k : String) (r : ReplaySnapshot) (s : StateStore)
      → truthy (text k) ≡ true
      → Agrees r s
      → Agrees (replay_onto (events_of (delete_over o k s).1) r) (delete_over o k s).0
  unfolding delete_over replay_onto
  delete_over-Agrees none k r s hk a j = a j
  delete_over-Agrees (some old) k r s hk a j =
      rw (apply_deleted k old _ hk, Dict.get-pop k j r.state, Dict.get-pop k j s.state, a j) refl

-- A write of a process to the store.
pub data Call : Type 0 where
  set_call : (key : String) (value : Value) → Call
  delete_call : (key : String) → Call

abbrev pub perform : Call → StateStore → StateStore × List Effect
perform (set_call key value) s = set key value s
perform (delete_call key) s = delete key s

-- A run of calls, with all that they publish and call.
unfoldable pub run : List Call → StateStore → StateStore × List Effect
run [] s = (s, [])
run (c ∷ calls) s =
    let (s', effects) = perform c s in let (s'', more) = run calls s' in (s'', effects ++ more)

-- A key that is not empty, with a value that Python counts as true.
abbrev pub IsVisible : Call → Type 0
IsVisible (set_call key value) = (truthy (text key) ≡ true) × (truthy value ≡ true)
IsVisible (delete_call key) = truthy (text key) ≡ true

replay_onto-append :
    (xs ys : List Event) (r : ReplaySnapshot)
    → replay_onto (xs ++ ys) r ≡ replay_onto ys (replay_onto xs r)
unfolding replay_onto
replay_onto-append [] ys r = refl
replay_onto-append (x ∷ xs) ys r = replay_onto-append xs ys _

select_all {ℓ} : {A : Type ℓ} (xs : List A) → select (λ x. true) xs ≡ xs
unfolding select
select_all [] = refl
select_all (x ∷ xs) = ap (λ l. x ∷ l) (select_all xs)

module _ (stamp : StateEvent → Stamp) where
  events_of-append :
      (xs ys : List Effect) → events_of stamp (xs ++ ys) ≡ events_of stamp xs ++ events_of stamp ys
  events_of-append [] ys = refl
  events_of-append (published e ∷ xs) ys = ap (λ l. event_of stamp e ∷ l) (events_of-append xs ys)
  events_of-append (called c k v ∷ xs) ys = events_of-append xs ys

  perform-Agrees :
      (c : Call) (r : ReplaySnapshot) (s : StateStore)
      → IsVisible c
      → Agrees stamp r s
      → Agrees stamp (replay_onto (events_of stamp (perform c s).1) r) (perform c s).0
  unfolding set delete
  perform-Agrees (set_call k v) r s h a =
      set_over-Agrees stamp (Dict.get k s.state) k v r s h.0 h.1 a
  perform-Agrees (delete_call k) r s h a = delete_over-Agrees stamp (Dict.get k s.state) k r s h a

  run-Agrees :
      (calls : List Call) (r : ReplaySnapshot) (s : StateStore)
      → All IsVisible calls
      → Agrees stamp r s
      → Agrees stamp (replay_onto (events_of stamp (run calls s).1) r) (run calls s).0
  unfolding run replay_onto
  run-Agrees [] r s h a = a
  run-Agrees (c ∷ calls) r s h a =
      let (s', effects) = perform c s in
      rw (events_of-append effects (run calls s').1) (λ k.
        rw (replay_onto-append (events_of stamp effects) (events_of stamp (run calls s').1) r) (
          run-Agrees calls (replay_onto (events_of stamp effects) r) s' h.1
            (perform-Agrees c r s h.0 a) k))

  -- After any writes and deletes, from the start, with keys that are not empty and values that
  -- Python counts as true, replaying the events that were published gives a snapshot that holds
  -- exactly what the store holds.
  pub replay-run :
      (calls : List Call) (k : String)
      → All IsVisible calls
      → Dict.get k (replay none (events_of stamp (run calls new_store).1)).state
        ≡ Dict.get k (run calls new_store).0.state
  unfolding replay
  replay-run calls k h =
      rw (select_all (events_of stamp (run calls new_store).1))
        (run-Agrees calls new_snapshot new_store h (λ j. refl) k)

  -- A value that Python counts as false is lost: a new key that is not empty, and is set to such a
  -- value, is `None` in the snapshot that is replayed from the event, whatever the value was.
  pub replay-set_falsy :
      (k : String) (v : Value) (r : ReplaySnapshot) (s : StateStore)
      → truthy (text k) ≡ true
      → truthy v ≡ false
      → Dict.get k s.state ≡ none
      → (Dict.get k (set k v s).0.state ≡ some v)
        × (Dict.get k (replay_onto (events_of stamp (set k v s).1) r).state ≡ some none_value)
  unfolding set set_over replay_onto
  replay-set_falsy k v r s hk hv new =
      rw (new, set_over)
        (
          Dict.get-put k k v s.state ∙ rw (==_refl k) refl,
          rw (events_of-notify stamp k v (record s { state = Dict.put k v s.state })) (
              rw
                (
                  apply_created stamp k v (record r { event_count = r.event_count + 1 }) hk,
                  hv,
                  Dict.get-put k k none_value r.state,
                  ==_refl k,
                )
                refl),
        )
