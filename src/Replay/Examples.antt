-- ===== src/Replay/Examples.antt =====
-- Runs of the state store, and their replay.
use emergence_os.Base.{◌≡◌, refl, true, none, some, List, [], ◌∷◌}
use emergence_os.Base.{string_eq}
use emergence_os.Base.Dict
use emergence_os.Base.Value.{none_value, boolean, integer, text, truthy}
use emergence_os.Base.Int.{pos}
use emergence_os.Event.{Stamp}
use emergence_os.StateStore.{StateEvent, new_store, set, watch, published, called, created}
use emergence_os.Replay.{new_snapshot, replay, replay_onto}
use emergence_os.Replay.Rebuild.{
  events_of, Call, set_call, delete_call, run, replay-run, replay-set_falsy,
}

abbrev stamp : StateEvent → Stamp
stamp e = record { timestamp = 0; event_id = 1 }

abbrev calls : List Call
calls =
    set_call "os:status" (text "booting")
    ∷ set_call "max_beats" (integer (pos 50))
    ∷ set_call "os:status" (text "running")
    ∷ delete_call "max_beats"
    ∷ []

watched : set "k" (boolean true) (watch "k" 4 new_store) ≡ (
  record { state = ("k", boolean true) ∷ []; watchers = ("k", 4 ∷ []) ∷ [] },
  published (created "k" (boolean true)) ∷ called 4 "k" (boolean true) ∷ [],
)
unfolding set watch Dict.get Dict.put
watched = refl

replay-run_example :
    Dict.get "os:status" (replay none (events_of stamp (run calls new_store).1)).state
    ≡ Dict.get "os:status" (run calls new_store).0.state
unfolding truthy
replay-run_example =
    replay-run stamp calls "os:status" ((refl, refl), ((refl, refl), ((refl, refl), (refl, tt))))

replay-set_falsy_example :
    (Dict.get "max_beats" (set "max_beats" (integer (pos 0)) new_store).0.state
      ≡ some (integer (pos 0)))
    × (Dict.get "max_beats"
          (replay_onto
            (events_of stamp (set "max_beats" (integer (pos 0)) new_store).1)
            new_snapshot).state
        ≡ some none_value)
unfolding truthy Dict.get
replay-set_falsy_example =
    replay-set_falsy stamp "max_beats" (integer (pos 0)) new_snapshot new_store refl refl refl
