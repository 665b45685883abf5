-- ===== src/Spaces/Examples.antt =====
-- A registry with a second space, which is switched to.
use emergence_os.Base.{◌≡◌, refl, returned, string_eq}
use emergence_os.Base.Dict
use emergence_os.Spaces.{SpaceRegistry, create, switch, new_registry}
use emergence_os.Spaces.Active.{IsSound, built, created, switched, Reachable-IsSound}

abbrev two : SpaceRegistry
two = create "s1" "Work" 20 (new_registry 10)

abbrev at_work : SpaceRegistry
at_work = record two { active_space_id = "s1" }

goes_to_work : switch "s1" two ≡ returned at_work
unfolding switch create new_registry Dict.get Dict.put
goes_to_work = refl

Reachable-IsSound_example : IsSound at_work
Reachable-IsSound_example =
    Reachable-IsSound
      (switched "s1" two at_work (created "s1" "Work" 20 (new_registry 10) (built 10)) goes_to_work)
