-- ===== src/Schedules.antt =====
-- emergence/scheduler/schedule_manager.py: processes that are started at a time.
pub mod Due
mod Examples
use emergence_os.Base.{
  ℕ, ◌+◌, String, Bool, true, false, ◌||◌, ◌&&◌, not, Option, none, some, List, [], ◌∷◌, ◌++◌,
  select, Outcome, returned, raised, if◌then◌else◌, ◌==◌, ltb, nat_eq, string_eq,
}
use emergence_os.Base.Dict
use emergence_os.Base.Dict.{Dict}
use emergence_os.Base.Int.{ℤ, pos}
use emergence_os.Kernel.{Kernel}
use emergence_os.Kernel.Dispatch.{spawn_named}

pub record ScheduledEntry : Type 0 where
  pub schedule_id : ℕ
  pub goal_id : ℕ
  pub process_definition_name : String
  pub fire_at : ℕ
  pub description : String
  pub fired : Bool

-- The PROCESS_SCHEDULED events: a registration, or the start of a process.
pub data ScheduleEvent : Type 0 where
  registered : ScheduledEntry → ScheduleEvent
  fired : ScheduledEntry → (process_id : ℕ) → ScheduleEvent

pub record ScheduleManager : Type 0 where
  pub entries : Dict ℕ ScheduledEntry
  pub published : List ScheduleEvent

abbrev pub put_entry : ScheduledEntry → ScheduleManager → ScheduleManager
put_entry entry m = record m { entries = Dict.put entry.schedule_id entry m.entries }

-- `register`, where `schedule_id` is the new UUID. An empty description is replaced by a text made
-- from the name.
unfoldable pub register :
    (schedule_id goal_id : ℕ)
    → String
    → (fire_at : ℕ) → (description : String) → (made : String → String) → ScheduleManager
    → ScheduledEntry × ScheduleManager
register schedule_id goal_id name fire_at description made m =
    let entry : ScheduledEntry = record {
      schedule_id = schedule_id;
      goal_id = goal_id;
      process_definition_name = name;
      fire_at = fire_at;
      description = if description == "" then made name else description;
      fired = false;
    } in
    (entry, record (put_entry entry m) { published = m.published ++ registered entry ∷ [] })

unfoldable pub pending_all : ScheduleManager → List ScheduledEntry
pending_all m = select (λ e. not e.fired) (Dict.values m.entries)

unfoldable pub pending_for_goal : (goal_id : ℕ) → ScheduleManager → List ScheduledEntry
pending_for_goal goal_id m =
    select (λ e. (e.goal_id == goal_id) && not e.fired) (Dict.values m.entries)

abbrev pub World : Type 0
World = Kernel × ScheduleManager

-- `entry.fired = True` and the event, for the entry that the manager holds.
abbrev pub mark_fired : ScheduledEntry → (process_id : ℕ) → ScheduleManager → ScheduleManager
mark_fired entry process_id m =
    let e : ScheduledEntry = record entry { fired = true } in
    record (put_entry e m) { published = m.published ++ fired e process_id ∷ [] }

-- `_fire_entry` after the call of `spawn`.
unfoldable pub fire_over : Outcome ℕ × Kernel → ScheduledEntry → ScheduleManager → Outcome ℕ × World
fire_over (raised e, k) entry m = (raised e, (k, m))
fire_over (returned process_id, k) entry m =
    (returned process_id, (k, mark_fired entry process_id m))

unfoldable pub fire_entry : ScheduledEntry → World → Outcome ℕ × World
unfolding fire_over
fire_entry entry (k, m) =
    fire_over (spawn_named entry.process_definition_name entry.goal_id (pos 6) k) entry m

-- `spawned.append(...)`, seen from the end of the loop.
abbrev pub and_spawned : (process_id : ℕ) → Outcome (List ℕ) × World → Outcome (List ℕ) × World
and_spawned process_id (raised e, w) = (raised e, w)
and_spawned process_id (returned ids, w) = (returned (process_id ∷ ids), w)

-- An exception of `_fire_entry` ends the loop.
unfoldable pub unless_raised :
    Outcome ℕ × World → (World → Outcome (List ℕ) × World) → Outcome (List ℕ) × World
unless_raised (raised e, w) rest = (raised e, w)
unless_raised (returned process_id, w) rest = and_spawned process_id (rest w)

-- The loop of `process_due`, over the copy of the pending entries.
unfoldable pub fire_due : (now : ℕ) → List ScheduledEntry → World → Outcome (List ℕ) × World
unfolding fire_entry unless_raised
fire_due now [] w = (returned [], w)
fire_due now (entry ∷ entries) w =
    let rest = fire_due now entries in
    if ltb now entry.fire_at then rest w else unless_raised (fire_entry entry w) rest

unfoldable pub process_due : (now : ℕ) → World → Outcome (List ℕ) × World
unfolding fire_due pending_all
process_due now (k, m) = fire_due now (pending_all m) (k, m)
