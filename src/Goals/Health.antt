-- ===== src/Goals/Health.antt =====
-- emergence/cognitive/goal_registry.py: the health and the statistics of goals, and the handler of
-- events that keeps them up. An id's text is the id.
use emergence_os.Base.{
  ℕ, ◌-◌, ◌+◌, String, Bool, true, false, not, ltb, nat_beq, ◌||◌, ◌&&◌, Option, none, some, List,
  [], ◌∷◌, ◌++◌, if◌then◌else◌, ◌==◌, string_eq, nat_eq,
}
use emergence_os.Base.Bag
use emergence_os.Base.Dict
use emergence_os.Base.Dict.{Dict}
use emergence_os.Base.Int.{pos}
use emergence_os.Base.Text.{occurs_in, concat}
use emergence_os.Base.Value.{Value, none_value, integer, truthy, py_or}
use emergence_os.Budget.{BudgetTracker, can_dispatch}
use emergence_os.Event.{
  Event, EventType, process_created, process_started, process_completed, process_failed,
  goal_created, goal_completed, goal_failed, state_changed, user_approval_requested, memory_stored,
  event_type_eq,
}
use emergence_os.EventStore.{EventStore, query}
use emergence_os.Process.{Process, is_finished}
use emergence_os.State.{ProcessState, process_eq}
use emergence_os.Registries.ProcessTable.{ProcessTable}
use emergence_os.Goals.{
  GoalKind, one_shot, persistent, GoalRecord, GoalRegistry, register, all_process_ids, touch,
}

pub data GoalHealth : Type 0 where
  healthy degraded needs_attention idle : GoalHealth

abbrev pub health_code : GoalHealth → ℕ
health_code healthy = 0
health_code degraded = 1
health_code needs_attention = 2
health_code idle = 3

pub record GoalStats : Type 0 where
  pub uptime : ℕ
  pub active_child_count : ℕ
  pub knowledge_size_bytes : ℕ
  pub last_event_at : Option ℕ

-- The parts of the kernel context that the registry asks, once it is bound. `knowledge_size` is
-- `total_bytes_for_goal` of the knowledge index.
pub record HealthContext : Type 0 where
  pub process_table : ProcessTable
  pub budgets : BudgetTracker
  pub state : Dict String Value
  pub event_store : EventStore
  pub knowledge_size : (goal_id : ℕ) → ℕ

-- The events that the registry publishes.
pub data GoalNotice : Type 0 where
  health_changed : (goal_id : ℕ) → GoalHealth → (previous : Option GoalHealth) → GoalNotice
  stats_updated : (goal_id : ℕ) → GoalStats → GoalNotice

-- A registry with `_last_health` and what it published.
pub record Monitor : Type 0 where
  pub registry : GoalRegistry
  pub last_health : Dict ℕ GoalHealth
  pub published : List GoalNotice

-- The tests of `compute_health` on one process. `can_dispatch` may enter a zero, which is left out.
stops : HealthContext → Option Process → Bool
unfolding can_dispatch
stops ctx none = false
stops ctx (some p) =
    (p.state == ProcessState.failed) || not ((can_dispatch p.process_id p.budget ctx.budgets).0)

any_stops : HealthContext → List ℕ → Bool
unfolding stops
any_stops ctx [] = false
any_stops ctx (id ∷ ids) = stops ctx (Dict.get id ctx.process_table) || any_stops ctx ids

active_children : HealthContext → List ℕ → ℕ
unfolding is_finished
active_children ctx [] = 0
active_children ctx (id ∷ ids) = count (Dict.get id ctx.process_table) + active_children ctx ids
  where
    count : Option Process → ℕ
    count none = 0
    count (some p) = if is_finished p then 0 else 1

-- `compute_stats`
unfoldable pub compute_stats : Option HealthContext → (now : ℕ) → GoalRecord → GoalStats
unfolding active_children all_process_ids
compute_stats none now r = record {
  uptime = now - r.registered_at;
  active_child_count = 0;
  knowledge_size_bytes = 0;
  last_event_at = r.last_event_at;
}
compute_stats (some ctx) now r = record {
  uptime = now - r.registered_at;
  active_child_count = active_children ctx (all_process_ids r);
  knowledge_size_bytes = ctx.knowledge_size r.goal_id;
  last_event_at = r.last_event_at;
}

is_true : Option Value → Bool
unfolding truthy
is_true none = false
is_true (some v) = truthy v

goal_in : Option Value → Option ℕ
goal_in (some (integer (pos n))) = some n
goal_in _ = none

-- The record that is held for a goal.
unfoldable pub record_at : Option ℕ → GoalRegistry → Option GoalRecord
record_at none g = none
record_at (some goal_id) g = Dict.get goal_id g.records

owner_of : Option ℕ → GoalRegistry → Option ℕ
owner_of none g = none
owner_of (some source) g = Dict.get source g.process_to_goal

-- `_set_health_if_changed`
unfoldable pub set_health_if_changed : GoalRecord → GoalHealth → Monitor → Monitor
set_health_if_changed r health m = by_previous (Dict.get r.goal_id m.last_health)
  where
    changed : Option GoalHealth → Monitor
    changed previous = record m {
      last_health = Dict.put r.goal_id health m.last_health;
      published = m.published ++ health_changed r.goal_id health previous ∷ [];
    }

    by_previous : Option GoalHealth → Monitor
    by_previous none = changed none
    by_previous (some previous) =
        if nat_beq (health_code previous) (health_code health) then m else changed (some previous)

-- A change of the record that is held for a goal.
abbrev pub change : (goal_id : ℕ) → GoalRecord → Monitor → Monitor
change goal_id r m = record m {
  registry = record m.registry { records = Dict.put goal_id r m.registry.records };
}

-- `_publish_stats`
unfoldable pub with_stats : Option HealthContext → (now : ℕ) → GoalRecord → Monitor → Monitor
unfolding compute_stats
with_stats ctx now r m = record m {
  published = m.published ++ stats_updated r.goal_id (compute_stats ctx now r) ∷ [];
}

-- `str_of` is `str`, and `lower` is `str.lower`. Times and the two thresholds are microseconds.
module _ (str_of : Value → String) (lower : String → String)
    (staleness approval_threshold : ℕ) where
  text_in : Option Value → String
  text_in none = ""
  text_in (some v) = str_of v

  -- The request has a source among the processes, an id, and no approval.
  is_pending : HealthContext → List ℕ → Event → Bool
  unfolding text_in is_true concat Bag.has
  is_pending ctx ids event =
      let request_id = text_in (Dict.get "request_id" event.payload) in
      of_goal event.source_process
      && not (request_id == "")
      && not (is_true (Dict.get (concat "approval:" request_id) ctx.state))
    where
      of_goal : Option ℕ → Bool
      of_goal none = false
      of_goal (some source) = Bag.has source ids

  -- A request of `_pending_approvals_for_goal` waits for longer than the threshold.
  any_late : HealthContext → List ℕ → (now : ℕ) → List Event → Bool
  unfolding is_pending
  any_late ctx ids now [] = false
  any_late ctx ids now (event ∷ events) =
      is_pending ctx ids event && ltb approval_threshold (now - event.timestamp)
      || any_late ctx ids now events

  when_quiet : Option ℕ → (now : ℕ) → GoalHealth
  when_quiet none now = healthy
  when_quiet (some last) now = if ltb staleness (now - last) then idle else healthy

  unfoldable pub compute_health : Option HealthContext → (now : ℕ) → GoalRecord → GoalHealth
  unfolding any_stops any_late when_quiet query all_process_ids
  compute_health ctx now r =
      if r.has_process_failure
      then degraded
      else if r.has_budget_exceeded
      then degraded
      else by_context ctx
    where
      by_context : Option HealthContext → GoalHealth
      by_context none = when_quiet r.last_event_at now
      by_context (some c) =
          if any_stops c (all_process_ids r)
          then degraded
          else if any_late c (all_process_ids r) now
              (query (some user_approval_requested) none none none c.event_store)
          then needs_attention
          else when_quiet r.last_event_at now

  -- The stage that a change of the pipeline's status sets on the records that are not archived.
  unfoldable pub staged : Option String → (now : ℕ) → Dict ℕ GoalRecord → Dict ℕ GoalRecord
  staged stage now [] = []
  staged stage now ((k, r) ∷ d) =
      (k, (if r.archived then r else touch now (record r { pipeline_stage = stage })))
      ∷ staged stage now d

  shown : Option Value → Option String
  shown none = none
  shown (some none_value) = none
  shown (some v) = some (str_of v)

  -- `getattr(event, name, None)`, and the payload where that is `None`.
  attribute : String → Event → Option Value
  attribute name event = by_attribute (Dict.get name event.attributes)
    where
      by_attribute : Option Value → Option Value
      by_attribute none = Dict.get name event.payload
      by_attribute (some none_value) = Dict.get name event.payload
      by_attribute (some v) = some v

  -- What an event does to the record of the goal, before it says anything of its health.
  unfoldable pub record_after : EventType → Event → (now : ℕ) → GoalRecord → GoalRecord
  unfolding text_in occurs_in
  record_after goal_completed event now r =
      touch now (record r { pipeline_stage = some "completed"; archived = after_completion r.kind })
    where
      after_completion : GoalKind → Bool
      after_completion one_shot = true
      after_completion persistent = r.archived
  record_after goal_failed event now r =
      touch now (record r { has_process_failure = true; pipeline_stage = some "failed" })
  record_after user_approval_requested event now r =
      touch now (record r { pipeline_stage = some "awaiting_approval" })
  record_after process_failed event now r = touch now (record r {
    has_process_failure = true;
    has_budget_exceeded =
        occurs_in "budget" (lower (text_in (Dict.get "error" event.payload)))
        || r.has_budget_exceeded;
  })
  record_after _ event now r = touch now r

  -- What is published of a goal after an event, with its record as it is then.
  unfoldable pub announce :
      EventType → Option HealthContext → (now : ℕ) → GoalRecord → Monitor → Monitor
  unfolding compute_health set_health_if_changed with_stats
  announce goal_failed ctx now r m = set_health_if_changed r degraded m
  announce process_failed ctx now r m = with_stats ctx now r (set_health_if_changed r degraded m)
  announce memory_stored ctx now r m = m
  announce goal_completed ctx now r m = set_health_if_changed r (compute_health ctx now r) m
  announce user_approval_requested ctx now r m =
      set_health_if_changed r (compute_health ctx now r) m
  announce _ ctx now r m =
      with_stats ctx now r (set_health_if_changed r (compute_health ctx now r) m)

  -- The event for the record that is held for its goal.
  unfoldable pub tell :
      EventType → Event → Option HealthContext → (now : ℕ) → Option ℕ → Monitor → Monitor
  unfolding record_after announce record_at
  tell kind event ctx now goal_id m = by_record goal_id (record_at goal_id m.registry)
    where
      by_record : Option ℕ → Option GoalRecord → Monitor
      by_record (some id) (some r) =
          let after = record_after kind event now r in
          announce kind ctx now after (change id after m)
      by_record _ _ = m

  -- The branch of GOAL_CREATED.
  unfoldable pub create_goal : Event → (now : ℕ) → Option ℕ → Monitor → Monitor
  unfolding register text_in
  create_goal event now none m = m
  create_goal event now (some goal_id) m =
      if Dict.has goal_id m.registry.records then m else record m {
        registry =
            register goal_id (text_in (Dict.get "description" event.payload)) one_shot none now
              m.registry;
      }

  -- The branch of STATE_CHANGED.
  unfoldable pub stage_all : Event → (now : ℕ) → Monitor → Monitor
  unfolding staged shown attribute text_in py_or
  stage_all event now m =
      if text_in (py_or (Dict.get "key" event.attributes) (Dict.get "key" event.payload))
        == "pipeline_status"
      then record m {
        registry = record m.registry {
          records = staged (shown (attribute "new_value" event)) now m.registry.records;
        };
      }
      else m

  -- `_on_event`, by the type of the event.
  unfoldable pub handle : EventType → Event → Option HealthContext → (now : ℕ) → Monitor → Monitor
  unfolding create_goal stage_all tell goal_in owner_of
  handle goal_created event ctx now m =
      create_goal event now (goal_in (Dict.get "goal_id" event.payload)) m
  handle goal_completed event ctx now m =
      tell goal_completed event ctx now (goal_in (Dict.get "goal_id" event.payload)) m
  handle goal_failed event ctx now m =
      tell goal_failed event ctx now (goal_in (Dict.get "goal_id" event.payload)) m
  handle state_changed event ctx now m = stage_all event now m
  handle user_approval_requested event ctx now m =
      tell user_approval_requested event ctx now (owner_of event.source_process m.registry) m
  handle memory_stored event ctx now m =
      tell memory_stored event ctx now (owner_of event.source_process m.registry) m
  handle process_created event ctx now m =
      tell process_created event ctx now (owner_of event.source_process m.registry) m
  handle process_started event ctx now m =
      tell process_started event ctx now (owner_of event.source_process m.registry) m
  handle process_completed event ctx now m =
      tell process_completed event ctx now (owner_of event.source_process m.registry) m
  handle process_failed event ctx now m =
      tell process_failed event ctx now (owner_of event.source_process m.registry) m
  handle _ event ctx now m = m

  unfoldable pub on_event : Event → Option HealthContext → (now : ℕ) → Monitor → Monitor
  unfolding handle
  on_event event ctx now m = handle event.event_type event ctx now m
