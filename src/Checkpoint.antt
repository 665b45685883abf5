-- ===== src/Checkpoint.antt =====
-- emergence/checkpoint/checkpoint.py, the in-memory store of emergence/checkpoint/checkpoint_store.py
-- and emergence/checkpoint/checkpoint_manager.py.
pub mod Recovery
mod Examples
use emergence_os.Base.{
  ℕ, String, Option, none, some, List, [], ◌∷◌, ◌++◌, Bool, true, false, Outcome, returned, raised,
  key_error, checkpoint_not_found, ◌>>=◌, nat_eq, if◌then◌else◌,
}
use emergence_os.Base.Dict
use emergence_os.Base.Dict.{Dict}
use emergence_os.Base.Value.{Value}
use emergence_os.Budget.{BudgetUsage, BudgetTracker, usage}
use emergence_os.Memory
use emergence_os.Memory.{Memory, MemoryCategory, working}
use emergence_os.Process.{Process}
use emergence_os.State.{ProcessState}

pub record Checkpoint : Type 0 where
  pub checkpoint_id : ℕ
  pub process_id : ℕ
  pub process_state : ProcessState
  pub working_memory : Dict String Value
  pub event_offset : ℕ
  pub resource_usage : BudgetUsage
  pub created_at : ℕ

-- `InMemoryCheckpointStore`
pub record CheckpointStore : Type 0 where
  pub checkpoints : Dict ℕ Checkpoint
  pub by_process : Dict ℕ (List ℕ)

-- The constructor, and the state that `clear` leaves.
abbrev pub clear : CheckpointStore
clear = record { checkpoints = []; by_process = [] }

or_no_ids : Option (List ℕ) → List ℕ
or_no_ids none = []
or_no_ids (some ids) = ids

unfoldable pub save : Checkpoint → CheckpointStore → CheckpointStore
unfolding or_no_ids
save c s = record {
  checkpoints = Dict.put c.checkpoint_id c s.checkpoints;
  by_process =
      Dict.put c.process_id (or_no_ids (Dict.get c.process_id s.by_process) ++ c.checkpoint_id ∷ [])
        s.by_process;
}

unfoldable pub get : ℕ → CheckpointStore → Option Checkpoint
get checkpoint_id s = Dict.get checkpoint_id s.checkpoints

-- ids[-1]
unfoldable pub last : List ℕ → Option ℕ
last [] = none
last (i ∷ []) = some i
last (i ∷ j ∷ ids) = last (j ∷ ids)

abbrev pub found : Option Checkpoint → Outcome (Option Checkpoint)
found none = raised key_error
found (some c) = returned (some c)

-- The return of `latest_for_process`; an id that the store does not hold raises.
latest_of : Option ℕ → CheckpointStore → Outcome (Option Checkpoint)
latest_of none s = returned none
latest_of (some i) s = found (Dict.get i s.checkpoints)

unfoldable pub latest_for_process : ℕ → CheckpointStore → Outcome (Option Checkpoint)
unfolding latest_of last or_no_ids
latest_for_process process_id s = latest_of (last (or_no_ids (Dict.get process_id s.by_process))) s

abbrev add_found : Option Checkpoint → List Checkpoint → List Checkpoint
add_found none cs = cs
add_found (some c) cs = c ∷ cs

-- The comprehension, which skips the ids that are not held.
unfoldable pub held_of : List ℕ → CheckpointStore → List Checkpoint
held_of [] s = []
held_of (i ∷ ids) s = add_found (Dict.get i s.checkpoints) (held_of ids s)

unfoldable pub list_for_process : ℕ → CheckpointStore → List Checkpoint
unfolding held_of or_no_ids
list_for_process process_id s = held_of (or_no_ids (Dict.get process_id s.by_process)) s

-- The events of emergence/events/checkpoint_events.py.
pub data CheckpointEvent : Type 0 where
  checkpoint_created checkpoint_restored : (checkpoint_id process_id : ℕ) → CheckpointEvent

-- What the manager works on.
pub record Recoverable : Type 0 where
  pub checkpoints : CheckpointStore
  pub memory : Memory
  pub budgets : BudgetTracker
  pub published : List CheckpointEvent

module _ (space_of : (process_id : ℕ) → String) where
  -- `create_checkpoint`, with the id and the time that the constructor draws.
  unfoldable pub create_checkpoint :
      (checkpoint_id now event_offset : ℕ) → Process → Recoverable → Checkpoint × Recoverable
  unfolding save usage
  create_checkpoint checkpoint_id now event_offset p r =
      let (used, budgets') = usage p.process_id r.budgets in
      let c : Checkpoint = record {
        checkpoint_id = checkpoint_id;
        process_id = p.process_id;
        process_state = p.state;
        working_memory = Memory.working_snapshot space_of p.process_id r.memory;
        event_offset = event_offset;
        resource_usage = used;
        created_at = now;
      } in
      (
        c,
        record r {
          checkpoints = save c r.checkpoints;
          budgets = budgets';
          published = r.published ++ checkpoint_created checkpoint_id p.process_id ∷ [];
        },
      )

  -- The loop over the working memory.
  unfoldable pub store_all : (process_id : ℕ) → Dict String Value → Memory → Memory
  store_all process_id [] m = m
  store_all process_id ((key, value) ∷ entries) m =
      store_all process_id entries (Memory.store space_of process_id working key value m)

  -- The rest of `restore_checkpoint` for a checkpoint that was found. The five assignments set every
  -- field of the usage.
  unfoldable pub restore_found :
      Option Checkpoint → Process → Recoverable → Outcome (Checkpoint × Recoverable)
  unfolding store_all usage
  restore_found none p r = raised checkpoint_not_found
  restore_found (some c) p r =
      let (used, budgets') = usage p.process_id r.budgets in
      returned (
        c,
        record r {
          memory = store_all p.process_id c.working_memory r.memory;
          budgets = Dict.put p.process_id c.resource_usage budgets';
          published = r.published ++ checkpoint_restored c.checkpoint_id p.process_id ∷ [];
        },
      )

  unfoldable pub restore_checkpoint :
      (checkpoint_id : ℕ) → Process → Recoverable → Outcome (Checkpoint × Recoverable)
  unfolding restore_found
  restore_checkpoint checkpoint_id p r = restore_found (get checkpoint_id r.checkpoints) p r
