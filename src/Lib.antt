-- ===== src/Lib.antt =====
-- A model of EmergenceOS, a small operating system for agent processes, with the theorems that
-- its parts are correct.
--
-- The parts, and how they interact. A process (emergence/core/process.py) is an instance of a
-- process definition and moves through the lifecycle of emergence/core/state.py. The scheduler
-- (emergence/scheduler/scheduler.py) decides which ready process runs next; it keeps processes that
-- wait for a condition and processes that wait for others, and it listens to the event bus
-- (emergence/events/event_bus.py). The budget tracker (emergence/core/budget_tracker.py) says
-- whether a process may be dispatched. Processes share values in the state store
-- (emergence/kernel/state_store.py), whose writes are published as events; the replay engine
-- (emergence/events/replay.py) rebuilds the values from the log of events.
--
-- The files.
--   Base: names that all files share. Base/Dict is a Python dict as an association list in the
--     order of insertion, Base/Bag a set or a list with membership, Base/Errors the outcome of a
--     call (a value or an exception), Base/Value the values that processes store.
--   State: emergence/core/state.py (State/Codes has the enums).
--   Budget: emergence/core/budget.py and emergence/core/budget_tracker.py.
--   Definition: emergence/core/process_definition.py and emergence/core/execution_spec.py.
--   Process: emergence/core/process.py and emergence/kernel/lifecycle.py.
--   Event: emergence/core/event.py and the state events under emergence/events/.
--   EventBus: emergence/events/event_bus.py.
--   Scheduler: emergence/scheduler/scheduler.py (Scheduler/Queue has the heap).
--   StateStore: emergence/kernel/state_store.py.
--   EventStore: emergence/events/event_store.py.
--   Replay: emergence/events/replay.py.
--   Mailbox: emergence/kernel/mailbox.py and emergence/kernel/mailbox_manager.py.
--   Security: emergence/security/ (Security/Names has the constants; Security/GatedStateStore,
--     GatedMailboxManager and GatedEventBus are the facades).
--   Registries: emergence/kernel/process_table.py, emergence/kernel/registry.py and
--     emergence/executor/executor.py.
--   Cognitive: emergence/cognitive/manager.py (Cognitive/Entities has emergence/core/goal.py,
--     plan.py and task.py; Cognitive/Planning creates plans, Cognitive/Spawning starts processes).
--   Memory: emergence/memory/memory_manager.py and memory_store.py (Memory/Keys has the two key
--     layouts, which are records in place of strings with separators).
--   Checkpoint: emergence/checkpoint/checkpoint.py, checkpoint_store.py and checkpoint_manager.py.
--   Goals: emergence/cognitive/goal_registry.py (Goals/Policy has emergence/cognitive/goal_policy.py,
--     Goals/Health the health of goals and the handler of events).
--   Kernel: emergence/kernel/kernel.py and supervisor.py over all parts above. Kernel/Context has
--     the services of emergence/kernel/context.py and emergence/core/wait_conditions.py, Kernel/Spawn
--     `spawn`, Kernel/Dispatch `run_next`, Kernel/Publish the events of processes: the scheduler
--     handles each first, then the supervisor. The body of a process is a parameter.
--   Schedules: emergence/scheduler/schedule_manager.py.
--   Spaces: emergence/spaces/registry.py.
--   Tools: emergence/executor/tool_executor.py, tool_model.py and
--     emergence/security/gated_tool_access.py.
--   Artifacts: emergence/artifacts/service.py. Artifacts/Records has the requests and the shared steps,
--     Artifacts/Mutations the changes, Artifacts/Watches the notifications, Artifacts/Reads the reads
--     and Artifacts/Snapshots the saved form. A record stands where the source keeps the object
--     itself, files are a dictionary from paths to bytes, and `str.lower`, the safe name of a file,
--     the guess of a MIME type and UTF-8 are a parameter.
--   Knowledge: emergence/memory/knowledge_index.py. Knowledge/Index has the events and the shared
--     steps, Knowledge/Changes the handlers, Knowledge/Reads queries, summaries and snapshots.
--   Runtime: the methods of emergence/kernel/kernel.py that drive the kernel or serve its clients.
-- The functions have the names of the methods they model; a method that changes its object takes
-- the state last and returns the new one, and a method that raises returns an outcome.
--
-- How the source is read. Identifiers are natural numbers, which the caller draws where the source
-- draws a UUID, and times are natural numbers, which the caller reads from the clock. Callbacks are
-- numbers with an interpretation that is a parameter. Amounts that are floats in the source are
-- integers of a fixed unit. Locks are left out: an operation that holds its lock is one step. A
-- heap is a sorted list, since its entries are totally ordered. Every loop is a recursion on the
-- list it goes through, so no fuel is needed.
--
-- Not modelled: the ranking of artifacts by a text query, the loops run and run_forever, and the
-- operations that only report or that turn state into dictionaries of texts and back. The handlers
-- that only report (observability, the health of goals) are left out of the publication of events,
-- and so are the callbacks that watch a key where the kernel itself sets it. A file that cannot be
-- written, a text that cannot be encoded and a cost that is not a number are left out too: they
-- raise. The command line, the HTTP server, the admin views, plugins,
-- files and SQLite, the tools and the language models are input and output.
mod Base
pub mod State
pub mod Budget
pub mod Definition
pub mod Process
pub mod Event
pub mod EventBus
pub mod Scheduler
pub mod StateStore
pub mod EventStore
pub mod Replay
pub mod Mailbox
pub mod Security
pub mod Registries
pub mod Cognitive
pub mod Memory
pub mod Checkpoint
pub mod Goals
pub mod Spaces
pub mod Artifacts
pub mod Knowledge
pub mod Tools
pub mod Kernel
pub mod Schedules
pub mod Runtime
