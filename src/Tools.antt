-- ===== src/Tools.antt =====
-- emergence/executor/tool_executor.py, emergence/executor/tool_model.py and
-- emergence/security/gated_tool_access.py. What a tool does is a parameter.
pub mod Charges
pub mod Access
mod Examples
use emergence_os.Base.{
  ℕ, String, Bool, true, false, Option, none, some, List, [], ◌∷◌, ◌++◌, Outcome, returned, raised,
  type_error, key_error, if◌then◌else◌, ◌==◌, ◌>>=◌, string_eq, nat_eq,
}
use emergence_os.Base.Bag
use emergence_os.Base.Dict
use emergence_os.Base.Dict.{Dict}
use emergence_os.Base.Int.{ℤ, pos}
use emergence_os.Base.Text.{starts_with}
use emergence_os.Base.Value.{Value, none_value, boolean, integer, text}
use emergence_os.Budget.{BudgetTracker, record_execution}
use emergence_os.Security.{
  Capability, CapabilityManager, require, tool_llm, filesystem_read, filesystem_write, tool_browser,
  tool_shell, memory_read, artifact_read, artifact_write, process_inspect, state_read,
  process_create, tool_python,
}

abbrev among : String → List String → Bool
among name names = Bag.has name names

unfoldable pub capability_for_tool : (tool_name : String) → Capability
unfolding starts_with Bag.has
capability_for_tool name =
    if starts_with "llm." name
    then tool_llm
    else if among name ("fs.read" ∷ "fs.list" ∷ "fs.stat" ∷ [])
    then filesystem_read
    else if among name ("fs.write" ∷ "fs.delete" ∷ [])
    then filesystem_write
    else if starts_with "http." name
    then tool_browser
    else if starts_with "shell." name
    then tool_shell
    else if starts_with "knowledge." name
    then memory_read
    else if among name
        ("artifact.read" ∷ "artifact.search" ∷ "artifact.version" ∷ "artifact.export" ∷ [])
    then artifact_read
    else if among name (
        "artifact.create" ∷ "artifact.update" ∷ "artifact.delete" ∷ "artifact.link"
        ∷ "artifact.watch" ∷ [])
    then artifact_write
    else if starts_with "event." name
    then process_inspect
    else if starts_with "state." name
    then state_read
    else if name == "process.spawn"
    then process_create
    else if among name ("process.status" ∷ "process.find" ∷ [])
    then process_inspect
    else if starts_with "schedule." name
    then process_create
    else tool_python

pub record ToolRequest : Type 0 where
  pub tool_name : String
  pub arguments : Dict String Value
  pub request_id : ℕ

-- What a handler returns: a dictionary or another value. The entry `cost_usd` of a dictionary is a
-- number and stands apart, in millionths of a dollar.
pub data Raw : Type 0 where
  plain : Value → Raw
  fields : (cost_usd : Option ℤ) → Dict String Value → Raw

-- The text of an error is left out.
pub record ToolResult : Type 0 where
  pub request_id : ℕ
  pub success : Bool
  pub result : Option Raw

pub data ToolEvent : Type 0 where
  tool_requested : ToolRequest → (process_id : ℕ) → ToolEvent
  tool_completed : ToolRequest → (process_id : ℕ) → Raw → (tokens_used : ℤ) → ToolEvent
  tool_failed : ToolRequest → (process_id : ℕ) → ToolEvent

-- `_tools`, with a number for each handler.
abbrev pub ToolRegistry : Type 0
ToolRegistry = Dict String ℕ

unfoldable pub register : String → (handler : ℕ) → ToolRegistry → ToolRegistry
register name handler registry = Dict.put name handler registry

unfoldable pub has : String → ToolRegistry → Bool
has name registry = Dict.has name registry

pub record ToolExecutor : Type 0 where
  pub registry : ToolRegistry
  pub budgets : BudgetTracker
  pub published : List ToolEvent

abbrev publish : ToolEvent → ToolExecutor → ToolExecutor
publish event t = record t { published = t.published ++ event ∷ [] }

abbrev or_zero : Option ℤ → ℤ
or_zero none = pos 0
or_zero (some n) = n

-- What is counted, and what the caller gets: the tokens, the cost and the result.
abbrev pub Counted : Type 0
Counted = ℤ × ℤ × Raw

content_or : Option Value → Dict String Value → Raw
content_or none d = fields none d
content_or (some content) d = plain content

-- The rest of `execute`, by how the body of `try` went.
unfoldable pub settle :
    Outcome Counted → ToolRequest → (process_id : ℕ) → ToolExecutor → ToolResult × ToolExecutor
settle (raised e) request process_id t = (
  record { request_id = request.request_id; success = false; result = none },
  publish (tool_failed request process_id) t,
)
settle (returned (tokens, cost, result)) request process_id t = (
  record { request_id = request.request_id; success = true; result = some result },
  publish (tool_completed request process_id result tokens)
      (record t { budgets = record_execution process_id tokens (pos 1) cost (pos 0) t.budgets }),
)

-- `int_of_text` is what `int` makes of a text.
module _ (int_of_text : String → Outcome ℤ) where
  -- `int(raw.pop("tokens_used", 0))`
  unfoldable pub int_of : Option Value → Outcome ℤ
  int_of none = returned (pos 0)
  int_of (some none_value) = raised type_error
  int_of (some (boolean b)) = returned (if b then pos 1 else pos 0)
  int_of (some (integer n)) = returned n
  int_of (some (text s)) = int_of_text s

  -- The reading of what the handler returned. A cost is a number already, so `float` does not raise.
  unfoldable pub counted : Raw → Outcome Counted
  unfolding int_of content_or
  counted (plain v) = returned (pos 0, pos 0, plain v)
  counted (fields cost d) = int_of (Dict.get "tokens_used" d) >>= λ tokens.
      let left = Dict.pop "tokens_used" d in
      returned (tokens, or_zero cost, content_or (Dict.get "content" left) left)

-- A handler, by its number: it may change the executor, and raise.
module _
    (handle : ℕ → Dict String Value → (process_id : ℕ) → ToolExecutor → Outcome Raw × ToolExecutor)
    (int_of_text : String → Outcome ℤ) where
  invoke_found :
      Option ℕ → Dict String Value → (process_id : ℕ) → ToolExecutor → Outcome Raw × ToolExecutor
  invoke_found none arguments process_id t = (raised key_error, t)
  invoke_found (some handler) arguments process_id t = handle handler arguments process_id t

  -- `ToolRegistry.invoke`
  unfoldable pub invoke :
      String → Dict String Value → (process_id : ℕ) → ToolExecutor → Outcome Raw × ToolExecutor
  unfolding invoke_found
  invoke name arguments process_id t =
      invoke_found (Dict.get name t.registry) arguments process_id t

  -- `execute` after the authorization.
  unfoldable pub run_tool :
      ToolRequest → (process_id : ℕ) → ToolExecutor → ToolResult × ToolExecutor
  unfolding invoke counted settle
  run_tool request process_id t =
      let (raw, t') =
        invoke request.tool_name request.arguments process_id
          (publish (tool_requested request process_id) t) in
      settle (raw >>= counted int_of_text) request process_id t'

  -- `require`, and then `f`.
  if_allowed :
      Outcome (Unit {0})
      → ToolExecutor
      → (ToolExecutor → Outcome ToolResult × ToolExecutor)
      → Outcome ToolResult × ToolExecutor
  if_allowed (raised e) t f = (raised e, t)
  if_allowed (returned _) t f = f t

  unfoldable pub execute :
      CapabilityManager
      → ToolRequest
      → (process_id : ℕ) → ToolExecutor
      → Outcome ToolResult × ToolExecutor
  unfolding run_tool if_allowed
  execute manager request process_id t =
      if_allowed (require process_id (capability_for_tool request.tool_name) manager) t
        λ t₁. let (result, t₂) = run_tool request process_id t₁ in (returned result, t₂)

  -- `GatedToolAccess.invoke`
  unfoldable pub gated_invoke :
      CapabilityManager
      → (process_id request_id : ℕ) → String
      → Dict String Value
      → ToolExecutor
      → Outcome ToolResult × ToolExecutor
  unfolding execute if_allowed
  gated_invoke manager process_id request_id name arguments t =
      if_allowed (require process_id (capability_for_tool name) manager) t λ t₁.
        execute manager
          (record { tool_name = name; arguments = arguments; request_id = request_id }) process_id
          t₁
