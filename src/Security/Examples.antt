-- ===== src/Security/Examples.antt =====
-- A process whose definition asks for one more capability, and for one that does not exist.
use emergence_os.Base.{
  ℕ, ◌≡◌, refl, true, false, ◌||◌, none, [], ◌∷◌, nat_eq, string_eq, if◌then◌else◌, ◌==◌,
}
use emergence_os.Base.Bag
use emergence_os.Base.Dict
use emergence_os.Base.Value.{boolean, integer}
use emergence_os.Base.Int.{pos}
use emergence_os.Budget.{default_budget}
use emergence_os.Definition.{ProcessDefinition}
use emergence_os.Event.{Event, process_failed}
use emergence_os.EventBus.{Handlers}
use emergence_os.Mailbox.{Message}
use emergence_os.Security.{
  capability_eq, tool_shell, tool_llm, state_write, default_process_capabilities, CapabilityManager,
  capabilities_for_definition, grant, grant_all, clear, has, revoke,
}
use emergence_os.Security.Grants.{declared, has-grant_definition}
use emergence_os.Security.Gated.{set_call, unwatch_call, delete_call, run, run_denied}
use emergence_os.StateStore.{new_store}

abbrev definition : ProcessDefinition
definition = record {
  process_definition_id = 1;
  name = "researcher";
  version = "1.0.0";
  implementation = "researcher:run";
  execution_spec = none;
  default_budget = default_budget;
  required_permissions = "tool.llm" ∷ "tool.telepathy" ∷ [];
}

abbrev manager : CapabilityManager
manager = grant_all 7 (capabilities_for_definition definition) (clear 7 [])

abbrev restricted : CapabilityManager
restricted = revoke 7 state_write manager

llm_but_no_shell : (has 7 tool_llm manager ≡ true) × (has 7 tool_shell manager ≡ false)
unfolding has grant grant_all capabilities_for_definition clear Bag.has Bag.add Dict.get Dict.put
    Dict.pop
llm_but_no_shell = (refl, refl)

has-grant_definition_example : has 7 tool_llm manager ≡ (
    if ◌==◌ {K = ℕ} 7 7
    then declared tool_llm definition.required_permissions
      || Bag.has tool_llm default_process_capabilities
    else has 7 tool_llm [])
has-grant_definition_example = has-grant_definition 7 7 tool_llm definition []

write_is_revoked : has 7 state_write restricted ≡ false
unfolding has grant grant_all capabilities_for_definition clear revoke Bag.has Bag.add Bag.discard
    Dict.get Dict.put Dict.pop
write_is_revoked = refl

run_denied_example :
    (run restricted 7
      (set_call "k" (boolean true) ∷ delete_call "k" ∷ unwatch_call "k" 1 ∷ [])
      new_store).state
    ≡ []
run_denied_example =
    run_denied restricted 7
      (set_call "k" (boolean true) ∷ delete_call "k" ∷ unwatch_call "k" 1 ∷ []) new_store
      write_is_revoked

abbrev letter : Message
letter = record {
  sender_pid = 7;
  recipient_pid = 8;
  payload = integer (pos 1);
  id = 1;
  timestamp = 1;
}

abbrev failure : Event
failure = record {
  event_type = process_failed;
  source_process = none;
  correlation_id = none;
  causation_id = none;
  payload = [];
  attributes = [];
  timestamp = 0;
  event_id = 1;
}

abbrev call : Handlers ℕ
call handler event s = (s, false)
