-- ===== src/Tools/Access.antt =====
-- Which tools emergence/security/gated_tool_access.py lets a process use.
use emergence_os.Base.{
  ℕ, ◌≡◌, refl, ap, ◌∙◌, String, ◌||◌, Outcome, returned, raised, permission_denied, Bool-cases,
  inl, inr, if◌then◌else◌, ==_refl, nat_eq,
}
use emergence_os.Base.Bag
use emergence_os.Base.Dict.{Dict}
use emergence_os.Base.Int.{ℤ}
use emergence_os.Base.Value.{Value}
use emergence_os.Definition.{ProcessDefinition}
use emergence_os.Security.{
  capability_eq, CapabilityManager, capabilities_for_definition, default_process_capabilities,
  grant_all, clear, has, require,
}
use emergence_os.Security.Grants.{declared, has-grant_definition}
use emergence_os.Tools.{
  ToolExecutor, ToolRequest, ToolResult, Raw, run_tool, capability_for_tool, if_allowed, execute,
  gated_invoke,
}

module _
    (handle : ℕ → Dict String Value → (process_id : ℕ) → ToolExecutor → Outcome Raw × ToolExecutor)
    (int_of_text : String → Outcome ℤ) where
  -- The tool is run, and no exception leaves the facade.
  abbrev pub ran : ToolRequest → (process_id : ℕ) → ToolExecutor → Outcome ToolResult × ToolExecutor
  ran request p t =
      let (result, t₁) = run_tool handle int_of_text request p t in (returned result, t₁)

  gated_invoke-has :
      (manager : CapabilityManager) (p : ℕ) (request : ToolRequest) (t : ToolExecutor)
      → gated_invoke handle int_of_text manager p request.request_id request.tool_name
          request.arguments t
        ≡ (if has p (capability_for_tool request.tool_name) manager
            then ran request p t
            else (raised permission_denied, t))
  unfolding gated_invoke execute if_allowed require
  gated_invoke-has manager p request t =
      elim (Bool-cases (has p (capability_for_tool request.tool_name) manager)) [
        | inl held ↦ rw held refl
        | inr missing ↦ rw missing refl
      ]

  -- A process that was given the capabilities of its definition uses exactly the tools whose
  -- capability is one of the default ones or is named by its definition. Such a tool is run and gives
  -- a result, also where it fails; any other raises, and nothing is run, published or charged.
  pub gated_invoke-grant_definition :
      (d : ProcessDefinition) (m : CapabilityManager) (p : ℕ) (request : ToolRequest)
      (t : ToolExecutor)
      → gated_invoke handle int_of_text
          (grant_all p (capabilities_for_definition d) (clear p m))
          p
          request.request_id
          request.tool_name
          request.arguments
          t
        ≡ (if declared (capability_for_tool request.tool_name) d.required_permissions
              || Bag.has (capability_for_tool request.tool_name) default_process_capabilities
            then ran request p t
            else (raised permission_denied, t))
  gated_invoke-grant_definition d m p request t =
      gated_invoke-has _ p request t
      ∙ ap (λ b. if b then ran request p t else (raised permission_denied, t))
          (has-grant_definition p p (capability_for_tool request.tool_name) d m
            ∙ rw (==_refl p) refl)
