-- ===== src/Kernel/Spawn.antt =====
-- emergence/kernel/kernel.py: `spawn`.
use emergence_os.Base.{
  ℕ, ◌+◌, Bool, not, Option, none, some, is_some, List, Outcome, returned, raised, nat_eq,
  if◌then◌else◌,
}
use emergence_os.Base.Int.{ℤ}
use emergence_os.Budget.{ResourceBudget}
use emergence_os.Definition.{ProcessDefinition}
use emergence_os.Event.{process_created, process_ready}
use emergence_os.Goals.{GoalRegistry, associate_process, budget_for_goal}
use emergence_os.Kernel.{Kernel, Did, and_then}
use emergence_os.Kernel.Publish.{publish_event}
use emergence_os.Mailbox
use emergence_os.Process
use emergence_os.Process.{Process, new_process}
use emergence_os.Registries.ProcessRegistry
use emergence_os.Registries.ProcessTable
use emergence_os.Scheduler.{enqueue}
use emergence_os.Security.{capabilities_for_definition, grant_all}

-- The arguments of `spawn` after the definition.
pub record SpawnRequest : Type 0 where
  pub goal_id : Option ℕ
  pub parent_process_id : Option ℕ
  pub priority : ℤ
  pub depends_on : List ℕ
  pub causation_id : Option ℕ
  pub correlation_id : Option ℕ
  pub budget : Option ResourceBudget

-- The first of the three budgets that is there.
unfoldable pub or_goal_budget : Option ResourceBudget → Option ℕ → Kernel → Option ResourceBudget
or_goal_budget (some b) goal_id k = some b
or_goal_budget none none k = none
or_goal_budget none (some goal_id) k = budget_for_goal goal_id k.goals

unfoldable pub or_default : Option ResourceBudget → ProcessDefinition → ResourceBudget
or_default none d = d.default_budget
or_default (some b) d = b

unfoldable pub budget_of : ProcessDefinition → SpawnRequest → Kernel → ResourceBudget
unfolding or_goal_budget or_default
budget_of d r k = or_default (or_goal_budget r.budget r.goal_id k) d

-- `if not exists: register`
unfoldable pub register_new : ProcessDefinition → Kernel → Did (Unit {0})
register_new d k =
    if ProcessRegistry.exists d.name k.registry
    then (returned tt, k)
    else registered (ProcessRegistry.register d k.registry)
  where
    registered : Outcome ProcessRegistry.ProcessRegistry → Did (Unit {0})
    registered (returned registry) = (returned tt, record k { registry = registry })
    registered (raised e) = (raised e, k)

-- The mailbox and the capabilities of a new process.
unfoldable pub equip : Process → Kernel → Kernel
equip p k = record k {
  mailboxes = Mailbox.create p.process_id k.mailboxes;
  capabilities = grant_all p.process_id (capabilities_for_definition p.definition) k.capabilities;
}

-- `process_table.add`
unfoldable pub admit : Process → Kernel → Did (Unit {0})
admit p k = added (ProcessTable.add p k.process_table)
  where
    added : Outcome ProcessTable.ProcessTable → Did (Unit {0})
    added (returned table) = (returned tt, record k { process_table = table })
    added (raised e) = (raised e, k)

-- `associate_process`, for a goal that is given.
unfoldable pub associate :
    (goal_id : Option ℕ) → (process_id : ℕ) → (as_root : Bool) → Kernel → Did (Unit {0})
associate none process_id as_root k = (returned tt, k)
associate (some goal_id) process_id as_root k =
    associated (associate_process goal_id process_id as_root k.clock k.goals)
  where
    associated : Outcome GoalRegistry → Did (Unit {0})
    associated (returned goals) = (returned tt, record k { goals = goals })
    associated (raised e) = (raised e, k)

-- The correlation id that is given, or a new one.
abbrev pub correlation_of : Option ℕ → Kernel → ℕ × Kernel
correlation_of (some c) k = (c, k)
correlation_of none k = (k.next_id, record k { next_id = k.next_id + 1 })

-- The association with the goal, and the two events.
unfoldable pub introduce :
    (goal_id parent causation : Option ℕ) (process_id correlation : ℕ) → Kernel → Did ℕ
unfolding associate publish_event
introduce goal_id parent causation process_id correlation k =
    and_then (associate goal_id process_id (not (is_some parent)) k) λ _ k₁.
      let (created, k₂) =
        publish_event process_created process_id (some correlation) causation k₁ in
      let (_, k₃) =
        publish_event process_ready process_id (some correlation) (some created.event_id) k₂ in
      (returned process_id, k₃)

-- The part of `spawn` from the transition to READY on.
unfoldable pub launch : SpawnRequest → Process → Kernel → Did ℕ
unfolding admit introduce
launch r p k =
    and_then (Process.ready k.clock p, k)
      λ q k₁. and_then (admit q k₁) λ _ k₂.
        let k₃ = record k₂ {
          scheduler = enqueue q.process_id r.priority r.depends_on k₂.scheduler;
        } in
        let (correlation, k₄) = correlation_of r.correlation_id k₃ in
        introduce r.goal_id r.parent_process_id r.causation_id q.process_id correlation k₄

-- `Process(...)`
unfoldable pub process_of : ProcessDefinition → SpawnRequest → Kernel → Process
unfolding budget_of
process_of d r k = new_process d r.goal_id r.parent_process_id (budget_of d r k) k.next_id k.clock

unfoldable pub spawn : ProcessDefinition → SpawnRequest → Kernel → Did ℕ
unfolding register_new process_of equip launch
spawn d r k = and_then (register_new d k) λ _ k₁.
    let p = process_of d r k₁ in launch r p (equip p (record k₁ { next_id = k₁.next_id + 1 }))
