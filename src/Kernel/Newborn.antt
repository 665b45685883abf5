-- ===== src/Kernel/Newborn.antt =====
-- What emergence/kernel/kernel.py gives a process that it spawns.
use emergence_os.Base.{
  ℕ, ◌+◌, ◌≡◌, refl, ap, ◌∙◌, true, false, ◌||◌, ◌&&◌, Option, none, some, [], returned,
  if◌then◌else◌, ◌==◌, ==_refl, nat_eq, string_eq, Bool-cases, inl, inr,
}
use emergence_os.Base.Bag
use emergence_os.Base.Dict
use emergence_os.Budget.{ResourceBudget}
use emergence_os.Definition.{ProcessDefinition}
use emergence_os.Goals.{GoalRecord, associate_process}
use emergence_os.Kernel.{Kernel, Did}
use emergence_os.Kernel.Publish.{publish_event, deliver}
use emergence_os.Kernel.Spawn.{
  SpawnRequest, budget_of, register_new, equip, admit, associate, introduce, launch, correlation_of,
  process_of, or_goal_budget, or_default, spawn,
}
use emergence_os.Mailbox
use emergence_os.Process
use emergence_os.Process.{Process, new_process}
use emergence_os.Registries.ProcessRegistry
use emergence_os.Registries.ProcessTable
use emergence_os.Security.{
  Capability, capability_eq, has, default_process_capabilities, capabilities_for_definition,
}
use emergence_os.Security.Grants.{declared, has-grant_all, has-capabilities_for_definition}
use emergence_os.State.{ProcessState}

-- The goal of a request is registered, if there is one.
abbrev pub IsKnown : Option ℕ → Kernel → Type 0
IsKnown none k = Unit {0}
IsKnown (some goal_id) k = (r : GoalRecord) × (Dict.get goal_id k.goals.records ≡ some r)

elsewhere-IsKnown : (g : Option ℕ) (k k' : Kernel) → k'.goals ≡ k.goals → IsKnown g k → IsKnown g k'
elsewhere-IsKnown none k k' same h = tt
elsewhere-IsKnown (some g) k k' same (r, h) = (r, ap (λ m. Dict.get g m.records) same ∙ h)

-- The parts of the kernel that the rest of a spawn leaves alone.
abbrev Settled : (process_id : ℕ) → Kernel → Did ℕ → Type 0
Settled process_id k result =
    (result.0 ≡ returned process_id)
    × (result.1.process_table ≡ k.process_table)
    × (result.1.capabilities ≡ k.capabilities)
    × (result.1.mailboxes ≡ k.mailboxes)

introduce-Settled :
    (goal_id parent causation : Option ℕ) (process_id correlation : ℕ) (k : Kernel)
    → IsKnown goal_id k
    → Settled process_id k (introduce goal_id parent causation process_id correlation k)
unfolding introduce publish_event deliver associate associate_process
introduce-Settled none parent causation process_id correlation k known = (refl, refl, refl, refl)
introduce-Settled (some g) parent causation process_id correlation k known =
    rw known.1 (refl, refl, refl, refl)

-- The kernel with the number of the next UUID drawn or not.
correlated-Settled :
    (c goal_id parent causation : Option ℕ) (process_id : ℕ) (k : Kernel)
    → IsKnown goal_id k
    → Settled process_id k (
        introduce goal_id parent causation process_id (correlation_of c k).0 (correlation_of c k).1)
correlated-Settled (some c) goal_id parent causation process_id k known =
    introduce-Settled goal_id parent causation process_id c k known
correlated-Settled none goal_id parent causation process_id k known =
    introduce-Settled goal_id parent causation process_id k.next_id
      (record k { next_id = k.next_id + 1 }) (elsewhere-IsKnown goal_id k _ refl known)

-- What a launch makes of a created process.
abbrev Launched : Process → Kernel → Did ℕ → Type 0
Launched q k result =
    (result.0 ≡ returned q.process_id)
    × (result.1.process_table ≡ Dict.put q.process_id q k.process_table)
    × (result.1.capabilities ≡ k.capabilities)
    × (result.1.mailboxes ≡ k.mailboxes)

ready_new :
    (d : ProcessDefinition) (g parent : Option ℕ) (b : ResourceBudget) (i now later : ℕ)
    → Process.ready later (new_process d g parent b i now)
      ≡ returned (record (new_process d g parent b i now) { state = ProcessState.ready })
unfolding Process.ready
ready_new d g parent b i now later = refl

launch-Launched :
    (r : SpawnRequest) (p q : Process) (k : Kernel)
    → Process.ready k.clock p ≡ returned q
    → Dict.has q.process_id k.process_table ≡ false
    → IsKnown r.goal_id k
    → Launched q k (launch r p k)
unfolding launch admit ProcessTable.add
launch-Launched r p q k readied fresh known =
    rw (readied, fresh)
      (correlated-Settled r.correlation_id r.goal_id r.parent_process_id r.causation_id q.process_id
        _ (elsewhere-IsKnown r.goal_id k _ refl known))

registers :
    (d : ProcessDefinition) (k : Kernel)
    → (registry : ProcessRegistry.ProcessRegistry) × (register_new d k
        ≡ (returned tt, record k { registry = registry }))
unfolding register_new ProcessRegistry.register ProcessRegistry.exists
registers d k = elim (Bool-cases (Dict.has d.name k.registry)) [
  | inl known ↦ (k.registry, rw known refl)
  | inr new ↦ (Dict.put d.name d k.registry, rw new refl)
]

budget_elsewhere :
    (b : Option ResourceBudget) (g : Option ℕ) (k : Kernel)
    (registry : ProcessRegistry.ProcessRegistry)
    → or_goal_budget b g (record k { registry = registry }) ≡ or_goal_budget b g k
unfolding or_goal_budget
budget_elsewhere (some b) g k registry = refl
budget_elsewhere none none k registry = refl
budget_elsewhere none (some g) k registry = refl

-- The process that a spawn adds.
abbrev pub newborn : ProcessDefinition → SpawnRequest → Kernel → Process
newborn d r k =
    record (new_process d r.goal_id r.parent_process_id (budget_of d r k) k.next_id k.clock) {
      state = ProcessState.ready;
    }

-- The kernel in which the new process is launched.
abbrev before_launch :
    ProcessDefinition → SpawnRequest → Kernel → ProcessRegistry.ProcessRegistry → Kernel
before_launch d r k registry =
    let k₁ = record k { registry = registry } in
    equip (process_of d r k₁) (record k₁ { next_id = k.next_id + 1 })

spawn-Launched :
    (d : ProcessDefinition) (r : SpawnRequest) (k : Kernel)
    → Dict.has k.next_id k.process_table ≡ false
    → IsKnown r.goal_id k
    → (registry : ProcessRegistry.ProcessRegistry) × Launched
        (newborn d r k)
        (before_launch d r k registry)
        (spawn d r k)
unfolding spawn process_of equip budget_of
spawn-Launched d r k fresh known =
    let (registry, same) = registers d k in
    let k₁ = record k { registry = registry } in
    let funds : budget_of d r k₁ ≡ budget_of d r k =
      ap (λ o. or_default o d) (budget_elsewhere r.budget r.goal_id k registry) in
    let readied : Process.ready k.clock (process_of d r k₁) ≡ returned (newborn d r k) =
      ready_new d r.goal_id r.parent_process_id (budget_of d r k₁) k.next_id k.clock k.clock
      ∙ ap
          (λ b. returned (record (new_process d r.goal_id r.parent_process_id b k.next_id k.clock) {
            state = ProcessState.ready;
          }))
          funds in
    (
      registry,
      rw same (
          launch-Launched r (process_of d r k₁) (newborn d r k) (before_launch d r k registry)
            readied fresh (elsewhere-IsKnown r.goal_id k _ refl known)),
    )

exists-create : (i : ℕ) (m : Mailbox.MailboxManager) → Mailbox.exists i (Mailbox.create i m) ≡ true
unfolding Mailbox.exists Mailbox.create
exists-create i m = elim (Bool-cases (Dict.has i m)) [
  | inl known ↦ rw known known
  | inr new ↦ rw new (Dict.has-put i i [] m ∙ rw (==_refl i) refl)
]

-- A spawn under a new id, for no goal or for one that is registered, returns the id: the process is
-- in the table and READY, with the budget of the request, of the goal or of the definition; it holds
-- the default capabilities and those that its definition names, besides any that were held under this
-- id before; it has a mailbox; and no other process and no other process's capability has changed.
pub spawn-admits :
    (d : ProcessDefinition) (r : SpawnRequest) (k : Kernel) (j : ℕ) (c : Capability)
    → Dict.has k.next_id k.process_table ≡ false
    → IsKnown r.goal_id k
    → ((spawn d r k).0 ≡ returned k.next_id)
      × (Dict.get j (spawn d r k).1.process_table
          ≡ (if k.next_id == j then some (newborn d r k) else Dict.get j k.process_table))
      × (has j c (spawn d r k).1.capabilities ≡ (
          ((k.next_id == j)
            && (declared c d.required_permissions || Bag.has c default_process_capabilities))
          || has j c k.capabilities))
      × (Mailbox.exists k.next_id (spawn d r k).1.mailboxes ≡ true)
unfolding equip process_of
spawn-admits d r k j c fresh known =
    let (registry, launched) = spawn-Launched d r k fresh known in
    let (returns, table, granted, boxes) = launched in
    (
      returns,
      ap (λ t. Dict.get j t) table ∙ Dict.get-put k.next_id j (newborn d r k) k.process_table,
      ap (λ m. has j c m) granted
          ∙ (has-grant_all k.next_id j (capabilities_for_definition d) c k.capabilities
              ∙ ap (λ b. ((k.next_id == j) && b) || has j c k.capabilities)
                  (has-capabilities_for_definition c d)),
      ap (λ m. Mailbox.exists k.next_id m) boxes ∙ exists-create k.next_id k.mailboxes,
    )
