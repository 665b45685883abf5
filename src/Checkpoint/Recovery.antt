-- ===== src/Checkpoint/Recovery.antt =====
-- What a checkpoint of emergence/checkpoint/checkpoint_manager.py gives back.
use emergence_os.Base.{
  ℕ, String, ◌≡◌, refl, ◌∙◌, false, none, some, [], ◌∷◌, returned, ◌==◌, ==_refl, string_eq, ◌&&◌,
  if◌then◌else◌, nat_eq, Bool-cases, inl, inr, arith, subst,
}
use emergence_os.Base.Bag
use emergence_os.Base.Bag.{Distinct}
use emergence_os.Base.Dict
use emergence_os.Base.Dict.{Dict}
use emergence_os.Base.Keys.{Distinct-keys-put}
use emergence_os.Base.Value.{Value}
use emergence_os.Budget.{BudgetTracker, usage, usage_of}
use emergence_os.Memory
use emergence_os.Memory.{
  Memory, MemoryKey, memory_key_eq, working, collect, is_working, get_or, scoped, legacy,
}
use emergence_os.Memory.Lookup.{peek-store}
use emergence_os.Memory.Snapshot.{get-working_snapshot}
use emergence_os.Process.{Process}
use emergence_os.Checkpoint.{
  Checkpoint, Recoverable, get, create_checkpoint, restore_checkpoint, restore_found, store_all,
}

Distinct-keys-collect :
    (space : String) (p : ℕ) (entries : Dict MemoryKey Value) (d : Dict String Value)
    → Distinct (Dict.keys d)
    → Distinct (Dict.keys (collect space p entries d))
unfolding collect
Distinct-keys-collect space p [] d h = h
Distinct-keys-collect space p ((k, v) ∷ entries) d h = elim (Bool-cases (is_working space p k)) [
  | inl own ↦
      rw own
        (Distinct-keys-collect space p entries (Dict.put k.key v d) (Distinct-keys-put k.key v d h))
  | inr other ↦ rw other (Distinct-keys-collect space p entries d h)
]

has-keys :
    (j : String) (d : Dict String Value) → Bag.has j (Dict.keys d) ≡ false → Dict.get j d ≡ none
unfolding Bag.has Dict.keys Dict.get
has-keys j [] h = refl
has-keys j ((i, w) ∷ d) h = ground (arith, has-keys j d)

module _ (space_of : ℕ → String) where
  peek-store_all :
      (p : ℕ) (d : Dict String Value) (j : String) (default : Value) (m : Memory)
      → Distinct (Dict.keys d)
      → Memory.peek space_of p working j default (store_all space_of p d m)
        ≡ get_or (Memory.peek space_of p working j default m) (Dict.get j d)
  unfolding store_all Dict.get Dict.keys get_or
  peek-store_all p [] j default m h = refl
  peek-store_all p ((k, v) ∷ d) j default m h =
      let m' = Memory.store space_of p working k v m in
      peek-store_all p d j default m' h.1 ∙ elim (Bool-cases (k == j)) [
        | inl this ↦
            let named = (string_eq.same_iff k j).0 this in
            rw
              (
                has-keys j d (subst (λ x. Bag.has x (Dict.keys d) ≡ false) named h.0),
                peek-store space_of p p working working k j v default m,
                ==_refl p,
                this,
              )
              refl
        | inr other ↦
            rw (peek-store space_of p p working working k j v default m, ==_refl p, other) refl
      ]

  get-create :
      (i now offset : ℕ) (p : Process) (r : Recoverable)
      → get i (create_checkpoint space_of i now offset p r).1.checkpoints
        ≡ some (create_checkpoint space_of i now offset p r).0
  unfolding create_checkpoint get
  get-create i now offset p r = Dict.get-put i i _ r.checkpoints.checkpoints ∙ rw (==_refl i) refl

  Distinct-keys-snapshot :
      (p : ℕ) (m : Memory) → Distinct (Dict.keys (Memory.working_snapshot space_of p m))
  unfolding Memory.working_snapshot Dict.keys
  Distinct-keys-snapshot p m = Distinct-keys-collect (space_of p) p m.entries [] tt

  restored :
      (c : Checkpoint) (p : Process) (r : Recoverable) (j : String) (default : Value)
      → Distinct (Dict.keys c.working_memory)
      → (r' : Recoverable) × (restore_found space_of (some c) p r ≡ returned (c, r'))
        × (usage_of p.process_id r'.budgets ≡ c.resource_usage)
        × (Memory.peek space_of p.process_id working j default r'.memory
            ≡ get_or
                (Memory.peek space_of p.process_id working j default r.memory)
                (Dict.get j c.working_memory))
  unfolding restore_found usage_of
  restored c p r j default h = (
    _,
    refl,
    rw
        (
          Dict.get-put p.process_id p.process_id c.resource_usage (usage p.process_id r.budgets).1,
          ==_refl p.process_id,
        )
        refl,
    peek-store_all p.process_id c.working_memory j default r.memory h,
  )

  -- A process that is restored from a checkpoint, whatever happened to its memory and to the budgets
  -- since then, has the usage that was recorded when the checkpoint was made, and reads in its
  -- working memory, under every key that it had then, the value that it read then; under the other
  -- keys it reads what it would read without the restore. This for a memory that, when the
  -- checkpoint was made, held no key twice and did not hold the key in both layouts.
  pub restore-create :
      (i now offset : ℕ) (p : Process) (r : Recoverable) (memory : Memory) (budgets : BudgetTracker)
      (j : String) (default : Value)
      → Distinct (Dict.keys r.memory.entries)
      → (Dict.has (scoped space_of p.process_id working j) r.memory.entries
          && Dict.has (legacy space_of p.process_id working j) r.memory.entries)
        ≡ false
      → let (c, r') = create_checkpoint space_of i now offset p r in
        (r'' : Recoverable) × (restore_checkpoint space_of i p
            (record r' { memory = memory; budgets = budgets })
          ≡ returned (c, r''))
        × (usage_of p.process_id r''.budgets ≡ usage_of p.process_id r.budgets)
        × (Memory.peek space_of p.process_id working j default r''.memory ≡ (
            if Memory.exists space_of p.process_id working j r.memory
            then Memory.peek space_of p.process_id working j default r.memory
            else Memory.peek space_of p.process_id working j default memory))
  unfolding restore_checkpoint create_checkpoint
  restore-create i now offset p r memory budgets j default distinct one =
      let (c, r') = create_checkpoint space_of i now offset p r in
      let changed : Recoverable = record r' { memory = memory; budgets = budgets } in
      let before = Memory.peek space_of p.process_id working j default memory in
      let (r'', done, used, kept) =
        restored c p changed j default (Distinct-keys-snapshot p.process_id r.memory) in
      (
        r'',
        rw (get-create i now offset p r) done,
        used,
        kept ∙ get-working_snapshot space_of p.process_id j default before r.memory distinct one,
      )
