-- ===== src/Registries/Views.antt =====
-- Each registry is a partial map from keys to entries that never overwrites an entry.
use emergence_os.Base.{
  ℕ, String, ◌≡◌, refl, Bool, true, false, Option, none, some, [], ◌∷◌, Outcome, returned, raised,
  Error, returned-injective, process_already_exists, process_not_found,
  definition_already_registered, definition_not_found, Hashable, nat_eq, string_eq, ◌==◌, ==_refl,
  arith, if◌then◌else◌, is_some, Bool-cases, inl, inr, subst,
}
use emergence_os.Base.Dict
use emergence_os.Base.Dict.{Dict}
use emergence_os.Definition.{ProcessDefinition, runner_key}
use emergence_os.Process.{Process}
use emergence_os.Registries.{or_raise}
use emergence_os.Registries.ProcessTable
use emergence_os.Registries.ProcessTable.{ProcessTable}
use emergence_os.Registries.ProcessRegistry
use emergence_os.Registries.ProcessRegistry.{ProcessRegistry}
use emergence_os.Registries.Executor
use emergence_os.Registries.Executor.{Executor}

-- What a client relies on. `view` is the map that a registry stands for: a lookup finds what the
-- map has, an added entry is new and is found afterwards, and a refused one has a key that is taken.
pub record IsPartialMap {T K V E : Type 0} ⦃h : Hashable K⦄ (key : V → K) (entry : V → E)
    (duplicate missing : Error) (empty : T) (add : V → T → Outcome T) (drop : K → T → T)
    (get : K → T → Outcome E) : Type 0 where
  pub view : T → K → Option E
  pub view-empty : (k : K) → view empty k ≡ none
  pub get-view : (k : K) (t : T) → get k t ≡ or_raise missing (view t k)
  pub add-eq-raised : (v : V) (t : T) → is_some (view t (key v)) ≡ true → add v t ≡ raised duplicate
  pub add-eq-returned :
      (v : V) (t : T)
      → is_some (view t (key v)) ≡ false
      → (t' : T) × (add v t ≡ returned t')
        × ((j : K) → view t' j ≡ (if key v == j then some (entry v) else view t j))
  pub view-drop : (k j : K) (t : T) → view (drop k t) j ≡ (if k == j then none else view t j)

module _ {K V E : Type 0} ⦃h : Hashable K⦄ (key : V → K) (entry : V → E) where
  -- The body that the three registries share.
  abbrev add_entry : Error → V → Dict K E → Outcome (Dict K E)
  add_entry duplicate v d =
      if Dict.has (key v) d then raised duplicate else returned (Dict.put (key v) (entry v) d)

  dict-IsPartialMap :
      (duplicate missing : Error) (empty : Dict K E) (drop : K → Dict K E → Dict K E)
      → empty ≡ []
      → ((k j : K) (d : Dict K E) → Dict.get j (drop k d) ≡ (if k == j then none else Dict.get j d))
      → IsPartialMap key entry duplicate missing empty
          (add_entry duplicate)
          drop
          (λ k d. or_raise missing (Dict.get k d))
  dict-IsPartialMap duplicate missing empty drop e h = record {
    view = λ d k. Dict.get k d;
    view-empty = λ k. rw e (unfold Dict.get in refl);
    get-view = λ k d. refl;
    add-eq-raised = λ v d h. rw (Dict.has-eq-is_some (key v) d, h) refl;
    add-eq-returned = λ v d h. (
      Dict.put (key v) (entry v) d,
      rw (Dict.has-eq-is_some (key v) d, h) refl,
      λ j. Dict.get-put (key v) j (entry v) d,
    );
    view-drop = h;
  }

-- The table after `remove`, which leaves it as it is where it raises.
abbrev pub removed : ℕ → ProcessTable → ProcessTable
removed process_id table = elim (ProcessTable.remove process_id table) [
  | returned (process, table') ↦ table'
  | raised e ↦ table
]

get-removed :
    (k j : ℕ) (t : ProcessTable)
    → Dict.get j (removed k t) ≡ (if k == j then none else Dict.get j t)
unfolding ProcessTable.remove ProcessTable.remove_over
get-removed k j t = by_held (Dict.get k t) refl
  where
    by_held :
        (o : Option Process)
        → Dict.get k t ≡ o
        → Dict.get j (elim (ProcessTable.remove_over o k t) [
          | returned (process, table') ↦ table'
          | raised e ↦ t
        ])
          ≡ (if k == j then none else Dict.get j t)
    by_held none h = ground (arith, nat_eq.same_iff k j)
    by_held (some p) h = Dict.get-pop k j t

-- The process table is a partial map from process ids that never overwrites a process.
pub process_table-IsPartialMap :
    IsPartialMap
      (λ (p : Process). p.process_id)
      (λ p. p)
      process_already_exists
      process_not_found
      (ProcessTable.clear [])
      ProcessTable.add
      removed
      ProcessTable.get
unfolding ProcessTable.add ProcessTable.get
process_table-IsPartialMap =
    dict-IsPartialMap (λ (p : Process). p.process_id) (λ p. p) process_already_exists
      process_not_found [] removed refl get-removed

-- The registry of definitions is a partial map from names that never overwrites a definition.
pub process_registry-IsPartialMap :
    IsPartialMap
      (λ (d : ProcessDefinition). d.name)
      (λ d. d)
      definition_already_registered
      definition_not_found
      (ProcessRegistry.clear [])
      ProcessRegistry.register
      ProcessRegistry.unregister
      ProcessRegistry.get
unfolding ProcessRegistry.register ProcessRegistry.unregister ProcessRegistry.get
process_registry-IsPartialMap =
    dict-IsPartialMap (λ (d : ProcessDefinition). d.name) (λ d. d) definition_already_registered
      definition_not_found [] (λ k d. Dict.pop k d) refl (λ k j d. Dict.get-pop k j d)

-- What an accepted entry tells.
fresh :
    {A : Type 0} (b : Bool) (duplicate : Error) (x y : A)
    → (if b then raised duplicate else returned x) ≡ returned y
    → (b ≡ false) × (x ≡ y)
fresh true duplicate x y h = cc
fresh false duplicate x y h = (refl, returned-injective x y h)

pop-put :
    {V : Type 0} (k : ℕ) (v : V) (d : Dict ℕ V)
    → Dict.has k d ≡ false
    → Dict.pop k (Dict.put k v d) ≡ d
unfolding Dict.pop Dict.put Dict.has
pop-put k v [] h = rw (==_refl k) refl
pop-put k v ((j, w) ∷ d) h = elim (Bool-cases (j == k)) [
  | inl same ↦ ground arith
  | inr other ↦ rw (other, other, pop-put k v d (ground arith)) refl
]

-- Removing a process right after it was added gives it back and leaves the table as it was.
pub remove-add :
    (p : Process) (t t' : ProcessTable)
    → ProcessTable.add p t ≡ returned t'
    → ProcessTable.remove p.process_id t' ≡ returned (p, t)
unfolding ProcessTable.add ProcessTable.remove ProcessTable.remove_over
remove-add p t t' h =
    let (absent, same) = fresh _ _ _ _ h in
    subst (λ x. ProcessTable.remove p.process_id x ≡ returned (p, t)) same
      (rw
        (
          Dict.get-put p.process_id p.process_id p t,
          ==_refl p.process_id,
          pop-put p.process_id p t absent,
        )
        refl)

-- A runner that was accepted under a name runs exactly the definitions that have this name as their
-- runner key; every other definition is executed as before.
pub execute-register_runner :
    {A : Type 0} (run : (runner : ℕ) → ProcessDefinition → Outcome A) (d : ProcessDefinition)
    (name : String) (runner : ℕ) (e e' : Executor)
    → Executor.register_runner name runner e ≡ returned e'
    → Executor.execute run d e'
      ≡ (if name == runner_key d then run runner d else Executor.execute run d e)
unfolding Executor.register_runner Executor.execute
execute-register_runner run d name runner e e' h =
    let (absent, same) = fresh _ _ _ _ h in
    subst
      (λ x.
        Executor.execute run d x
        ≡ (if name == runner_key d then run runner d else Executor.execute run d e))
      same
      (elim (Bool-cases (name == runner_key d)) [
        | inl this ↦ rw (Dict.get-put name (runner_key d) runner e, this) refl
        | inr other ↦ rw (Dict.get-put name (runner_key d) runner e, other) refl
      ])
