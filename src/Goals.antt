-- ===== src/Goals.antt =====
-- emergence/cognitive/goal_registry.py: which goals are registered, and which processes work for
-- them. The dictionaries of the views and the snapshot are left out.
mod Policy
pub mod Health
pub mod Failed
pub mod Degraded
pub mod Ownership
pub mod Runs
mod Examples
unfoldable pub use Policy.*
use emergence_os.Base.{
  ℕ, String, Bool, true, false, not, ◌||◌, Option, none, some, is_some, List, [], ◌∷◌, Outcome,
  returned, raised, goal_not_registered, ◌>>=◌, if◌then◌else◌, ◌==◌, select, nat_eq, string_eq,
}
use emergence_os.Base.Bag
use emergence_os.Base.Dict
use emergence_os.Base.Dict.{Dict}
use emergence_os.Budget.{ResourceBudget}

pub data GoalKind : Type 0 where
  one_shot persistent : GoalKind

pub record GoalRecord : Type 0 where
  pub goal_id : ℕ
  pub description : String
  pub kind : GoalKind
  pub root_process_id : Option ℕ
  pub child_process_ids : List ℕ
  pub registered_at : ℕ
  pub last_event_at : Option ℕ
  pub pipeline_stage : Option String
  pub archived : Bool
  pub has_process_failure : Bool
  pub has_budget_exceeded : Bool
  pub space_id : String
  pub workload : String
  pub policy : Option GoalPolicy

add_root : Option ℕ → List ℕ → List ℕ
add_root none ids = ids
add_root (some root) ids = Bag.add root ids

unfoldable pub all_process_ids : GoalRecord → List ℕ
unfolding add_root
all_process_ids r = add_root r.root_process_id r.child_process_ids

-- `_records` and `_process_to_goal`
pub record GoalRegistry : Type 0 where
  pub records : Dict ℕ GoalRecord
  pub process_to_goal : Dict ℕ ℕ

abbrev pub new_registry : GoalRegistry
new_registry = record { records = []; process_to_goal = [] }

-- GoalRecord(goal_id=…, description=…, kind=…, root_process_id=…)
abbrev pub new_record : (goal_id : ℕ) → String → GoalKind → Option ℕ → (now : ℕ) → GoalRecord
new_record goal_id description kind root now = record {
  goal_id = goal_id;
  description = description;
  kind = kind;
  root_process_id = root;
  child_process_ids = [];
  registered_at = now;
  last_event_at = none;
  pipeline_stage = none;
  archived = false;
  has_process_failure = false;
  has_budget_exceeded = false;
  space_id = "default";
  workload = "research";
  policy = none;
}

abbrev pub put_record : GoalRecord → GoalRegistry → GoalRegistry
put_record r g = record g { records = Dict.put r.goal_id r g.records }

-- `self._process_to_goal[str(root_process_id)] = key`, for a root that is given.
abbrev pub map_root : Option ℕ → (goal_id : ℕ) → GoalRegistry → GoalRegistry
map_root none goal_id g = g
map_root (some root) goal_id g = record g {
  process_to_goal = Dict.put root goal_id g.process_to_goal;
}

abbrev or_root : Option ℕ → Option ℕ → Option ℕ
or_root none old = old
or_root (some root) old = some root

-- `register`, by the record that is held.
unfoldable pub register_over :
    Option GoalRecord
    → (goal_id : ℕ) → String
    → GoalKind
    → (root : Option ℕ) → (now : ℕ) → GoalRegistry
    → GoalRegistry
register_over none goal_id description kind root now g =
    map_root root goal_id (put_record (new_record goal_id description kind root now) g)
register_over (some r) goal_id description kind root now g = map_root root goal_id (
    put_record
      (record r {
        description = description;
        kind = kind;
        root_process_id = or_root root r.root_process_id;
      })
      g)

unfoldable pub register :
    (goal_id : ℕ) → String → GoalKind → (root : Option ℕ) → (now : ℕ) → GoalRegistry → GoalRegistry
unfolding register_over
register goal_id description kind root now g =
    register_over (Dict.get goal_id g.records) goal_id description kind root now g

-- `_require`
unfoldable pub found : Option GoalRecord → Outcome GoalRecord
found none = raised goal_not_registered
found (some r) = returned r

abbrev pub touch : (now : ℕ) → GoalRecord → GoalRecord
touch now r = record r { last_event_at = some now }

-- The root after `associate_process`.
abbrev root_after : (as_root : Bool) → (process_id : ℕ) → Option ℕ → Option ℕ
root_after as_root process_id root = if as_root || not (is_some root) then some process_id else root

-- `associate_process` for a record that is held.
abbrev pub join : (process_id : ℕ) → (as_root : Bool) → (now : ℕ) → GoalRecord → GoalRecord
join process_id as_root now r = touch now (record r {
  child_process_ids = Bag.add process_id r.child_process_ids;
  root_process_id = root_after as_root process_id r.root_process_id;
})

unfoldable pub associate_over :
    Option GoalRecord
    → (goal_id process_id : ℕ) → (as_root : Bool) → (now : ℕ) → GoalRegistry
    → Outcome GoalRegistry
associate_over none goal_id process_id as_root now g = raised goal_not_registered
associate_over (some r) goal_id process_id as_root now g =
    returned (record (put_record (join process_id as_root now r) g) {
      process_to_goal = Dict.put process_id goal_id g.process_to_goal;
    })

unfoldable pub associate_process :
    (goal_id process_id : ℕ) → (as_root : Bool) → (now : ℕ) → GoalRegistry → Outcome GoalRegistry
unfolding associate_over
associate_process goal_id process_id as_root now g =
    associate_over (Dict.get goal_id g.records) goal_id process_id as_root now g

unfoldable pub goal_for_process : ℕ → GoalRegistry → Option ℕ
goal_for_process process_id g = Dict.get process_id g.process_to_goal

unfoldable pub get : ℕ → GoalRegistry → Option GoalRecord
get goal_id g = Dict.get goal_id g.records

unfoldable pub list_all : (include_archived : Bool) → GoalRegistry → List GoalRecord
list_all include_archived g =
    let records = Dict.values g.records in
    if include_archived then records else select (λ r. not r.archived) records

-- The records of `list_views`, which the source makes views of.
unfoldable pub list_in_space :
    (include_archived : Bool) → (space_id : Option String) → GoalRegistry → List GoalRecord
unfolding list_all
list_in_space include_archived none g = list_all include_archived g
list_in_space include_archived (some space_id) g =
    select (λ r. r.space_id == space_id) (list_all include_archived g)

-- The loop of `sync_from_cognitive` over the ids and descriptions of the goals.
unfoldable pub sync_from_cognitive :
    (goals : List (ℕ × String)) → (now : ℕ) → GoalRegistry → GoalRegistry
unfolding register
sync_from_cognitive [] now g = g
sync_from_cognitive ((goal_id, description) ∷ goals) now g =
    sync_from_cognitive goals now
      (if Dict.has goal_id g.records then g else register goal_id description one_shot none now g)

-- A change of a record that is held; a goal that is not registered raises.
abbrev pub update :
    (GoalRecord → GoalRecord) → Outcome GoalRecord → GoalRegistry → Outcome GoalRegistry
update f (returned r) g = returned (put_record (f r) g)
update f (raised e) g = raised e

unfoldable pub set_space : (goal_id : ℕ) → String → GoalRegistry → Outcome GoalRegistry
unfolding found
set_space goal_id space_id g =
    update (λ r. record r { space_id = space_id }) (found (Dict.get goal_id g.records)) g

-- `set_policy` on a registry to which no kernel is bound.
unfoldable pub set_policy : (goal_id : ℕ) → GoalPolicy → GoalRegistry → Outcome GoalRegistry
unfolding found
set_policy goal_id policy g =
    update (λ r. record r { policy = some policy; workload = policy.workload })
      (found (Dict.get goal_id g.records)) g

-- The assignments of `reset_for_rerun`.
abbrev pub restarted : (now : ℕ) → GoalRecord → GoalRecord
restarted now r = touch now (record r {
  archived = false;
  has_process_failure = false;
  has_budget_exceeded = false;
  pipeline_stage = some "starting";
  child_process_ids = [];
  root_process_id = none;
})

unfoldable pub reset_for_rerun : (goal_id now : ℕ) → GoalRegistry → Outcome GoalRegistry
unfolding found
reset_for_rerun goal_id now g = update (restarted now) (found (Dict.get goal_id g.records)) g

-- The loop of `remove` over the processes of the record.
unfoldable pub unmap : List ℕ → Dict ℕ ℕ → Dict ℕ ℕ
unmap [] owners = owners
unmap (p ∷ ids) owners = unmap ids (Dict.pop p owners)

unfoldable pub remove_over : Option GoalRecord → (goal_id : ℕ) → GoalRegistry → Outcome GoalRegistry
unfolding unmap all_process_ids
remove_over none goal_id g = raised goal_not_registered
remove_over (some r) goal_id g = returned (record {
  records = Dict.pop goal_id g.records;
  process_to_goal = unmap (all_process_ids r) g.process_to_goal;
})

unfoldable pub remove : (goal_id : ℕ) → GoalRegistry → Outcome GoalRegistry
unfolding remove_over
remove goal_id g = remove_over (Dict.get goal_id g.records) goal_id g

unfoldable pub archive : (goal_id now : ℕ) → GoalRegistry → Outcome GoalRegistry
unfolding found
archive goal_id now g =
    update (λ r. touch now (record r { archived = true; pipeline_stage = some "archived" }))
      (found (Dict.get goal_id g.records)) g

budget_of : Option GoalPolicy → Option ResourceBudget
budget_of none = none
budget_of (some p) = some p.budget

record_budget : Option GoalRecord → Option ResourceBudget
unfolding budget_of
record_budget none = none
record_budget (some r) = budget_of r.policy

unfoldable pub budget_for_goal : ℕ → GoalRegistry → Option ResourceBudget
unfolding record_budget
budget_for_goal goal_id g = record_budget (Dict.get goal_id g.records)
