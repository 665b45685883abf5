-- ===== src/Goals/Runs.antt =====
-- What happens to the registry of emergence/cognitive/goal_registry.py over time.
use emergence_os.Base.{
  ℕ, String, ◌≡◌, refl, ◌∙◌, Bool, none, some, returned, ==_refl, nat_eq, ◌>>=◌,
}
use emergence_os.Base.Dict
use emergence_os.Base.Dict.{Dict}
use emergence_os.Goals.{
  GoalKind, GoalPolicy, GoalRecord, GoalRegistry, new_registry, register, associate_process,
  all_process_ids, set_space, set_policy, archive, remove, remove_over, unmap, found,
  reset_for_rerun, goal_for_process, restarted, add_root, get,
}
use emergence_os.Goals.Ownership.{
  IsOwned, register-IsOwned, associate_process-IsOwned, update-IsOwned, remove-IsOwned,
  new_registry-IsOwned,
}

-- What the kernel and its clients do with the registry, apart from restarting a goal and from
-- registering it with a root process, which is mapped to the goal without being a child of it.
pub data Step : GoalRegistry → GoalRegistry → Type 0 where
  registered :
      (i : ℕ) (description : String) (kind : GoalKind) (now : ℕ) (g : GoalRegistry)
      → Step g (register i description kind none now g)
  associated :
      (i p : ℕ) (as_root : Bool) (now : ℕ) (g g' : GoalRegistry)
      → associate_process i p as_root now g ≡ returned g'
      → Step g g'
  moved :
      (i : ℕ) (space : String) (g g' : GoalRegistry) → set_space i space g ≡ returned g' → Step g g'
  governed :
      (i : ℕ) (policy : GoalPolicy) (g g' : GoalRegistry)
      → set_policy i policy g ≡ returned g'
      → Step g g'
  archived : (i now : ℕ) (g g' : GoalRegistry) → archive i now g ≡ returned g' → Step g g'
  removed : (i : ℕ) (g g' : GoalRegistry) → remove i g ≡ returned g' → Step g g'

pub data Reachable : GoalRegistry → Type 0 where
  initial : Reachable new_registry
  next : {g h : GoalRegistry} → Reachable g → Step g h → Reachable h

Step-IsOwned : {g h : GoalRegistry} → Step g h → IsOwned g → IsOwned h
unfolding set_space set_policy archive
Step-IsOwned (registered i description kind now g) v = register-IsOwned i description kind now g v
Step-IsOwned (associated i p as_root now g g' e) v =
    associate_process-IsOwned i p as_root now g g' v e
Step-IsOwned (moved i space g g' e) v = update-IsOwned _ i g g' v (λ r. refl) (λ r. refl) e
Step-IsOwned (governed i policy g g' e) v = update-IsOwned _ i g g' v (λ r. refl) (λ r. refl) e
Step-IsOwned (archived i now g g' e) v = update-IsOwned _ i g g' v (λ r. refl) (λ r. refl) e
Step-IsOwned (removed i g g' e) v = remove-IsOwned i g g' v e

-- As long as no goal is restarted and none is registered with a root process: every process that is
-- mapped to a goal is a child of that goal, which is registered under its id, whatever else is
-- registered, associated, changed or removed.
pub Reachable-IsOwned : {g : GoalRegistry} → Reachable g → IsOwned g
Reachable-IsOwned initial = new_registry-IsOwned
Reachable-IsOwned (next r st) = Step-IsOwned st (Reachable-IsOwned r)

-- When a registered goal is restarted and then removed, every process that was mapped to it stays
-- mapped to it, although there is no such goal any more.
pub goal_for_process-remove_restarted :
    (p i now : ℕ) (r : GoalRecord) (g : GoalRegistry)
    → get i g ≡ some r
    → r.goal_id ≡ i
    → (g' : GoalRegistry) × ((reset_for_rerun i now g >>= λ restarted_g. remove i restarted_g)
        ≡ returned g')
      × (goal_for_process p g' ≡ goal_for_process p g)
      × (get i g' ≡ none)
unfolding reset_for_rerun remove goal_for_process found get remove_over all_process_ids add_root
    unmap
goal_for_process-remove_restarted p i now r g h k = (
  record {
    records = Dict.pop i (Dict.put r.goal_id (restarted now r) g.records);
    process_to_goal = g.process_to_goal;
  },
  rw h (
      rw (Dict.get-put r.goal_id i (restarted now r) g.records, (nat_eq.same_iff r.goal_id i).1 k)
        refl),
  refl,
  Dict.get-pop i i (Dict.put r.goal_id (restarted now r) g.records) ∙ rw (==_refl i) refl,
)
