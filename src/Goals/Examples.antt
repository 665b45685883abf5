-- ===== src/Goals/Examples.antt =====
-- A goal with one process, which is restarted and then removed.
use emergence_os.Base.{
  ℕ, String, ◌≡◌, refl, sym, ap, ◌∙◌, inl, inr, Bool-cases, arith, All, Option, some-injective,
  ◌==◌, true, false, none, some, [], ◌∷◌, returned, ◌>>=◌, nat_eq, string_eq,
}
use emergence_os.Base.Bag
use emergence_os.Base.Dict
use emergence_os.Goals.{
  one_shot, GoalRegistry, GoalRecord, new_registry, new_record, register, associate_process, join,
  reset_for_rerun, remove, goal_for_process, get, resolve_goal_policy,
}
use emergence_os.Base.Int.{pos}
use emergence_os.Base.Value.{Value, integer}
use emergence_os.Event.{Event, goal_completed}
use emergence_os.Goals.Health.{Monitor, HealthContext, degraded, health_changed, compute_health}
use emergence_os.Goals.Failed.{HasFailed, IsDegradedFor}
use emergence_os.Goals.Degraded.{on_events, on_events-degraded}
use emergence_os.Goals.Ownership.{IsOwned}
use emergence_os.Goals.Runs.{
  initial, next, registered, associated, Reachable-IsOwned, goal_for_process-remove_restarted,
}

abbrev alone : GoalRegistry
alone = register 5 "write a report" one_shot none 100 new_registry

abbrev five : GoalRecord
five = join 7 true 120 (new_record 5 "write a report" one_shot none 100)

abbrev busy : GoalRegistry
busy = record { records = (5, five) ∷ []; process_to_goal = (7, 5) ∷ [] }

seven_joins : associate_process 5 7 true 120 alone ≡ returned busy
unfolding associate_process register Dict.get Dict.put Bag.add Bag.has
seven_joins = refl

Reachable-IsOwned_example : IsOwned busy
Reachable-IsOwned_example = Reachable-IsOwned (
    next (next initial (registered 5 "write a report" one_shot 100 new_registry))
      (associated 5 7 true 120 alone busy seven_joins))

five_is_held : get 5 busy ≡ some five
unfolding get Dict.get
five_is_held = refl

goal_for_process-remove_restarted_example :
    (g' : GoalRegistry) × ((reset_for_rerun 5 200 busy >>= λ restarted_g. remove 5 restarted_g)
      ≡ returned g')
    × (goal_for_process 7 g' ≡ goal_for_process 7 busy)
    × (get 5 g' ≡ none)
goal_for_process-remove_restarted_example =
    goal_for_process-remove_restarted 7 5 200 five busy five_is_held refl

asks_first :
    (resolve_goal_policy none none (some "low") (some "ask") (some true)).auto_approve ≡ false
unfolding resolve_goal_policy Dict.get
asks_first = refl

-- The process of the goal has failed, and then the goal is completed.
abbrev failing : GoalRecord
failing = record five { has_process_failure = true }

abbrev after_failure : Monitor
after_failure = record {
  registry = record { records = (5, failing) ∷ []; process_to_goal = (7, 5) ∷ [] };
  last_health = [];
  published = [];
}

abbrev completion : Event
completion = record {
  event_type = goal_completed;
  source_process = none;
  correlation_id = none;
  causation_id = none;
  payload = ("goal_id", integer (pos 5)) ∷ [];
  attributes = [];
  timestamp = 300;
  event_id = 1;
}

five-HasFailed : HasFailed 5 after_failure.registry
unfolding Dict.get
five-HasFailed = record {
  keyed = λ k r h. elim (Bool-cases (5 == k)) [
    | inl here ↦
        ap (λ (x : GoalRecord). x.goal_id)
          (sym (some-injective failing r (sym (first_of k failing here) ∙ h)))
        ∙ (nat_eq.same_iff 5 k).0 here
    | inr other ↦ absurd (ground (arith, h, other))
  ];
  failed = (failing, refl, refl);
}
  where
    first_of : (k : ℕ) (r : GoalRecord) → (5 == k) ≡ true → Dict.get k ((5, r) ∷ []) ≡ some r
    first_of k r here = rw here refl

abbrev plain : Value → String
plain v = "5"

on_events-degraded_example :
    All
      (IsDegradedFor 5)
      (on_events plain (λ s. s) 300 60 ((completion, none, 300) ∷ []) after_failure).published
    × ((r : GoalRecord) (ctx : Option HealthContext) (now : ℕ)
        → Dict.get 5
            (on_events plain
              (λ s. s)
              300
              60
              ((completion, none, 300) ∷ [])
              after_failure).registry.records
          ≡ some r
        → compute_health plain (λ s. s) 300 60 ctx now r ≡ degraded)
on_events-degraded_example =
    on_events-degraded plain (λ s. s) 300 60 5 ((completion, none, 300) ∷ []) after_failure
      (record { has_failed = five-HasFailed; quiet = tt })

-- The completion is published, and the goal is degraded still.
is_degraded_still :
    (on_events plain (λ s. s) 300 60 ((completion, none, 300) ∷ []) after_failure).published
    ≡ health_changed 5 degraded none ∷ []
unfolding on_events Dict.get
is_degraded_still = refl
