-- ===== src/Goals/Policy.antt =====
-- emergence/cognitive/goal_policy.py without the dictionary `config`. A cost is in millionths of a
-- dollar.
use emergence_os.Base.{
  String, Bool, true, false, Option, none, some, [], ◌∷◌, if◌then◌else◌, ◌==◌, string_eq,
}
use emergence_os.Base.Dict
use emergence_os.Base.Dict.{Dict}
use emergence_os.Base.Int.{pos}
use emergence_os.Budget.{ResourceBudget, default_budget}

-- The three presets; the other limits are the defaults.
abbrev pub low_budget : ResourceBudget
low_budget = record default_budget {
  max_tokens = pos 10000;
  max_cost_usd = pos 250000;
  max_tool_invocations = pos 30;
  max_execution_time_seconds = pos 180;
}

abbrev pub medium_budget : ResourceBudget
medium_budget = record default_budget {
  max_tokens = pos 50000;
  max_cost_usd = pos 1000000;
  max_tool_invocations = pos 100;
  max_execution_time_seconds = pos 600;
}

abbrev pub high_budget : ResourceBudget
high_budget = record default_budget {
  max_tokens = pos 200000;
  max_cost_usd = pos 5000000;
  max_tool_invocations = pos 500;
  max_execution_time_seconds = pos 3600;
}

abbrev pub spend_presets : Dict String ResourceBudget
spend_presets = ("low", low_budget) ∷ ("medium", medium_budget) ∷ ("high", high_budget) ∷ []

pub record GoalPolicy : Type 0 where
  pub workload : String
  pub spend_preset : String
  pub autonomy_preset : String
  pub auto_approve : Bool
  pub budget : ResourceBudget

-- SPEND_PRESETS.get(spend, default)
unfoldable pub preset_or : Option ResourceBudget → ResourceBudget → ResourceBudget
preset_or none default = default
preset_or (some b) default = b

-- `a or b` for optional texts, where the empty text counts as missing.
abbrev pub text_or : Option String → String → String
text_or none b = b
text_or (some a) b = if a == "" then b else a

-- `workload or mode`
abbrev pub first_of : Option String → Option String → Option String
first_of none b = b
first_of (some a) b = if a == "" then b else some a

abbrev is_text : Option String → String → Bool
is_text none t = false
is_text (some s) t = s == t

-- The value of `autonomy` where no preset is given.
unfoldable pub default_autonomy : (auto_approve : Option Bool) → (named : Option String) → String
default_autonomy (some true) named = "auto"
default_autonomy (some false) named = "ask"
default_autonomy none named = if is_text named "research" then "auto" else "ask"

unfoldable pub autonomy_of :
    Option String → (auto_approve : Option Bool) → (named : Option String) → String
unfolding default_autonomy
autonomy_of none auto_approve named = default_autonomy auto_approve named
autonomy_of (some a) auto_approve named = a

-- The policy that `resolve_goal_policy` builds where no dictionary `policy` is given.
unfoldable pub initial_policy :
    (mode workload spend_preset autonomy_preset : Option String) (auto_approve : Option Bool)
    → GoalPolicy
unfolding autonomy_of preset_or
initial_policy mode workload spend_preset autonomy_preset auto_approve =
    let spend = text_or spend_preset "medium" in
    let autonomy = autonomy_of autonomy_preset auto_approve (first_of workload mode) in
    record {
      workload = text_or (first_of workload mode) "research";
      spend_preset = spend;
      autonomy_preset = autonomy;
      auto_approve = autonomy == "auto";
      budget = preset_or (Dict.get spend spend_presets) medium_budget;
    }

with_approval : Option Bool → GoalPolicy → GoalPolicy
with_approval none p = p
with_approval (some b) p = record p { auto_approve = b }

with_autonomy : Option String → GoalPolicy → GoalPolicy
with_autonomy preset p =
    if is_text preset "auto"
    then record p { autonomy_preset = "auto"; auto_approve = true }
    else if is_text preset "ask"
    then record p { autonomy_preset = "ask"; auto_approve = false }
    else p

with_workload : Option String → GoalPolicy → GoalPolicy
with_workload named p = record p { workload = text_or named p.workload }

with_spend : Option String → GoalPolicy → GoalPolicy
with_spend none p = p
with_spend (some spend) p = if spend == "" then p else record p {
  spend_preset = spend;
  budget = preset_or (Dict.get spend spend_presets) p.budget;
}

-- `resolve_goal_policy` on a policy to start from.
unfoldable pub refine_policy :
    (mode workload spend_preset autonomy_preset : Option String) (auto_approve : Option Bool)
    → GoalPolicy
    → GoalPolicy
unfolding with_approval with_autonomy with_workload with_spend preset_or
refine_policy mode workload spend_preset autonomy_preset auto_approve p = with_spend spend_preset (
    with_workload (first_of workload mode)
      (with_autonomy autonomy_preset (with_approval auto_approve p)))

unfoldable pub resolve_goal_policy :
    (mode workload spend_preset autonomy_preset : Option String) (auto_approve : Option Bool)
    → GoalPolicy
unfolding refine_policy initial_policy
resolve_goal_policy mode workload spend_preset autonomy_preset auto_approve =
    refine_policy mode workload spend_preset autonomy_preset auto_approve
      (initial_policy mode workload spend_preset autonomy_preset auto_approve)
