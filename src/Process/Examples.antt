-- ===== src/Process/Examples.antt =====
-- A process on its way from creation to failure.
use emergence_os.Base.{◌≡◌, ◌↔◌, ◌⊎◌, refl, none, some, [], returned, raised, value_error}
use emergence_os.Base.Text.{is_blank}
use emergence_os.State.{ProcessState}
use emergence_os.Budget.{default_budget}
use emergence_os.Definition.{ProcessDefinition, check_definition}
use emergence_os.Process.{Process, new_process, transition_to, fail, ready, start}
use emergence_os.Process.Times.{IsConsistent, transition_to-IsConsistent}
use emergence_os.Process.Outcomes.{fail-eq-raised}

abbrev hello : ProcessDefinition
hello = record {
  process_definition_id = 1;
  name = "hello_world";
  version = "1.0.0";
  implementation = "emergence.apps.hello_world:run";
  execution_spec = none;
  default_budget = default_budget;
  required_permissions = [];
}

hello_is_accepted : check_definition hello ≡ returned hello
unfolding check_definition is_blank
hello_is_accepted = refl

blank_name : check_definition (record hello { name = "  " }) ≡ raised value_error
unfolding check_definition is_blank
blank_name = refl

abbrev fresh : Process
fresh = new_process hello none none default_budget 7 100

abbrev queued : Process
queued = record fresh { state = ProcessState.ready }

abbrev started : Process
started = record fresh { state = ProcessState.running; started_at = some 120 }

abbrev failed : Process
failed = record started {
  state = ProcessState.failed;
  completed_at = some 150;
  failure_reason = some "out of memory";
}

lifecycle :
    (ready 110 fresh ≡ returned queued)
    × (start 120 queued ≡ returned started)
    × (fail (some "out of memory") 150 started ≡ returned failed)
unfolding ready start fail
lifecycle = (refl, refl, refl)

started-IsConsistent : IsConsistent started
started-IsConsistent = record { finished = refl; started = λ h. refl }

transition_to-IsConsistent_example : IsConsistent (record started { state = ProcessState.waiting })
unfolding transition_to
transition_to-IsConsistent_example =
    transition_to-IsConsistent ProcessState.waiting 130 started
      (record started { state = ProcessState.waiting }) started-IsConsistent refl

fail-eq-raised_example : (fail none 110 queued ≡ raised value_error) ↔ (
    (ProcessState.ready ≡ ProcessState.created)
    ⊎ (ProcessState.ready ≡ ProcessState.ready)
    ⊎ (ProcessState.ready ≡ ProcessState.completed)
    ⊎ (ProcessState.ready ≡ ProcessState.cancelled))
fail-eq-raised_example = fail-eq-raised none 110 queued
