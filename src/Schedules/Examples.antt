-- ===== src/Schedules/Examples.antt =====
-- Two schedules of one goal, of which one is due.
use emergence_os.Base.{
  ℕ, ◌≡◌, refl, ap, sym, ◌∙◌, false, ◌||◌, none, some, some-injective, [], ◌∷◌, if◌then◌else◌, ltb,
  nat_eq, string_eq, select, Bool-cases, inl, inr, ◌==◌,
}
use emergence_os.Base.Dict
use emergence_os.Goals
use emergence_os.Goals.{one_shot, new_registry, new_record}
use emergence_os.Kernel.{Kernel}
use emergence_os.Kernel.Examples.{job, kernel}
use emergence_os.Kernel.Revival.{is_raised}
use emergence_os.Kernel.Dispatch.{spawn_named}
use emergence_os.Process.{ready}
use emergence_os.Registries.ProcessRegistry
use emergence_os.Registries.ProcessTable
use emergence_os.Schedules.{ScheduledEntry, ScheduleManager, process_due}
use emergence_os.Schedules.Due.{IsCoherent, fired_of, get-process_due}

abbrev early : ScheduledEntry
early = record {
  schedule_id = 1;
  goal_id = 5;
  process_definition_name = "job";
  fire_at = 150;
  description = "";
  fired = false;
}

abbrev late : ScheduledEntry
late = record early { schedule_id = 2; fire_at = 300 }

abbrev manager : ScheduleManager
manager = record { entries = (1, early) ∷ (2, late) ∷ []; published = [] }

abbrev prepared : Kernel
prepared = record kernel {
  registry = ("job", job) ∷ [];
  goals = record {
    records = (5, new_record 5 "write" one_shot none 100) ∷ [];
    process_to_goal = [];
  };
}

keyed : (i : ℕ) (e : ScheduledEntry) → Dict.get i manager.entries ≡ some e → e.schedule_id ≡ i
unfolding Dict.get
keyed i e h = elim (Bool-cases (1 == i)) [
  | inl first ↦ own early (sym (rw first refl) ∙ h) ∙ (nat_eq.same_iff 1 i).0 first
  | inr other ↦ elim (Bool-cases (2 == i)) [
    | inl second ↦ own late (sym (rw (other, second) refl) ∙ h) ∙ (nat_eq.same_iff 2 i).0 second
    | inr neither ↦ absurd (none_or_some (sym (rw (other, neither) refl) ∙ h))
  ]
]
  where
    own : (x : ScheduledEntry) → some x ≡ some e → e.schedule_id ≡ x.schedule_id
    own x h = ap (λ (y : ScheduledEntry). y.schedule_id) (sym (some-injective x e h))

    none_or_some : none ≡ some e → ⊥
    none_or_some h = cc

manager-IsCoherent : IsCoherent manager
unfolding Dict.get Dict.values
manager-IsCoherent = record { keyed = keyed; listed = (refl, (refl, tt)) }

no_error : is_raised (process_due 200 (prepared, manager)).0 ≡ false
unfolding process_due select Dict.values spawn_named ProcessRegistry.get Dict.get
    ProcessRegistry.exists Dict.has ready ProcessTable.add Goals.associate_process
no_error = refl

early_fired : Dict.get 1 manager.entries ≡ some early
unfolding Dict.get
early_fired = refl

get-process_due_example :
    Dict.get 1 (process_due 200 (prepared, manager)).1.1.entries
    ≡ some (if early.fired || ltb 200 early.fire_at then early else fired_of early)
get-process_due_example =
    get-process_due 200 1 early prepared manager manager-IsCoherent early_fired no_error
