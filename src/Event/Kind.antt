-- ===== src/Event/Kind.antt =====
-- `EventType` of emergence/core/event.py. Its members have different string values, so `==`
-- compares which member it is; the values themselves are left out.
use emergence_os.Base.{
  ℕ, ◌≡◌, ◌↔◌, refl, ap, ◌∙◌, sym, true, some, List, [], ◌∷◌, Hashable, nat_beq, nat_beq_iff,
  get_elem?, some-injective,
}

pub data EventType : Type 0 where
  process_created process_ready process_started process_waiting process_blocked process_completed
        process_failed process_cancelled task_created task_ready task_started task_completed
        task_failed task_cancelled goal_created goal_planning goal_in_progress goal_completed
        goal_failed goal_cancelled goal_health_changed goal_stats_updated plan_created plan_updated
        plan_completed memory_stored memory_retrieved memory_deleted artifact_created
        artifact_updated artifact_deleted tool_requested tool_started tool_completed tool_failed
        checkpoint_created checkpoint_restored process_scheduled process_dispatched plugin_loaded
        plugin_unloaded kernel_started kernel_stopped user_input user_message_received
        user_approval_requested user_approval_granted user_approved user_cancelled
        evaluation_completed message_received state_created state_changed state_deleted :
      EventType

members : List EventType
members =
    process_created ∷ process_ready ∷ process_started ∷ process_waiting ∷ process_blocked
    ∷ process_completed ∷ process_failed ∷ process_cancelled ∷ task_created ∷ task_ready
    ∷ task_started ∷ task_completed ∷ task_failed ∷ task_cancelled ∷ goal_created ∷ goal_planning
    ∷ goal_in_progress ∷ goal_completed ∷ goal_failed ∷ goal_cancelled ∷ goal_health_changed
    ∷ goal_stats_updated ∷ plan_created ∷ plan_updated ∷ plan_completed ∷ memory_stored
    ∷ memory_retrieved ∷ memory_deleted ∷ artifact_created ∷ artifact_updated ∷ artifact_deleted
    ∷ tool_requested ∷ tool_started ∷ tool_completed ∷ tool_failed ∷ checkpoint_created
    ∷ checkpoint_restored ∷ process_scheduled ∷ process_dispatched ∷ plugin_loaded ∷ plugin_unloaded
    ∷ kernel_started ∷ kernel_stopped ∷ user_input ∷ user_message_received ∷ user_approval_requested
    ∷ user_approval_granted ∷ user_approved ∷ user_cancelled ∷ evaluation_completed
    ∷ message_received ∷ state_created ∷ state_changed ∷ state_deleted ∷ []

abbrev pub code : EventType → ℕ
code process_created = 0
code process_ready = 1
code process_started = 2
code process_waiting = 3
code process_blocked = 4
code process_completed = 5
code process_failed = 6
code process_cancelled = 7
code task_created = 8
code task_ready = 9
code task_started = 10
code task_completed = 11
code task_failed = 12
code task_cancelled = 13
code goal_created = 14
code goal_planning = 15
code goal_in_progress = 16
code goal_completed = 17
code goal_failed = 18
code goal_cancelled = 19
code goal_health_changed = 20
code goal_stats_updated = 21
code plan_created = 22
code plan_updated = 23
code plan_completed = 24
code memory_stored = 25
code memory_retrieved = 26
code memory_deleted = 27
code artifact_created = 28
code artifact_updated = 29
code artifact_deleted = 30
code tool_requested = 31
code tool_started = 32
code tool_completed = 33
code tool_failed = 34
code checkpoint_created = 35
code checkpoint_restored = 36
code process_scheduled = 37
code process_dispatched = 38
code plugin_loaded = 39
code plugin_unloaded = 40
code kernel_started = 41
code kernel_stopped = 42
code user_input = 43
code user_message_received = 44
code user_approval_requested = 45
code user_approval_granted = 46
code user_approved = 47
code user_cancelled = 48
code evaluation_completed = 49
code message_received = 50
code state_created = 51
code state_changed = 52
code state_deleted = 53

member_at-code : (t : EventType) → get_elem? members (code t) ≡ some t
unfolding members
member_at-code process_created = refl
member_at-code process_ready = refl
member_at-code process_started = refl
member_at-code process_waiting = refl
member_at-code process_blocked = refl
member_at-code process_completed = refl
member_at-code process_failed = refl
member_at-code process_cancelled = refl
member_at-code task_created = refl
member_at-code task_ready = refl
member_at-code task_started = refl
member_at-code task_completed = refl
member_at-code task_failed = refl
member_at-code task_cancelled = refl
member_at-code goal_created = refl
member_at-code goal_planning = refl
member_at-code goal_in_progress = refl
member_at-code goal_completed = refl
member_at-code goal_failed = refl
member_at-code goal_cancelled = refl
member_at-code goal_health_changed = refl
member_at-code goal_stats_updated = refl
member_at-code plan_created = refl
member_at-code plan_updated = refl
member_at-code plan_completed = refl
member_at-code memory_stored = refl
member_at-code memory_retrieved = refl
member_at-code memory_deleted = refl
member_at-code artifact_created = refl
member_at-code artifact_updated = refl
member_at-code artifact_deleted = refl
member_at-code tool_requested = refl
member_at-code tool_started = refl
member_at-code tool_completed = refl
member_at-code tool_failed = refl
member_at-code checkpoint_created = refl
member_at-code checkpoint_restored = refl
member_at-code process_scheduled = refl
member_at-code process_dispatched = refl
member_at-code plugin_loaded = refl
member_at-code plugin_unloaded = refl
member_at-code kernel_started = refl
member_at-code kernel_stopped = refl
member_at-code user_input = refl
member_at-code user_message_received = refl
member_at-code user_approval_requested = refl
member_at-code user_approval_granted = refl
member_at-code user_approved = refl
member_at-code user_cancelled = refl
member_at-code evaluation_completed = refl
member_at-code message_received = refl
member_at-code state_created = refl
member_at-code state_changed = refl
member_at-code state_deleted = refl

code-injective : (a b : EventType) → code a ≡ code b → a ≡ b
code-injective a b p =
    some-injective _ _ (sym (member_at-code a) ∙ ap (get_elem? members) p ∙ member_at-code b)

pub code_iff : (a b : EventType) → (nat_beq (code a) (code b) ≡ true) ↔ (a ≡ b)
code_iff a b = (
  λ h. code-injective a b ((nat_beq_iff (code a) (code b)).0 h),
  λ p. (nat_beq_iff (code a) (code b)).1 (ap code p),
)

instance abbrev pub event_type_eq : Hashable EventType
event_type_eq = record { same = λ a b. nat_beq (code a) (code b); same_iff = code_iff }
