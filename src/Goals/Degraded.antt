-- ===== src/Goals/Degraded.antt =====
-- emergence/cognitive/goal_registry.py: the events that come after a process of a goal failed.
use emergence_os.Base.{
  ℕ, String, Bool, true, false, Option, none, some, some-injective, List, [], ◌∷◌, ◌≡◌, refl, sym,
  ap, subst, ◌∙◌, ◌⊎◌, inl, inr, if◌then◌else◌, ◌==◌, nat_eq, Bool-cases, Option-cases, arith, All,
}
use emergence_os.Base.Dict
use emergence_os.Base.Dict.{Dict}
use emergence_os.Base.Value.{Value}
use emergence_os.Event.{
  Event, EventType, process_created, process_started, process_completed, process_failed,
  goal_created, goal_completed, goal_failed, state_changed, user_approval_requested, memory_stored,
}
use emergence_os.Goals.{
  GoalRecord, GoalRegistry, register, register_over, new_record, one_shot, touch,
}
use emergence_os.Goals.Health.{
  degraded, HealthContext, Monitor, compute_health, tell, staged, create_goal, stage_all, handle,
  on_event,
}
use emergence_os.Goals.Failed.{
  IsDegradedFor, HasFailed, IsDegraded, tell-IsDegraded, compute_health-failed,
}

IsDegraded-either :
    (goal_id : ℕ) (b : Bool) (m n : Monitor)
    → IsDegraded goal_id m
    → IsDegraded goal_id n
    → IsDegraded goal_id (if b then m else n)
IsDegraded-either goal_id true m n v w = v
IsDegraded-either goal_id false m n v w = w

module _ (str_of : Value → String) (lower : String → String)
    (staleness approval_threshold goal_id : ℕ) where
  stage_one : Option String → (now : ℕ) → GoalRecord → GoalRecord
  stage_one stage now r = if r.archived then r else touch now (record r { pipeline_stage = stage })

  stage_at : Option String → (now : ℕ) → Option GoalRecord → Option GoalRecord
  stage_at stage now none = none
  stage_at stage now (some r) = some (stage_one stage now r)

  get-staged :
      (stage : Option String) (now k : ℕ) (d : Dict ℕ GoalRecord)
      → Dict.get k (staged str_of lower staleness approval_threshold stage now d)
        ≡ stage_at stage now (Dict.get k d)
  unfolding staged stage_at stage_one Dict.get
  get-staged stage now k [] = refl
  get-staged stage now k ((j, r) ∷ d) = elim (Bool-cases (j == k)) [
    | inl here ↦ rw here refl
    | inr other ↦ rw other (get-staged stage now k d)
  ]

  stage_one_keeps :
      (stage : Option String) (now : ℕ) (r : GoalRecord)
      → ((stage_one stage now r).goal_id ≡ r.goal_id)
        × ((stage_one stage now r).has_process_failure ≡ r.has_process_failure)
  unfolding stage_one
  stage_one_keeps stage now r = elim (Bool-cases r.archived) [
    | inl archived ↦ rw archived (refl, refl)
    | inr open_still ↦ rw open_still (refl, refl)
  ]

  HasFailed-staged :
      (stage : Option String) (now : ℕ) (g : GoalRegistry)
      → HasFailed goal_id g
      → HasFailed goal_id (record g {
        records = staged str_of lower staleness approval_threshold stage now g.records;
      })
  unfolding stage_at
  HasFailed-staged stage now g v = record {
    keyed = λ k u held.
        keyed_at k u (Option-cases (Dict.get k g.records))
          (sym (get-staged stage now k g.records) ∙ held);
    failed =
        let (r, held, fault) = v.failed in
        (
          stage_one stage now r,
          get-staged stage now goal_id g.records ∙ ap (stage_at stage now) held,
          (stage_one_keeps stage now r).1 ∙ fault,
        );
  }
    where
      keyed_at :
          (k : ℕ) (u : GoalRecord)
          → (Dict.get k g.records ≡ none) ⊎ ((r : GoalRecord) × (Dict.get k g.records ≡ some r))
          → stage_at stage now (Dict.get k g.records) ≡ some u
          → u.goal_id ≡ k
      keyed_at k u (inl missing) h =
          absurd (ground (arith, sym (ap (stage_at stage now) missing) ∙ h))
      keyed_at k u (inr (r, held)) h =
          ap (λ (w : GoalRecord). w.goal_id)
            (sym
              (some-injective (stage_one stage now r) u (sym (ap (stage_at stage now) held) ∙ h)))
          ∙ (stage_one_keeps stage now r).0
          ∙ v.keyed k r held

  -- A goal that is new joins.
  HasFailed-new :
      (t : GoalRecord) (g : GoalRegistry)
      → Dict.has t.goal_id g.records ≡ false
      → HasFailed goal_id g
      → HasFailed goal_id (record g { records = Dict.put t.goal_id t g.records })
  HasFailed-new t g fresh v = record {
    keyed = λ k u held. elim (Bool-cases (t.goal_id == k)) [
      | inl here ↦
          ap (λ (w : GoalRecord). w.goal_id)
            (some-injective u t (sym held ∙ Dict.get-put t.goal_id k t g.records ∙ (rw here refl)))
          ∙ (nat_eq.same_iff t.goal_id k).0 here
      | inr other ↦
          v.keyed k u (sym (Dict.get-put t.goal_id k t g.records ∙ (rw other refl)) ∙ held)
    ];
    failed =
        let (r, held, fault) = v.failed in
        let other : (t.goal_id == goal_id) ≡ false = ground (
          arith,
          fresh,
          held,
          Dict.has-eq-is_some goal_id g.records,
          nat_eq.same_iff t.goal_id goal_id,
        ) in
        (r, Dict.get-put t.goal_id goal_id t g.records ∙ (rw other held), fault);
  }

  registered :
      (id : ℕ) (description : String) (now : ℕ) (g : GoalRegistry)
      → Dict.has id g.records ≡ false
      → register id description one_shot none now g
        ≡ record g { records = Dict.put id (new_record id description one_shot none now) g.records }
  unfolding register register_over
  registered id description now g fresh = elim (Option-cases (Dict.get id g.records)) [
    | inl missing ↦ rw missing refl
    | inr (r, held) ↦ absurd (ground (arith, fresh, held, Dict.has-eq-is_some id g.records))
  ]

  create_goal-IsDegraded :
      (event : Event) (now : ℕ) (o : Option ℕ) (m : Monitor)
      → IsDegraded goal_id m
      → IsDegraded goal_id (create_goal str_of lower staleness approval_threshold event now o m)
  unfolding create_goal
  create_goal-IsDegraded event now none m v = v
  create_goal-IsDegraded event now (some id) m v =
      elim (Bool-cases (Dict.has id m.registry.records)) [
        | inl known ↦ rw known v
        | inr fresh ↦ rw fresh record {
          has_failed =
              subst (HasFailed goal_id) (sym (registered id _ now m.registry fresh))
                (HasFailed-new (new_record id _ one_shot none now) m.registry fresh v.has_failed);
          quiet = v.quiet;
        }
      ]

  stage_all-IsDegraded :
      (event : Event) (now : ℕ) (m : Monitor)
      → IsDegraded goal_id m
      → IsDegraded goal_id (stage_all str_of lower staleness approval_threshold event now m)
  unfolding stage_all
  stage_all-IsDegraded event now m v =
      IsDegraded-either goal_id _ _ m
        (record { has_failed = HasFailed-staged _ now m.registry v.has_failed; quiet = v.quiet }) v

  handle-IsDegraded :
      (kind : EventType) (event : Event) (ctx : Option HealthContext) (now : ℕ) (m : Monitor)
      → IsDegraded goal_id m
      → IsDegraded goal_id (handle str_of lower staleness approval_threshold kind event ctx now m)
  unfolding handle
  handle-IsDegraded kind event ctx now m v = by_kind kind
    where
      told :
          (kind : EventType) (o : Option ℕ)
          → IsDegraded goal_id
              (tell str_of lower staleness approval_threshold kind event ctx now o m)
      told kind o =
          tell-IsDegraded str_of lower staleness approval_threshold goal_id kind event ctx now o m v

      by_kind :
          (kind : EventType)
          → IsDegraded goal_id
              (handle str_of lower staleness approval_threshold kind event ctx now m)
      by_kind goal_created = create_goal-IsDegraded event now _ m v
      by_kind goal_completed = told goal_completed _
      by_kind goal_failed = told goal_failed _
      by_kind state_changed = stage_all-IsDegraded event now m v
      by_kind user_approval_requested = told user_approval_requested _
      by_kind memory_stored = told memory_stored _
      by_kind process_created = told process_created _
      by_kind process_started = told process_started _
      by_kind process_completed = told process_completed _
      by_kind process_failed = told process_failed _
      by_kind _ = v

-- The events that the bus gives to the registry, each with the kernel and the time as they are then.
module _ (str_of : Value → String) (lower : String → String)
    (staleness approval_threshold : ℕ) where
  unfoldable pub on_events : List (Event × Option HealthContext × ℕ) → Monitor → Monitor
  unfolding on_event
  on_events [] m = m
  on_events ((event, ctx, now) ∷ events) m =
      on_events events (on_event str_of lower staleness approval_threshold event ctx now m)

  IsDegraded-throughout :
      (goal_id : ℕ) (events : List (Event × Option HealthContext × ℕ)) (m : Monitor)
      → IsDegraded goal_id m
      → IsDegraded goal_id (on_events events m)
  unfolding on_events on_event
  IsDegraded-throughout goal_id [] m v = v
  IsDegraded-throughout goal_id ((event, ctx, now) ∷ events) m v =
      IsDegraded-throughout goal_id events _ (
        handle-IsDegraded str_of lower staleness approval_threshold goal_id event.event_type event
          ctx now m v)

  -- Once a process of a goal failed, and when the notices of its health say that it is degraded,
  -- whatever events come, every notice of its health still says so, and so does its health when it
  -- is computed, at any time and with any kernel; this for a registry that holds each record under
  -- its own goal.
  pub on_events-degraded :
      (goal_id : ℕ) (events : List (Event × Option HealthContext × ℕ)) (m : Monitor)
      → IsDegraded goal_id m
      → All (IsDegradedFor goal_id) (on_events events m).published
        × ((r : GoalRecord) (ctx : Option HealthContext) (now : ℕ)
            → Dict.get goal_id (on_events events m).registry.records ≡ some r
            → compute_health str_of lower staleness approval_threshold ctx now r ≡ degraded)
  on_events-degraded goal_id events m v =
      let w = IsDegraded-throughout goal_id events m v in
      (
        w.quiet,
        λ r ctx now held.
            let (u, held_u, fault) = w.has_failed.failed in
            compute_health-failed str_of lower staleness approval_threshold goal_id ctx now r (
              ap (λ (x : GoalRecord). x.has_process_failure)
                (some-injective r u (sym held ∙ held_u))
              ∙ fault),
      )
