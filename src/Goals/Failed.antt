-- ===== src/Goals/Failed.antt =====
-- emergence/cognitive/goal_registry.py: a goal one of whose processes failed.
use emergence_os.Base.{
  ℕ, String, true, Option, none, some, some-injective, List, [], ◌∷◌, ◌++◌, ◌≡◌, refl, sym, ap,
  subst, ◌∙◌, inl, inr, ◌==◌, nat_eq, nat_beq, Bool-cases, Option-cases, All,
}
use emergence_os.Base.Dict
use emergence_os.Base.Dict.{Dict}
use emergence_os.Base.Value.{Value}
use emergence_os.Event.{
  Event, EventType, process_failed, goal_completed, goal_failed, user_approval_requested,
  memory_stored,
}
use emergence_os.Goals.{GoalRecord, GoalRegistry}
use emergence_os.Goals.Health.{
  GoalHealth, degraded, health_code, HealthContext, GoalNotice, health_changed, stats_updated,
  Monitor, set_health_if_changed, compute_health, with_stats, change, record_after, announce,
  record_at, tell,
}

-- A notice about the health of the goal says that it is degraded.
abbrev pub IsDegradedFor : (goal_id : ℕ) → GoalNotice → Type 0
IsDegradedFor goal_id (health_changed id health previous) = id ≡ goal_id → health ≡ degraded
IsDegradedFor goal_id (stats_updated id stats) = Unit

-- A record is held under its goal, and that of this goal says that a process failed.
pub record HasFailed (goal_id : ℕ) (g : GoalRegistry) : Type 0 where
  pub keyed : (k : ℕ) (r : GoalRecord) → Dict.get k g.records ≡ some r → r.goal_id ≡ k
  pub failed :
      (r : GoalRecord) × (Dict.get goal_id g.records ≡ some r) × (r.has_process_failure ≡ true)

module _ {A : Type 0} (P : A → Type 0) where
  All-append_one : (xs : List A) (x : A) → All P xs → P x → All P (xs ++ x ∷ [])
  All-append_one [] x h p = (p, tt)
  All-append_one (y ∷ xs) x h p = (h.0, All-append_one xs x h.1 p)

-- The registry is the same, and the notices still say that the goal is degraded.
IsQuiet : (goal_id : ℕ) → (m n : Monitor) → Type 0
IsQuiet goal_id m n = (n.registry ≡ m.registry) × All (IsDegradedFor goal_id) n.published

module _ (goal_id : ℕ) where
  set_health_if_changed-IsQuiet :
      (r : GoalRecord) (health : GoalHealth) (m : Monitor)
      → (r.goal_id ≡ goal_id → health ≡ degraded)
      → All (IsDegradedFor goal_id) m.published
      → IsQuiet goal_id m (set_health_if_changed r health m)
  unfolding set_health_if_changed IsQuiet
  set_health_if_changed-IsQuiet r health m d h =
      elim (Option-cases (Dict.get r.goal_id m.last_health)) [
        | inl missing ↦ rw missing (refl, All-append_one (IsDegradedFor goal_id) m.published _ h d)
        | inr (previous, given) ↦
            rw given elim (Bool-cases (nat_beq (health_code previous) (health_code health))) [
              | inl same ↦ rw same (refl, h)
              | inr other ↦
                  rw other (refl, All-append_one (IsDegradedFor goal_id) m.published _ h d)
            ]
      ]

  with_stats-IsQuiet :
      (ctx : Option HealthContext) (now : ℕ) (r : GoalRecord) (m n : Monitor)
      → IsQuiet goal_id m n
      → IsQuiet goal_id m (with_stats ctx now r n)
  unfolding with_stats IsQuiet
  with_stats-IsQuiet ctx now r m n q =
      (q.0, All-append_one (IsDegradedFor goal_id) n.published _ q.1 tt)

module _ (str_of : Value → String) (lower : String → String)
    (staleness approval_threshold goal_id : ℕ) where
  pub compute_health-failed :
      (ctx : Option HealthContext) (now : ℕ) (r : GoalRecord)
      → r.has_process_failure ≡ true
      → compute_health str_of lower staleness approval_threshold ctx now r ≡ degraded
  unfolding compute_health
  compute_health-failed ctx now r h = rw h refl

  announce-IsQuiet :
      (kind : EventType) (ctx : Option HealthContext) (now : ℕ) (r : GoalRecord) (m : Monitor)
      → (r.goal_id ≡ goal_id → r.has_process_failure ≡ true)
      → All (IsDegradedFor goal_id) m.published
      → IsQuiet goal_id m (announce str_of lower staleness approval_threshold kind ctx now r m)
  unfolding announce IsQuiet
  announce-IsQuiet kind ctx now r m f h = by_kind kind
    where
      computed : IsQuiet goal_id m (
          set_health_if_changed r
            (compute_health str_of lower staleness approval_threshold ctx now r)
            m)
      computed =
          set_health_if_changed-IsQuiet goal_id r _ m (λ e. compute_health-failed ctx now r (f e)) h

      worst : IsQuiet goal_id m (set_health_if_changed r degraded m)
      worst = set_health_if_changed-IsQuiet goal_id r degraded m (λ e. refl) h

      by_kind :
          (kind : EventType)
          → IsQuiet goal_id m (announce str_of lower staleness approval_threshold kind ctx now r m)
      by_kind goal_failed = worst
      by_kind process_failed =
          with_stats-IsQuiet goal_id ctx now r m (set_health_if_changed r degraded m) worst
      by_kind memory_stored = (refl, h)
      by_kind goal_completed = computed
      by_kind user_approval_requested = computed
      by_kind _ =
          with_stats-IsQuiet goal_id ctx now r m
            (set_health_if_changed r
              (compute_health str_of lower staleness approval_threshold ctx now r) m)
            computed

  record_after-goal_id :
      (kind : EventType) (event : Event) (now : ℕ) (r : GoalRecord)
      → (record_after str_of lower staleness approval_threshold kind event now r).goal_id
        ≡ r.goal_id
  unfolding record_after
  record_after-goal_id goal_completed event now r = refl
  record_after-goal_id goal_failed event now r = refl
  record_after-goal_id user_approval_requested event now r = refl
  record_after-goal_id process_failed event now r = refl
  record_after-goal_id _ event now r = refl

  record_after-failed :
      (kind : EventType) (event : Event) (now : ℕ) (r : GoalRecord)
      → r.has_process_failure ≡ true
      → (record_after str_of lower staleness approval_threshold kind event now
          r).has_process_failure
        ≡ true
  unfolding record_after
  record_after-failed goal_completed event now r h = h
  record_after-failed goal_failed event now r h = refl
  record_after-failed user_approval_requested event now r h = h
  record_after-failed process_failed event now r h = refl
  record_after-failed _ event now r h = h

-- A record takes the place of another one of the goal `k`.
module _ (goal_id k : ℕ) (r t : GoalRecord) (g : GoalRegistry) (h : Dict.get k g.records ≡ some r)
    (same : t.goal_id ≡ r.goal_id)
    (fails : r.has_process_failure ≡ true → t.has_process_failure ≡ true) where
  HasFailed-put :
      HasFailed goal_id g → HasFailed goal_id (record g { records = Dict.put k t g.records })
  HasFailed-put v = record {
    keyed = λ j u held. elim (Bool-cases (k == j)) [
      | inl here ↦
          let e : k ≡ j = (nat_eq.same_iff k j).0 here in
          ap (λ (w : GoalRecord). w.goal_id)
            (some-injective u t (sym held ∙ Dict.get-put k j t g.records ∙ (rw here refl)))
          ∙ same
          ∙ v.keyed k r h
          ∙ e
      | inr other ↦ v.keyed j u (sym (Dict.get-put k j t g.records ∙ (rw other refl)) ∙ held)
    ];
    failed = elim (Bool-cases (k == goal_id)) [
      | inl here ↦
          let (u, held, fault) = v.failed in
          let e : k ≡ goal_id = (nat_eq.same_iff k goal_id).0 here in
          let of_r =
            some-injective u r (sym held ∙ ap (λ (i : ℕ). Dict.get i g.records) (sym e) ∙ h) in
          (
            t,
            Dict.get-put k goal_id t g.records ∙ (rw here refl),
            fails (ap (λ (w : GoalRecord). w.has_process_failure) (sym of_r) ∙ fault),
          )
      | inr other ↦
          let (u, held, fault) = v.failed in
          (u, Dict.get-put k goal_id t g.records ∙ (rw other held), fault)
    ];
  }

  -- The record is not that of the goal, or it has failed before.
  fault_of : HasFailed goal_id g → r.goal_id ≡ goal_id → r.has_process_failure ≡ true
  fault_of v e =
      let (u, held, fault) = v.failed in
      ap (λ (w : GoalRecord). w.has_process_failure)
        (some-injective r u
          (sym h ∙ ap (λ (i : ℕ). Dict.get i g.records) (sym (v.keyed k r h) ∙ e) ∙ held))
      ∙ fault

-- The goal has failed, and the notices say that it is degraded.
pub record IsDegraded (goal_id : ℕ) (m : Monitor) : Type 0 where
  pub has_failed : HasFailed goal_id m.registry
  pub quiet : All (IsDegradedFor goal_id) m.published

quiet_after :
    (goal_id : ℕ) (m n : Monitor)
    → HasFailed goal_id m.registry
    → IsQuiet goal_id m n
    → IsDegraded goal_id n
unfolding IsQuiet
quiet_after goal_id m n v q = record {
  has_failed = subst (HasFailed goal_id) (sym q.0) v;
  quiet = q.1;
}

module _ (str_of : Value → String) (lower : String → String)
    (staleness approval_threshold goal_id : ℕ) where
  pub tell-IsDegraded :
      (kind : EventType) (event : Event) (ctx : Option HealthContext) (now : ℕ) (o : Option ℕ)
      (m : Monitor)
      → IsDegraded goal_id m
      → IsDegraded goal_id (tell str_of lower staleness approval_threshold kind event ctx now o m)
  unfolding tell record_at
  tell-IsDegraded kind event ctx now none m v = v
  tell-IsDegraded kind event ctx now (some id) m v =
      elim (Option-cases (Dict.get id m.registry.records)) [
        | inl missing ↦ rw missing v
        | inr (r, held) ↦ rw held (told_record r held)
      ]
    where
      told_record :
          (r : GoalRecord)
          → Dict.get id m.registry.records ≡ some r
          → IsDegraded goal_id (
              announce str_of lower staleness approval_threshold kind ctx now
                (record_after str_of lower staleness approval_threshold kind event now r)
                (change id
                  (record_after str_of lower staleness approval_threshold kind event now r)
                  m))
      told_record r held =
          let t = record_after str_of lower staleness approval_threshold kind event now r in
          let same =
            record_after-goal_id str_of lower staleness approval_threshold goal_id kind event now
              r in
          let fails =
            record_after-failed str_of lower staleness approval_threshold goal_id kind event now
              r in
          let after = HasFailed-put goal_id id r t m.registry held same fails v.has_failed in
          let q =
            announce-IsQuiet str_of lower staleness approval_threshold goal_id kind ctx now t
              (change id t m)
              (λ e.
                fails
                  (fault_of goal_id id r t m.registry held same fails v.has_failed (sym same ∙ e)))
              v.quiet in
          quiet_after goal_id (change id t m) _ after q
