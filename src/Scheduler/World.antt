-- ===== src/Scheduler/World.antt =====
-- What the handlers of emergence/scheduler/scheduler.py do to the world that the callback works on.
use emergence_os.Base.{
  ℕ, ◌≡◌, Bool, List, [], ◌∷◌, Outcome, returned, raised, nat_eq, inl, inr, Bool-cases, subst, sym,
  refl,
}
use emergence_os.Base.Dict.{Dict}
use emergence_os.Event.{Event}
use emergence_os.Scheduler.{
  Scheduler, wake_all, evaluate_waiting, on_event, unless_raised, finish_event,
}

module _ {C W : Type 0} (is_satisfied : C → W → Bool) (on_wake : ℕ → W → Outcome (Unit {0}) × W)
    (P : W → Type 0) (kept : (pid : ℕ) (w : W) → P w → P (on_wake pid w).1) where
  went_on :
      (o : Outcome (Unit {0})) (r : Outcome (List ℕ) × (Scheduler C × W))
      (stopped : Scheduler C × W)
      → P r.1.1
      → P stopped.1
      → P (unless_raised o r stopped).1.1
  went_on (returned _) r stopped a b = a
  went_on (raised e) r stopped a b = b

  wake_all-keeps :
      (items : Dict ℕ C) (woken : List ℕ) (s : Scheduler C) (w : W)
      → P w
      → P (wake_all is_satisfied on_wake items woken (s, w)).1.1
  unfolding wake_all
  wake_all-keeps [] woken s w p = p
  wake_all-keeps ((pid, condition) ∷ items) woken s w p =
      let p' = kept pid w p in
      elim (Bool-cases (is_satisfied condition w)) [
        | inl met ↦ rw met (went_on (on_wake pid w).0 _ _ (wake_all-keeps items _ _ _ p') p')
        | inr unmet ↦ rw unmet (wake_all-keeps items woken s w p)
      ]

  world-finish_event :
      (o : Outcome (List ℕ)) (event : Event) (s : Scheduler C) (w : W)
      → (finish_event o event s w).1.1 ≡ w
  unfolding finish_event
  world-finish_event (raised e) event s w = refl
  world-finish_event (returned _) event s w = refl

  -- What each wake keeps true, the handler of the scheduler keeps true.
  pub on_event-keeps :
      (event : Event) (s : Scheduler C) (w : W)
      → P w
      → P (on_event is_satisfied on_wake event (s, w)).1.1
  unfolding on_event evaluate_waiting
  on_event-keeps event s w p =
      let (outcome, (s', w')) = evaluate_waiting is_satisfied on_wake (s, w) in
      subst P (sym (world-finish_event outcome event s' w')) (wake_all-keeps s.waiting [] s w p)
