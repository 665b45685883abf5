-- ===== src/Scheduler/Waking.antt =====
-- Which waiting processes emergence/scheduler/scheduler.py wakes.
use emergence_os.Base.{
  ℕ, ◌≡◌, refl, ap, sym, ◌∙◌, subst, Bool, true, false, ◌||◌, ◌&&◌, none, some, some-injective,
  List, [], ◌∷◌, ◌++◌, All, Outcome, returned, raised, if◌then◌else◌, ◌==◌, ==_refl, nat_eq, arith,
  Bool-cases, inl, inr,
}
use emergence_os.Base.Bag
use emergence_os.Base.Dict
use emergence_os.Base.Dict.{Dict}
use emergence_os.Base.Int.{ℤ}
use emergence_os.Scheduler.{
  Scheduler, add_to_queue, contains, requeue, priority_of, wake_all, evaluate_waiting,
  unless_raised,
}

module _ {C : Type 0} where
  waiting-add_to_queue :
      (p : ℕ) (n : ℤ) (s : Scheduler C) → (add_to_queue p n s).waiting ≡ s.waiting
  unfolding add_to_queue
  waiting-add_to_queue p n s = ground arith

  contains-add_to_queue :
      (p j : ℕ) (n : ℤ) (s : Scheduler C)
      → Dict.has p s.waiting ≡ false
      → contains j (add_to_queue p n s) ≡ ((p == j) || contains j s)
  unfolding add_to_queue contains
  contains-add_to_queue p j n s h = ground (arith, Bag.has-add p j s.membership)

  requeued :
      (p j : ℕ) (s : Scheduler C)
      → (Dict.get j (requeue p s).waiting ≡ (if p == j then none else Dict.get j s.waiting))
        × (contains j (requeue p s) ≡ ((p == j) || contains j s))
  unfolding requeue contains
  requeued p j s =
      let s₁ = record s { waiting = Dict.pop p s.waiting } in
      (
        ap (λ d. Dict.get j d) (waiting-add_to_queue p (priority_of p s) s₁)
            ∙ Dict.get-pop p j s.waiting,
        contains-add_to_queue p j (priority_of p s) s₁
            (Dict.has-pop p p s.waiting ∙ rw (==_refl p) refl),
      )

-- `is_satisfied` and the callback, for a callback that does not raise and does not change which
-- conditions hold.
module _ {C W : Type 0} (is_satisfied : C → W → Bool) (on_wake : ℕ → W → Outcome (Unit {0}) × W)
    (calm : (p : ℕ) (w : W) → (on_wake p w).0 ≡ returned tt)
    (steady : (c : C) (p : ℕ) (w : W) → is_satisfied c (on_wake p w).1 ≡ is_satisfied c w) where
  -- One of the items is for the process, with a condition that holds.
  hit : ℕ → W → Dict ℕ C → Bool
  hit p w [] = false
  hit p w ((q, c) ∷ items) = ((q == p) && is_satisfied c w) || hit p w items

  hit_steady : (p q : ℕ) (w : W) (items : Dict ℕ C) → hit p (on_wake q w).1 items ≡ hit p w items
  unfolding hit
  hit_steady p q w [] = refl
  hit_steady p q w ((r, c) ∷ items) = rw (steady c q w, hit_steady p q w items) refl

  -- What the loop leaves of a process.
  abbrev Woken : ℕ → (is_hit : Bool) → (s s' : Scheduler C) → Type 0
  Woken p is_hit s s' =
      (Dict.get p s'.waiting ≡ (if is_hit then none else Dict.get p s.waiting))
      × (contains p s' ≡ (is_hit || contains p s))

  one_item :
      (b h : Bool) (o : Outcome (Unit {0})) (p q : ℕ) (s : Scheduler C)
      (skipped went : Outcome (List ℕ) × (Scheduler C × W)) (stopped : Scheduler C × W)
      → o ≡ returned tt
      → Woken p h s skipped.1.0
      → Woken p h (requeue q s) went.1.0
      → Woken p (((q == p) && b) || h) s (if b then unless_raised o went stopped else skipped).1.0
  one_item false h o p q s skipped went stopped ok a b = (a.0 ∙ ground arith, a.1 ∙ ground arith)
  one_item true h (raised e) p q s skipped went stopped ok a b = cc
  one_item true h (returned _) p q s skipped went stopped ok a b =
      let (waits, queued) = requeued q p s in (ground arith, ground arith)

  wake_all-Woken :
      (p : ℕ) (items : Dict ℕ C) (woken : List ℕ) (s : Scheduler C) (w : W)
      → Woken p (hit p w items) s (wake_all is_satisfied on_wake items woken (s, w)).1.0
  unfolding wake_all hit
  wake_all-Woken p [] woken s w = (refl, refl)
  wake_all-Woken p ((q, c) ∷ items) woken s w =
      one_item (is_satisfied c w) (hit p w items) (on_wake q w).0 p q s _ _ _ (calm q w)
        (wake_all-Woken p items woken s w)
        (subst
          (λ b.
            Woken p b (requeue q s)
              (wake_all is_satisfied on_wake items (woken ++ q ∷ [])
                (requeue q s, (on_wake q w).1)).1.0)
          (hit_steady p q w items)
          (wake_all-Woken p items (woken ++ q ∷ []) (requeue q s) (on_wake q w).1))

  hit_sound :
      (p : ℕ) (c : C) (w : W) (items : Dict ℕ C)
      → All (λ (item : ℕ × C). item.0 ≡ p → item.1 ≡ c) items
      → hit p w items ≡ true
      → is_satisfied c w ≡ true
  unfolding hit
  hit_sound p c w [] only h = cc
  hit_sound p c w ((q, d) ∷ items) only h = elim (Bool-cases (q == p)) [
    | inl same ↦ elim (Bool-cases (is_satisfied d w)) [
      | inl met ↦ ap (λ x. is_satisfied x w) (sym (only.0 ((nat_eq.same_iff q p).0 same))) ∙ met
      | inr unmet ↦ hit_sound p c w items only.1 (sym (rw (same, unmet) refl) ∙ h)
    ]
    | inr other ↦ hit_sound p c w items only.1 (sym (rw other refl) ∙ h)
  ]

  hit_complete :
      (p : ℕ) (c : C) (w : W) (items : Dict ℕ C)
      → Dict.get p items ≡ some c
      → is_satisfied c w ≡ true
      → hit p w items ≡ true
  unfolding hit Dict.get
  hit_complete p c w [] held met = cc
  hit_complete p c w ((q, d) ∷ items) held met = elim (Bool-cases (q == p)) [
    | inl same ↦
        let one : d ≡ c = some-injective d c (sym (rw same refl) ∙ held) in rw (same, one, met) refl
    | inr other ↦ rw other (hit_complete p c w items (sym (rw other refl) ∙ held) met)
  ]

  -- Where a process waits for a condition and for no other, evaluate_waiting wakes it exactly when
  -- the condition holds: then it no longer waits and is in the queue, and otherwise it waits as before
  -- and is in the queue exactly if it was. This for callbacks that do not raise and that do not
  -- change which conditions hold.
  pub evaluate_waiting-wakes :
      (p : ℕ) (c : C) (s : Scheduler C) (w : W)
      → Dict.get p s.waiting ≡ some c
      → All (λ (item : ℕ × C). item.0 ≡ p → item.1 ≡ c) s.waiting
      → (Dict.get p (evaluate_waiting is_satisfied on_wake (s, w)).1.0.waiting
          ≡ (if is_satisfied c w then none else some c))
        × (contains p (evaluate_waiting is_satisfied on_wake (s, w)).1.0
            ≡ (is_satisfied c w || contains p s))
  unfolding evaluate_waiting
  evaluate_waiting-wakes p c s w held only =
      let same : hit p w s.waiting ≡ is_satisfied c w =
        by_test (hit p w s.waiting) (is_satisfied c w) (hit_sound p c w s.waiting only)
          (hit_complete p c w s.waiting held) in
      let woken : Woken p (is_satisfied c w) s
          (wake_all is_satisfied on_wake s.waiting [] (s, w)).1.0 =
        subst (λ b. Woken p b s (wake_all is_satisfied on_wake s.waiting [] (s, w)).1.0) same
          (wake_all-Woken p s.waiting [] s w) in
      (woken.0 ∙ ap (λ o. if is_satisfied c w then none else o) held, woken.1)
    where
      by_test : (a b : Bool) → (a ≡ true → b ≡ true) → (b ≡ true → a ≡ true) → a ≡ b
      by_test true b f g = sym (f refl)
      by_test false true f g = g refl
      by_test false false f g = refl
