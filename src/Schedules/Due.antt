-- ===== src/Schedules/Due.antt =====
-- Which entries emergence/scheduler/schedule_manager.py fires.
use emergence_os.Base.{
  ℕ, ◌≡◌, refl, ap, sym, ◌∙◌, subst, Bool, true, false, ◌||◌, ◌&&◌, not, some, some-injective, List,
  [], ◌∷◌, select, All, All-map, All-select, Outcome, returned, raised, if◌then◌else◌, ◌==◌, ltb,
  nat_eq, arith, Bool-cases, inl, inr,
}
use emergence_os.Base.Dict
use emergence_os.Base.Dict.{Dict}
use emergence_os.Kernel.{Kernel}
use emergence_os.Kernel.Revival.{is_raised}
use emergence_os.Schedules.{
  ScheduledEntry, ScheduleManager, World, mark_fired, fire_over, fire_entry, unless_raised,
  and_spawned, fire_due, pending_all, process_due,
}

-- The entry as it is once it is fired.
abbrev pub fired_of : ScheduledEntry → ScheduledEntry
fired_of e = record e { fired = true }

-- Each entry stands under its own id, and the values hold no other entry of that id.
pub record IsCoherent (m : ScheduleManager) : Type 0 where
  pub keyed : (i : ℕ) (e : ScheduledEntry) → Dict.get i m.entries ≡ some e → e.schedule_id ≡ i
  pub listed : All (λ e. Dict.get e.schedule_id m.entries ≡ some e) (Dict.values m.entries)

-- One of the entries has the id and is due.
owed : (now i : ℕ) → List ScheduledEntry → Bool
owed now i [] = false
owed now i (e ∷ entries) = ((e.schedule_id == i) && not (ltb now e.fire_at)) || owed now i entries

world-and_spawned :
    (process_id : ℕ) (r : Outcome (List ℕ) × World)
    → ((and_spawned process_id r).1 ≡ r.1)
      × (is_raised (and_spawned process_id r).0 ≡ is_raised r.0)
world-and_spawned process_id (raised e, w) = (refl, refl)
world-and_spawned process_id (returned ids, w) = (refl, refl)

-- The entry `i` after a loop that began with `c`.
abbrev Fired : (now i : ℕ) (e c : ScheduledEntry) → List ScheduledEntry → World → Type 0
Fired now i e c es w = Dict.get i w.1.entries ≡ some (if owed now i es then fired_of e else c)

-- The rest of a loop, for every kernel and every manager.
abbrev Rest : (now i : ℕ) (e : ScheduledEntry) → List ScheduledEntry → Type 0
Rest now i e es =
    (c : ScheduledEntry) (w : World)
    → Dict.get i w.1.entries ≡ some c
    → is_raised (fire_due now es w).0 ≡ false
    → Fired now i e c es (fire_due now es w).1

get-mark_fired :
    (i : ℕ) (e c x : ScheduledEntry) (p : ℕ) (m : ScheduleManager)
    → (x.schedule_id ≡ i → x ≡ e)
    → Dict.get i m.entries ≡ some c
    → Dict.get i (mark_fired x p m).entries ≡ some (if x.schedule_id == i then fired_of e else c)
get-mark_fired i e c x p m only held =
    Dict.get-put x.schedule_id i (fired_of x) m.entries
    ∙ by_test (x.schedule_id == i) (nat_eq.same_iff x.schedule_id i).0
  where
    by_test :
        (b : Bool)
        → (b ≡ true → x.schedule_id ≡ i)
        → (if b then some (fired_of x) else Dict.get i m.entries)
          ≡ some (if b then fired_of e else c)
    by_test true same = ap (λ y. some (fired_of y)) (only (same refl))
    by_test false same = held

after_fire :
    (now i : ℕ) (e c x : ScheduledEntry) (es : List ScheduledEntry) (o : Outcome ℕ × Kernel)
    (m : ScheduleManager)
    → Rest now i e es
    → (x.schedule_id ≡ i → x ≡ e)
    → Dict.get i m.entries ≡ some c
    → is_raised (unless_raised (fire_over o x m) (fire_due now es)).0 ≡ false
    → Dict.get i (unless_raised (fire_over o x m) (fire_due now es)).1.1.entries
      ≡ some (if (x.schedule_id == i) || owed now i es then fired_of e else c)
unfolding unless_raised fire_over
after_fire now i e c x es (raised err, k) m rest only held ok = absurd (true_or_false ok)
  where
    true_or_false : true ≡ false → ⊥
    true_or_false h = cc
after_fire now i e c x es (returned p, k) m rest only held ok =
    let w : World = (k, mark_fired x p m) in
    let (same, raised_alike) = world-and_spawned p (fire_due now es w) in
    ap (λ (v : World). Dict.get i v.1.entries) same
    ∙ (rest (if x.schedule_id == i then fired_of e else c) w (get-mark_fired i e c x p m only held)
          (sym raised_alike ∙ ok)
        ∙ ground arith)

by_time :
    (b : Bool) (now i : ℕ) (e c x : ScheduledEntry) (es : List ScheduledEntry) (w : World)
    → Rest now i e es
    → (x.schedule_id ≡ i → x ≡ e)
    → Dict.get i w.1.entries ≡ some c
    → is_raised
        (if b then fire_due now es w else unless_raised (fire_entry x w) (fire_due now es)).0
      ≡ false
    → Dict.get i
        (if b
          then fire_due now es w
          else unless_raised (fire_entry x w) (fire_due now es)).1.1.entries
      ≡ some (if ((x.schedule_id == i) && not b) || owed now i es then fired_of e else c)
unfolding fire_entry
by_time true now i e c x es w rest only held ok = rest c w held ok ∙ ground arith
by_time false now i e c x es (k, m) rest only held ok =
    after_fire now i e c x es _ m rest only held ok ∙ ground arith

-- A loop that does not raise, for an id of which the list holds one entry.
get-fire_due :
    (now i : ℕ) (e : ScheduledEntry) (es : List ScheduledEntry)
    → All (λ x. x.schedule_id ≡ i → x ≡ e) es
    → Rest now i e es
unfolding fire_due owed
get-fire_due now i e [] only c w held ok = held
get-fire_due now i e (x ∷ es) only c w held ok =
    by_time (ltb now x.fire_at) now i e c x es w (get-fire_due now i e es only.1) only.0 held ok

-- What an id is owed by the entries that were not fired, with `fired` for the head's field.
owed_head :
    (fired : Bool) (now i : ℕ) (e x : ScheduledEntry) (es : List ScheduledEntry)
    → ((x.schedule_id == i) ≡ true → fired ≡ e.fired)
    → ((x.schedule_id == i) ≡ true → ltb now x.fire_at ≡ ltb now e.fire_at)
    → (owed now i es ≡ true → (e.fired || ltb now e.fire_at) ≡ false)
    → owed now i (if not fired then x ∷ es else es) ≡ true
    → (e.fired || ltb now e.fire_at) ≡ false
unfolding owed
owed_head true now i e x es flag late below h = below h
owed_head false now i e x es flag late below h = ground arith

owed_sound :
    (now i : ℕ) (e : ScheduledEntry) (es : List ScheduledEntry)
    → All (λ x. x.schedule_id ≡ i → x ≡ e) es
    → owed now i (select (λ x. not x.fired) es) ≡ true
    → (e.fired || ltb now e.fire_at) ≡ false
unfolding owed select
owed_sound now i e [] only h = ground arith
owed_sound now i e (x ∷ es) only h =
    owed_head x.fired now i e x _
      (λ same.
        ap (λ (y : ScheduledEntry). y.fired) (only.0 ((nat_eq.same_iff x.schedule_id i).0 same)))
      (λ same.
        ap (λ (y : ScheduledEntry). ltb now y.fire_at)
          (only.0 ((nat_eq.same_iff x.schedule_id i).0 same)))
      (owed_sound now i e es only.1) h

owed_tail :
    (fired : Bool) (now i : ℕ) (x : ScheduledEntry) (es : List ScheduledEntry)
    → owed now i es ≡ true
    → owed now i (if not fired then x ∷ es else es) ≡ true
unfolding owed
owed_tail true now i x es h = h
owed_tail false now i x es h = ground arith

owed_here :
    (now i : ℕ) (e : ScheduledEntry) (es : List ScheduledEntry)
    → e.schedule_id ≡ i
    → (e.fired || ltb now e.fire_at) ≡ false
    → owed now i (if not e.fired then e ∷ es else es) ≡ true
unfolding owed
owed_here now i e es keyed h = ground arith

owed_complete :
    (now i : ℕ) (e : ScheduledEntry) (d : Dict ℕ ScheduledEntry)
    → Dict.get i d ≡ some e
    → e.schedule_id ≡ i
    → (e.fired || ltb now e.fire_at) ≡ false
    → owed now i (select (λ x. not x.fired) (Dict.values d)) ≡ true
unfolding owed select Dict.get Dict.values
owed_complete now i e [] held keyed h = cc
owed_complete now i e ((j, x) ∷ d) held keyed h = elim (Bool-cases (j == i)) [
  | inl same ↦
      subst
        (λ y.
          owed now i (
            if not y.fired
            then y ∷ select (λ z. not z.fired) (Dict.values d)
            else select (λ z. not z.fired) (Dict.values d))
          ≡ true)
        (sym (some-injective x e (sym (rw same refl) ∙ held))) (owed_here now i e _ keyed h)
  | inr other ↦
      owed_tail x.fired now i x _ (owed_complete now i e d (sym (rw other refl) ∙ held) keyed h)
]

-- When the due schedules are fired without an error, each entry that was pending and due is
-- fired, and every other entry is as it was; this for a manager that holds each entry under its own
-- id.
pub get-process_due :
    (now i : ℕ) (e : ScheduledEntry) (k : Kernel) (m : ScheduleManager)
    → IsCoherent m
    → Dict.get i m.entries ≡ some e
    → is_raised (process_due now (k, m)).0 ≡ false
    → Dict.get i (process_due now (k, m)).1.1.entries
      ≡ some (if e.fired || ltb now e.fire_at then e else fired_of e)
unfolding process_due pending_all
get-process_due now i e k m v held ok =
    get-fire_due now i e (pending_all m) (All-select _ _ (Dict.values m.entries) all) e (k, m) held
      ok
    ∙ ap (λ x. some x) (by_due (e.fired || ltb now e.fire_at) refl)
  where
    all : All (λ x. x.schedule_id ≡ i → x ≡ e) (Dict.values m.entries)
    all =
        All-map _ _ (Dict.values m.entries)
          (λ x own same.
            some-injective x e (sym own ∙ (ap (λ j. Dict.get j m.entries) same ∙ held)))
          v.listed

    true_or_false : true ≡ false → ⊥
    true_or_false h = cc

    by_due :
        (b : Bool)
        → (e.fired || ltb now e.fire_at) ≡ b
        → (if owed now i (pending_all m) then fired_of e else e) ≡ (if b then e else fired_of e)
    by_due true h = elim (Bool-cases (owed now i (pending_all m))) [
      | inl owes ↦
          absurd (true_or_false (sym h ∙ owed_sound now i e (Dict.values m.entries) all owes))
      | inr free ↦ rw free refl
    ]
    by_due false h = rw (owed_complete now i e m.entries held (v.keyed i e held) h) refl
