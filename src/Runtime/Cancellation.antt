-- ===== src/Runtime/Cancellation.antt =====
-- What the cancellation of a goal by emergence/kernel/kernel.py leaves of the goal's processes.
use emergence_os.Base.{
  ℕ, ◌≡◌, refl, ap, sym, ◌∙◌, subst, Bool, true, false, Option, none, some, some-injective, List,
  [], ◌∷◌, if◌then◌else◌, ◌==◌, ==_refl, nat_eq, Bool-cases, inl, inr, arith,
}
use emergence_os.Base.Bag
use emergence_os.Base.Dict
use emergence_os.Event.{process_cancelled}
use emergence_os.Goals.{GoalRecord, all_process_ids}
use emergence_os.Kernel.{Kernel, put_process}
use emergence_os.Kernel.Dispatch.{now, cleanup_process, cleanup_found}
use emergence_os.Kernel.Kept.{IsKeyed, put-IsKeyed, tell_scheduler-Keeps}
use emergence_os.Kernel.Publish.{publish_event, deliver}
use emergence_os.Kernel.Wake.{event_of, log, is_asleep}
use emergence_os.Process
use emergence_os.Process.{Process, is_finished}
use emergence_os.Process.Identity.{cancel-returns}
use emergence_os.Runtime.Presence.{IsPresent, cancel_found-IsPresent}
use emergence_os.Runtime.{
  announce_cancelled, cancel_over, cancel_found, cancel_all, cancel_goal_processes,
}
use emergence_os.State.{ProcessState}

-- The table holds the process, and each process under its own id.
record Holds (p : Process) (k : Kernel) : Type 0 where
  held : Dict.get p.process_id k.process_table ≡ some p
  keyed : IsKeyed k.process_table

finished_up : (p : Process) → is_finished p ≡ true → is_asleep p.state ≡ false
unfolding is_finished
finished_up p h = ground arith

cleanup_found-Holds :
    (c : Bool) (i : ℕ) (p : Process) (k : Kernel) → Holds p k → Holds p (cleanup_found c i k)
unfolding cleanup_found
cleanup_found-Holds true i p k h = record { held = h.held; keyed = h.keyed }
cleanup_found-Holds false i p k h = h

published-Holds :
    (p : Process) (i : ℕ) (k : Kernel)
    → is_finished p ≡ true
    → Holds p k
    → Holds p (publish_event process_cancelled i none none k).1
unfolding publish_event deliver
published-Holds p i k done h =
    let event = event_of process_cancelled i none none k in
    let told =
      tell_scheduler-Keeps p event k (log event k) (finished_up p done)
        (record { held = h.held; keyed = h.keyed; retries = refl; saved = refl }) in
    record { held = told.held; keyed = told.keyed }

announced-Holds :
    (p q : Process) (k : Kernel)
    → is_finished p ≡ true
    → Holds p (put_process q k)
    → Holds p (announce_cancelled q k)
unfolding announce_cancelled cleanup_process
announced-Holds p q k done h =
    let k₁ = (publish_event process_cancelled q.process_id none none (put_process q k)).1 in
    cleanup_found-Holds (is_finished (now q k₁)) q.process_id p k₁
      (published-Holds p q.process_id (put_process q k) done h)

-- A process that is put under an id that another one has.
kept_apart :
    (p q : Process) (k : Kernel)
    → (q.process_id == p.process_id) ≡ false
    → Holds p k
    → Holds p (put_process q k)
kept_apart p q k other h = record {
  held =
      Dict.get-put q.process_id p.process_id q k.process_table
      ∙ if_false {b = q.process_id == p.process_id} other (some q) h.held;
  keyed = put-IsKeyed q k.process_table h.keyed;
}
  where
    if_false :
        {b : Bool}
        → b ≡ false
        → (x : Option Process) {y z : Option Process} → y ≡ z
        → (if b then x else y) ≡ z
    if_false off x same = rw off same

put_now : (q : Process) (k : Kernel) → IsKeyed k.process_table → Holds q (put_process q k)
put_now q k keyed = record {
  held = Dict.get-put q.process_id q.process_id q k.process_table ∙ rw (==_refl q.process_id) refl;
  keyed = put-IsKeyed q k.process_table keyed;
}

-- A finished process of the id, which the table holds.
record IsOver (i : ℕ) (k : Kernel) : Type 0 where
  process : Process
  named : process.process_id ≡ i
  finished : is_finished process ≡ true
  holds : Holds process k

cancelled_over : (q : Process) → q.state ≡ ProcessState.cancelled → is_finished q ≡ true
unfolding is_finished
cancelled_over q h = ground arith

-- One round of the loop, for a process that is unfinished.
cancelled :
    (i : ℕ) (p : Process) (k : Kernel)
    → is_finished p ≡ false
    → p.process_id ≡ i
    → IsKeyed k.process_table
    → IsOver i (cancel_over (Process.cancel k.clock p) p k).1
unfolding cancel_over
cancelled i p k live named keyed =
    let (q, went, id, state) = cancel-returns k.clock p live in
    let over : is_finished q ≡ true = cancelled_over q state in
    rw went record {
      process = q;
      named = id ∙ named;
      finished = over;
      holds = announced-Holds q q k over (put_now q k keyed);
    }

-- The rounds of the loop keep what is over.
over_stays :
    (i j : ℕ) (q : Process) (k : Kernel)
    → is_finished q ≡ false
    → Dict.get j k.process_table ≡ some q
    → IsOver i k
    → IsOver i (cancel_over (Process.cancel k.clock q) q k).1
unfolding cancel_over
over_stays i j q k live found over =
    let p = over.process in
    let at : q.process_id ≡ j = over.holds.keyed j q found in
    let apart : (q.process_id == p.process_id) ≡ false =
      differ (q.process_id == p.process_id) refl in
    let (r, went, id, _) = cancel-returns k.clock q live in
    rw went record {
      process = p;
      named = over.named;
      finished = over.finished;
      holds =
          announced-Holds p r k over.finished
            (kept_apart p r k (ap (λ n. n == p.process_id) id ∙ apart) over.holds);
    }
  where
    false_or_true : false ≡ true → ⊥
    false_or_true h = cc

    differ :
        (b : Bool)
        → (q.process_id == over.process.process_id) ≡ b
        → (q.process_id == over.process.process_id) ≡ false
    differ false h = h
    differ true h =
        let same : q.process_id ≡ over.process.process_id =
          (nat_eq.same_iff q.process_id over.process.process_id).0 h in
        let one : q ≡ over.process = some-injective q over.process (
          sym found
          ∙ (ap (λ n. Dict.get n k.process_table) (sym (over.holds.keyed j q found) ∙ same)
              ∙ over.holds.held)) in
        absurd (false_or_true (sym live ∙ (ap is_finished one ∙ over.finished)))

round-IsOver :
    (i j : ℕ) (k : Kernel) → IsOver i k → IsOver i (cancel_found (Dict.get j k.process_table) k).1
unfolding cancel_found
round-IsOver i j k over = by_entry (Dict.get j k.process_table) refl
  where
    by_entry : (o : Option Process) → Dict.get j k.process_table ≡ o → IsOver i (cancel_found o k).1
    by_entry none found = over
    by_entry (some q) found = elim (Bool-cases (is_finished q)) [
      | inl done ↦ rw done over
      | inr live ↦ rw live (over_stays i j q k live found over)
    ]

cancel_all-IsOver :
    (i : ℕ) (pids : List ℕ) (k : Kernel) → IsOver i k → IsOver i (cancel_all pids k).1
unfolding cancel_all
cancel_all-IsOver i [] k over = over
cancel_all-IsOver i (j ∷ pids) k over = cancel_all-IsOver i pids _ (round-IsOver i j k over)

-- The round for the process itself.
own_round :
    (i : ℕ) (p : Process) (k : Kernel)
    → Dict.get i k.process_table ≡ some p
    → IsKeyed k.process_table
    → IsOver i (cancel_found (Dict.get i k.process_table) k).1
unfolding cancel_found
own_round i p k found keyed =
    let named : p.process_id ≡ i = keyed i p found in
    subst (λ o. IsOver i (cancel_found o k).1) (sym found)
      (elim (Bool-cases (is_finished p)) [
        | inl done ↦ rw done record {
          process = p;
          named = named;
          finished = done;
          holds = record {
            held = ap (λ n. Dict.get n k.process_table) named ∙ found;
            keyed = keyed;
          };
        }
        | inr live ↦ rw live (cancelled i p k live named keyed)
      ])

-- One of the rounds is for the process.
some_round :
    (i : ℕ) (pids : List ℕ) (k : Kernel)
    → Bag.has i pids ≡ true
    → IsPresent i k
    → IsOver i (cancel_all pids k).1
unfolding cancel_all Bag.has
some_round i [] k among h = cc
some_round i (j ∷ pids) k among h = elim (Bool-cases (j == i)) [
  | inl same ↦
      let at : j ≡ i = (nat_eq.same_iff j i).0 same in
      cancel_all-IsOver i pids _ (
        subst (λ n. IsOver i (cancel_found (Dict.get n k.process_table) k).1) (sym at)
          (own_round i h.process k h.held h.keyed))
  | inr other ↦
      some_round i pids _ (sym (rw other refl) ∙ among)
        (cancel_found-IsPresent i (Dict.get j k.process_table) k h)
]

-- After a goal was cancelled, each of its processes that the table held is finished, and still in the
-- table, whatever the cancellations before it woke; this for a table that holds each process under
-- its own id.
pub cancel_goal_processes-finished :
    (goal_id i : ℕ) (r : GoalRecord) (p : Process) (k : Kernel)
    → Dict.get goal_id k.goals.records ≡ some r
    → Bag.has i (all_process_ids r) ≡ true
    → Dict.get i k.process_table ≡ some p
    → IsKeyed k.process_table
    → (q : Process) × (Dict.get i (cancel_goal_processes goal_id k).1.process_table ≡ some q)
      × (is_finished q ≡ true)
unfolding cancel_goal_processes
cancel_goal_processes-finished goal_id i r p k found among held keyed =
    let over =
      some_round i (all_process_ids r) k among
        (record { process = p; held = held; keyed = keyed }) in
    rw found (
      over.process,
      sym (ap (λ n. Dict.get n (cancel_all (all_process_ids r) k).1.process_table) over.named)
          ∙ over.holds.held,
      over.finished,
    )
