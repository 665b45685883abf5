-- ===== src/Kernel/Kept.antt =====
-- What the handlers of the kernel's events leave of a process that is not asleep.
use emergence_os.Base.{
  ℕ, ◌≡◌, refl, ap, sym, ◌∙◌, Bool, true, false, Option, none, some, some-injective, Outcome,
  returned, raised, if◌then◌else◌, ◌==◌, nat_eq, Bool-cases, process_not_found, inl, inr,
}
use emergence_os.Base.Dict
use emergence_os.Base.Dict.{Dict}
use emergence_os.Event.{Event, process_ready}
use emergence_os.Kernel.{Kernel, and_then, change, is_satisfied}
use emergence_os.Kernel.Publish.{tell_scheduler}
use emergence_os.Kernel.Wake.{wake_process, wake_found, is_asleep, event_of, log}
use emergence_os.Process
use emergence_os.Process.{Process}
use emergence_os.Process.Identity.{process_id-wake}
use emergence_os.Registries.ProcessTable
use emergence_os.Registries.{or_raise}
use emergence_os.Scheduler.World.{on_event-keeps}

-- Each process of the table stands under its own id.
abbrev pub IsKeyed : Dict ℕ Process → Type 0
IsKeyed table = (i : ℕ) (q : Process) → Dict.get i table ≡ some q → q.process_id ≡ i

-- The process is in the table, and the counts that the supervisor reads are those of `before`.
pub record Keeps (p : Process) (before k : Kernel) : Type 0 where
  pub held : Dict.get p.process_id k.process_table ≡ some p
  pub keyed : IsKeyed k.process_table
  pub retries : k.retry_counts ≡ before.retry_counts
  pub saved : k.recoverable ≡ before.recoverable

-- Two processes of the table of which one alone is asleep stand under two ids.
apart :
    (p q : Process) (i : ℕ) (table : Dict ℕ Process)
    → is_asleep p.state ≡ false
    → is_asleep q.state ≡ true
    → Dict.get i table ≡ some q
    → Dict.get p.process_id table ≡ some p
    → (i == p.process_id) ≡ false
apart p q i table up down found held = elim (Bool-cases (i == p.process_id)) [
  | inl same ↦
      let id : i ≡ p.process_id = (nat_eq.same_iff i p.process_id).0 same in
      let one : q ≡ p = some-injective q p (sym found ∙ (ap (λ j. Dict.get j table) id ∙ held)) in
      absurd (true_or_false (sym down ∙ (ap (λ (r : Process). is_asleep r.state) one ∙ up)))
  | inr other ↦ other
]
  where
    true_or_false : true ≡ false → ⊥
    true_or_false h = cc

pub put-IsKeyed :
    (r : Process) (table : Dict ℕ Process) → IsKeyed table → IsKeyed (Dict.put r.process_id r table)
put-IsKeyed r table keyed j q h = elim (Bool-cases (r.process_id == j)) [
  | inl same ↦
      let one : r ≡ q =
        some-injective r q (sym (Dict.get-put r.process_id j r table ∙ rw same refl) ∙ h) in
      ap (λ (x : Process). x.process_id) (sym one) ∙ (nat_eq.same_iff r.process_id j).0 same
  | inr other ↦ keyed j q (sym (Dict.get-put r.process_id j r table ∙ rw other refl) ∙ h)
]

woken :
    (p q : Process) (i : ℕ) (before k : Kernel) (o : Outcome Process)
    → (i == p.process_id) ≡ false
    → Dict.get i k.process_table ≡ some q
    → ((r : Process) → o ≡ returned r → r.process_id ≡ q.process_id)
    → Keeps p before k
    → Keeps p before
        (and_then
          (change o k)
          λ r k₁. (returned tt, log (event_of process_ready r.process_id none none k₁) k₁)).1
woken p q i before k (raised e) other found same h = h
woken p q i before k (returned r) other found same h =
    let id : r.process_id ≡ i = same r refl ∙ h.keyed i q found in
    let apart : (r.process_id == p.process_id) ≡ false = ap (λ j. j == p.process_id) id ∙ other in
    record {
      held =
          Dict.get-put r.process_id p.process_id r k.process_table
          ∙ (if_false {b = r.process_id == p.process_id} apart (some r) h.held);
      keyed = put-IsKeyed r k.process_table h.keyed;
      retries = h.retries;
      saved = h.saved;
    }
  where
    if_false :
        {b : Bool}
        → b ≡ false
        → (x : Option Process) {y z : Option Process} → y ≡ z
        → (if b then x else y) ≡ z
    if_false off x same = rw off same

wake_found-Keeps :
    (b : Bool) (p q : Process) (i : ℕ) (before k : Kernel)
    → is_asleep p.state ≡ false
    → is_asleep q.state ≡ b
    → Dict.get i k.process_table ≡ some q
    → Keeps p before k
    → Keeps p before (wake_found b q k).1
unfolding wake_found
wake_found-Keeps false p q i before k up down found h = h
wake_found-Keeps true p q i before k up down found h =
    woken p q i before k (Process.wake k.clock q) (apart p q i k.process_table up down found h.held)
      found (process_id-wake k.clock q) h

wake_process-Keeps :
    (p : Process) (i : ℕ) (before k : Kernel)
    → is_asleep p.state ≡ false
    → Keeps p before k
    → Keeps p before (wake_process i k).1
unfolding wake_process ProcessTable.get
wake_process-Keeps p i before k up h = by_entry (Dict.get i k.process_table) refl
  where
    by_entry :
        (o : Option Process)
        → Dict.get i k.process_table ≡ o
        → Keeps p before
            (and_then
              (or_raise process_not_found o, k)
              λ q k₁. wake_found (is_asleep q.state) q k₁).1
    by_entry none found = h
    by_entry (some q) found = wake_found-Keeps (is_asleep q.state) p q i before k up refl found h

pub tell_scheduler-Keeps :
    (p : Process) (event : Event) (before k : Kernel)
    → is_asleep p.state ≡ false
    → Keeps p before k
    → Keeps p before (tell_scheduler event k)
unfolding tell_scheduler
tell_scheduler-Keeps p event before k up h =
    let told =
      on_event-keeps is_satisfied wake_process (Keeps p before)
        (λ i w. wake_process-Keeps p i before w up) event k.scheduler k h in
    record { held = told.held; keyed = told.keyed; retries = told.retries; saved = told.saved }
