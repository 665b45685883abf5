-- ===== src/Kernel/Failure.antt =====
-- The handling of a failure by emergence/kernel/kernel.py, and what it leaves of the process.
use emergence_os.Base.{
  ℕ, ◌+◌, ◌≡◌, refl, ap, sym, ◌∙◌, subst, Bool, true, false, none, some, Outcome, returned, raised,
  nat_eq, ltb,
}
use emergence_os.Base.Dict
use emergence_os.Checkpoint.{latest_for_process}
use emergence_os.Event.{process_failed}
use emergence_os.Kernel.{Kernel, Did}
use emergence_os.Kernel.Dispatch.{after_failure, tell_failure, cleanup_process, cleanup_found, now}
use emergence_os.Kernel.Kept.{Keeps, IsKeyed, tell_scheduler-Keeps}
use emergence_os.Kernel.Publish.{publish_event, deliver, tell_scheduler}
use emergence_os.Kernel.Retries.{
  IsPlain, after, on_process_failed-IsPlain, retry_or_terminate-IsPlain,
  retries_of-retry_or_terminate,
}
use emergence_os.Kernel.Supervisor.{
  on_process_failed, retries_of, retry_or_terminate, resumed, or_zero,
}
use emergence_os.Kernel.Wake.{event_of, log, is_asleep}
use emergence_os.Process.{Process, is_finished}

-- A process and its count of retries after a failure, by whether a retry was left.
abbrev pub IsLeft : Bool → Process → (retries : ℕ) → Kernel → Type 0
IsLeft true p retries k =
    (Dict.get p.process_id k.process_table ≡ some (resumed p))
    × (retries_of p.process_id k ≡ retries + 1)
IsLeft false p retries k =
    (Dict.get p.process_id k.process_table ≡ some p) × (retries_of p.process_id k ≡ retries)

retry_or_terminate-IsLeft :
    (b : Bool) (p : Process) (limit : ℕ) (k : Kernel)
    → IsPlain p limit k
    → IsLeft b p (retries_of p.process_id k) (retry_or_terminate b (retries_of p.process_id k) p k)
unfolding after
retry_or_terminate-IsLeft true p limit k h =
    ((retry_or_terminate-IsPlain true p limit k h).held, retries_of-retry_or_terminate true p k)
retry_or_terminate-IsLeft false p limit k h =
    ((retry_or_terminate-IsPlain false p limit k h).held, retries_of-retry_or_terminate false p k)

-- The supervisor, on a kernel that keeps the process.
supervised :
    (p : Process) (limit : ℕ) (before k : Kernel)
    → IsPlain p limit before
    → Keeps p before k
    → IsLeft
        (ltb (retries_of p.process_id before) limit)
        p
        (retries_of p.process_id before)
        (on_process_failed p.process_id k).1
supervised p limit before k h keeps =
    let same : retries_of p.process_id k ≡ retries_of p.process_id before =
      unfold retries_of in ap (λ d. or_zero (Dict.get p.process_id d)) keeps.retries in
    let plain : IsPlain p limit k = record {
      held = keeps.held;
      limited = h.limited;
      unsaved = ap (λ r. latest_for_process p.process_id r.checkpoints) keeps.saved ∙ h.unsaved;
    } in
    subst (λ n. IsLeft (ltb n limit) p n (on_process_failed p.process_id k).1) same
      (subst (λ x. IsLeft (ltb (retries_of p.process_id k) limit) p (retries_of p.process_id k) x)
        (sym (ap (λ (r : Did (Unit {0})). r.1) (on_process_failed-IsPlain p limit k plain)))
        (retry_or_terminate-IsLeft (ltb (retries_of p.process_id k) limit) p limit k plain))

-- The event of the failure of a process that is not asleep.
pub publish_failed-IsLeft :
    (p : Process) (limit : ℕ) (k : Kernel)
    → is_asleep p.state ≡ false
    → IsKeyed k.process_table
    → IsPlain p limit k
    → IsLeft
        (ltb (retries_of p.process_id k) limit)
        p
        (retries_of p.process_id k)
        (publish_event process_failed p.process_id none none k).1
unfolding publish_event deliver
publish_failed-IsLeft p limit k up keyed h =
    let event = event_of process_failed p.process_id none none k in
    supervised p limit k (tell_scheduler event (log event k)) h (
      tell_scheduler-Keeps p event k (log event k) up
        (record { held = h.held; keyed = keyed; retries = refl; saved = refl }))

-- Changes of other parts of the kernel.
elsewhere-IsLeft :
    (b : Bool) (q : Process) (retries : ℕ) (k k' : Kernel)
    → k'.process_table ≡ k.process_table
    → k'.retry_counts ≡ k.retry_counts
    → IsLeft b q retries k
    → IsLeft b q retries k'
unfolding retries_of
elsewhere-IsLeft true q retries k k' table counts h = (
  ap (λ d. Dict.get q.process_id d) table ∙ h.0,
  ap (λ d. or_zero (Dict.get q.process_id d)) counts ∙ h.1,
)
elsewhere-IsLeft false q retries k k' table counts h = (
  ap (λ d. Dict.get q.process_id d) table ∙ h.0,
  ap (λ d. or_zero (Dict.get q.process_id d)) counts ∙ h.1,
)

cleanup_found-IsLeft :
    (c b : Bool) (i : ℕ) (q : Process) (retries : ℕ) (k : Kernel)
    → IsLeft b q retries k
    → IsLeft b q retries (cleanup_found c i k)
unfolding cleanup_found
cleanup_found-IsLeft true b i q retries k h = elsewhere-IsLeft b q retries k _ refl refl h
cleanup_found-IsLeft false b i q retries k h = h

after_failure-IsLeft :
    (b : Bool) (o : Outcome Process) (p q : Process) (retries : ℕ) (k : Kernel)
    (t : Outcome (Unit {0}))
    → IsLeft b q retries k
    → IsLeft b q retries (after_failure o p (t, k)).1
unfolding after_failure cleanup_process
after_failure-IsLeft b (raised e) p q retries k (returned u) h = h
after_failure-IsLeft b (raised e) p q retries k (raised e') h = h
after_failure-IsLeft b (returned r) p q retries k (raised e') h = h
after_failure-IsLeft b (returned r) p q retries k (returned u) h =
    cleanup_found-IsLeft (is_finished (now p k)) b p.process_id q retries k h

-- `fail_process` after the transition, which gave `o` and left the table as in `k`.
abbrev pub failing : Outcome Process → Process → Kernel → Did (Unit {0})
failing o p k =
    after_failure o p
      (tell_failure p.process_id (publish_event process_failed p.process_id none none k).1)

pub failing-IsLeft :
    (o : Outcome Process) (p q : Process) (limit : ℕ) (k : Kernel)
    → q.process_id ≡ p.process_id
    → is_asleep q.state ≡ false
    → IsKeyed k.process_table
    → IsPlain q limit k
    → IsLeft (ltb (retries_of q.process_id k) limit) q (retries_of q.process_id k) (failing o p k).1
unfolding tell_failure
failing-IsLeft o p q limit k id up keyed h =
    let b = ltb (retries_of q.process_id k) limit in
    let k₂ = (publish_event process_failed p.process_id none none k).1 in
    let failed : IsLeft b q (retries_of q.process_id k) k₂ =
      subst
        (λ i. IsLeft b q (retries_of q.process_id k) (publish_event process_failed i none none k).1)
        id (publish_failed-IsLeft q limit k up keyed h) in
    after_failure-IsLeft b o p q (retries_of q.process_id k) _ _
      (elsewhere-IsLeft b q (retries_of q.process_id k) k₂ _ refl refl failed)
