-- ===== src/Kernel/Revival.antt =====
-- What a process of emergence/kernel/kernel.py comes to when it fails, by the retries that are left.
use emergence_os.Base.{
  ℕ, ◌+◌, ◌≡◌, refl, ap, sym, ◌∙◌, subst, String, Bool, true, false, Option, some, Outcome,
  returned, raised, Error, value_error, if◌then◌else◌, ==_refl, nat_eq, ltb, arith, ◌<◌,
}
use emergence_os.Base.Dict
use emergence_os.Budget.{can_dispatch}
use emergence_os.Kernel.{Kernel, Did, and_then, put_process, change}
use emergence_os.Kernel.Dispatch.{
  Body, fail_process, run_process, dispatch, start_process, now, after_failure, tell_failure,
}
use emergence_os.Kernel.Failure.{IsLeft, failing, failing-IsLeft}
use emergence_os.Kernel.Kept.{IsKeyed, put-IsKeyed}
use emergence_os.Kernel.Retries.{IsPlain}
use emergence_os.Kernel.Supervisor.{retries_of, resumed}
use emergence_os.Kernel.Wake.{is_asleep}
use emergence_os.Process
use emergence_os.Process.{Process}
use emergence_os.Process.Identity.{fail-eq-returned}
use emergence_os.Registries.ProcessTable
use emergence_os.State.{ProcessState}

-- The two cases of `IsLeft` in one.
by_retries :
    (b : Bool) (q : Process) (retries : ℕ) (k : Kernel)
    → IsLeft b q retries k
    → (Dict.get q.process_id k.process_table ≡ some (if b then resumed q else q))
      × (retries_of q.process_id k ≡ (if b then retries + 1 else retries))
by_retries true q retries k h = h
by_retries false q retries k h = h

pub now-held :
    (p : Process) (k : Kernel) → Dict.get p.process_id k.process_table ≡ some p → now p k ≡ p
unfolding now
now-held p k held = rw held refl

put-IsPlain :
    (p q : Process) (limit : ℕ) (k : Kernel)
    → q.process_id ≡ p.process_id
    → q.budget ≡ p.budget
    → IsPlain p limit k
    → IsPlain q limit (put_process q k)
put-IsPlain p q limit k id budget h = record {
  held = Dict.get-put q.process_id q.process_id q k.process_table ∙ rw (==_refl q.process_id) refl;
  limited = ap (λ b. b.max_retries) budget ∙ h.limited;
  unsaved = rw id h.unsaved;
}

-- `fail_process` from the answer of the transition on.
abbrev handled : Outcome Process → Process → Kernel → Did (Unit {0})
handled o p k = let (outcome, k₁) = change o k in failing outcome p k₁

-- A process that fails is ready again, with one more retry on its count, while retries are left, and
-- stays failed, with the same count, when none is; this for a table that holds the process, and each
-- process under its own id, and a process that may fail in its state, that may be retried `limit`
-- times and that has no checkpoint.
pub fail_process_retries :
    (p q : Process) (reason : String) (limit : ℕ) (k : Kernel)
    → Process.fail (some reason) k.clock p ≡ returned q
    → IsKeyed k.process_table
    → IsPlain p limit k
    → (Dict.get q.process_id (fail_process p reason k).1.process_table
        ≡ some (if ltb (retries_of q.process_id k) limit then resumed q else q))
      × (retries_of q.process_id (fail_process p reason k).1 ≡ (
          if ltb (retries_of q.process_id k) limit
          then retries_of q.process_id k + 1
          else retries_of q.process_id k))
unfolding fail_process
fail_process_retries p q reason limit k failed keyed h =
    let (id, budget, state, _) = fail-eq-returned (some reason) k.clock p q failed in
    let went : Process.fail (some reason) k.clock (now p k) ≡ returned q =
      ap (λ x. Process.fail (some reason) k.clock x) (now-held p k h.held) ∙ failed in
    subst
      (λ o.
        (Dict.get q.process_id (handled o p k).1.process_table
          ≡ some (if ltb (retries_of q.process_id k) limit then resumed q else q))
        × (retries_of q.process_id (handled o p k).1 ≡ (
            if ltb (retries_of q.process_id k) limit
            then retries_of q.process_id k + 1
            else retries_of q.process_id k)))
      (sym went)
      (by_retries (ltb (retries_of q.process_id k) limit) q (retries_of q.process_id k) _ (
        failing-IsLeft (returned q) p q limit (put_process q k) id (ap is_asleep state)
          (put-IsKeyed q k.process_table keyed) (put-IsPlain p q limit k id budget h)))

abbrev pub is_raised : {A : Type 0} → Outcome A → Bool
is_raised (returned a) = false
is_raised (raised e) = true

-- What is left of a process whose transitions are refused.
refused :
    (p : Process) (reason : String) (limit : ℕ) (k : Kernel)
    → Process.fail (some reason) k.clock p ≡ raised value_error
    → is_asleep p.state ≡ false
    → IsKeyed k.process_table
    → IsPlain p limit k
    → (retries_of p.process_id k) < limit
    → (is_raised (fail_process p reason k).0 ≡ true)
      × (Dict.get p.process_id (fail_process p reason k).1.process_table ≡ some (resumed p))
unfolding fail_process after_failure
refused p reason limit k failed up keyed h left =
    let went : Process.fail (some reason) k.clock (now p k) ≡ raised value_error =
      ap (λ x. Process.fail (some reason) k.clock x) (now-held p k h.held) ∙ failed in
    let test : ltb (retries_of p.process_id k) limit ≡ true = ground arith in
    let done : IsLeft true p (retries_of p.process_id k) (failing (raised value_error) p k).1 =
      subst (λ b. IsLeft b p (retries_of p.process_id k) (failing (raised value_error) p k).1) test
        (failing-IsLeft (raised value_error) p p limit k refl up keyed h) in
    subst
      (λ o.
        (is_raised (handled o p k).0 ≡ true)
        × (Dict.get p.process_id (handled o p k).1.process_table ≡ some (resumed p)))
      (sym went) (stays value_error (tell_failure p.process_id _), done.0)
  where
    stays : (e : Error) (d : Did (Unit {0})) → is_raised (after_failure (raised e) p d).0 ≡ true
    stays e (returned _, k) = refl
    stays e (raised e', k) = refl

transitions_refused :
    (p : Process) (now : ℕ) (reason : Option String)
    → p.state ≡ ProcessState.cancelled
    → (Process.start now p ≡ raised value_error) × (Process.fail reason now p ≡ raised value_error)
unfolding Process.start Process.fail
transitions_refused p now reason cancelled = (ground arith, ground arith)

-- `run_process` of a process that was found, by the outcome of its start.
start_refused :
    (body : Body) (p : Process) (k : Kernel)
    → Process.start k.clock p ≡ raised value_error
    → start_process body p k ≡ fail_process p "invalid transition" k
unfolding start_process
start_refused body p k h = rw h refl

and_then_raised :
    (process_id : ℕ) (p : Process) (d : Did (Unit {0}))
    → (is_raised d.0 ≡ true) × (Dict.get p.process_id d.1.process_table ≡ some (resumed p))
    → (is_raised (and_then d λ _ k₃. (returned (some process_id), k₃)).0 ≡ true)
      × (Dict.get p.process_id (and_then d λ _ k₃. (returned (some process_id), k₃)).1.process_table
          ≡ some (resumed p))
and_then_raised process_id p (raised e, k) h = (refl, h.1)
and_then_raised process_id p (returned u, k) h = absurd (false_or_true h.0)
  where
    false_or_true : false ≡ true → ⊥
    false_or_true h = cc

-- Running a cancelled process raises, and leaves it in the state READY, when its budget admits it, a
-- retry is left and it has no checkpoint; this for a table that holds the process, and each process
-- under its own id.
pub run_process-cancelled :
    (body : Body) (p : Process) (limit : ℕ) (k : Kernel)
    → p.state ≡ ProcessState.cancelled
    → (can_dispatch p.process_id p.budget k.recoverable.budgets).0 ≡ true
    → IsKeyed k.process_table
    → IsPlain p limit k
    → retries_of p.process_id k < limit
    → (is_raised (run_process body p.process_id k).0 ≡ true)
      × (Dict.get p.process_id (run_process body p.process_id k).1.process_table ≡ some (resumed p))
unfolding run_process dispatch start_process ProcessTable.get
run_process-cancelled body p limit k cancelled allowed keyed h left =
    let budgets = (can_dispatch p.process_id p.budget k.recoverable.budgets).1 in
    let k₂ = record k { recoverable = record k.recoverable { budgets = budgets } } in
    let (start, failed) = transitions_refused p k.clock (some "invalid transition") cancelled in
    let up : is_asleep p.state ≡ false = ap is_asleep cancelled in
    let plain : IsPlain p limit k₂ = record {
      held = h.held;
      limited = h.limited;
      unsaved = h.unsaved;
    } in
    let ended : dispatch body (can_dispatch p.process_id p.budget k.recoverable.budgets).0 p k₂
        ≡ fail_process p "invalid transition" k₂ =
      ap (λ b. dispatch body b p k₂) allowed ∙ start_refused body p k₂ start in
    rw h.held (
      and_then_raised p.process_id p _
        (rw ended (refused p "invalid transition" limit k₂ failed up keyed plain left)))
