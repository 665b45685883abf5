-- ===== src/Scheduler/Invariant.antt =====
-- The invariant that ties the fields of the scheduler together, kept by every operation.
use emergence_os.Base.{
  ℕ, ◌+◌, ◌≤◌, ◌≡◌, refl, subst, true, false, not, List, [], ◌∷◌, returned, returned-injective, All,
  All-map, All-select, select, arith, ◌==◌, nat_eq, inl, inr, Bool-cases,
}
use emergence_os.Base.Bag
use emergence_os.Base.Bag.{Distinct}
use emergence_os.Base.Dict
use emergence_os.Base.Dict.{Dict}
use emergence_os.Base.Int.{ℤ, neg}
use emergence_os.Scheduler.{
  Scheduler, clear, add_to_queue, priority_of, enqueue, pop_first, dequeue, mark_waiting,
  release_or_keep, release_all, notify_completed, requeue,
}
use emergence_os.Scheduler.Queue.{
  Entry, heappush, pids, IsSorted, All-heappush, heappush-IsSorted, has-pids-heappush,
  heapify-eq_self, select-IsSorted, has-pids-select,
}

-- The queue is in order, its sequence numbers were all given out, `_membership` holds exactly the
-- queued processes, none of them twice, and no queued process is waiting.
pub record WellFormed {C : Type 0} (s : Scheduler C) : Type 0 where
  pub sorted : IsSorted s.queue
  pub numbered : All (λ e. e.seq ≤ s.seq) s.queue
  pub members : (p : ℕ) → Bag.has p s.membership ≡ Bag.has p (pids s.queue)
  pub distinct : Distinct (pids s.queue)
  pub apart : (p : ℕ) → Bag.has p (pids s.queue) ≡ true → Dict.has p s.waiting ≡ false

Distinct-pids-heappush :
    (e : Entry) (queue : List Entry)
    → Bag.has e.pid (pids queue) ≡ false
    → Distinct (pids queue)
    → Distinct (pids (heappush e queue))
unfolding heappush pids Bag.has
Distinct-pids-heappush e [] h d = (refl, tt)
Distinct-pids-heappush e (f ∷ queue) h d =
    ground (arith, has-pids-heappush f.pid e queue, Distinct-pids-heappush e queue)

Distinct-pids-select :
    (q : ℕ) (queue : List Entry)
    → Distinct (pids queue)
    → Distinct (pids (select (λ e. not (e.pid == q)) queue))
unfolding pids Bag.has select
Distinct-pids-select q [] d = tt
Distinct-pids-select q (e ∷ queue) d =
    ground (arith, has-pids-select e.pid q queue, Distinct-pids-select q queue)

module _ {C : Type 0} where
  pub clear-WellFormed : WellFormed {C = C} clear
  unfolding pids Bag.has
  clear-WellFormed = record {
    sorted = tt;
    numbered = tt;
    members = λ p. refl;
    distinct = tt;
    apart = λ p h. cc;
  }

  pub add_to_queue-WellFormed :
      (pid : ℕ) (priority : ℤ) (s : Scheduler C)
      → WellFormed s
      → WellFormed (add_to_queue pid priority s)
  unfolding add_to_queue
  add_to_queue-WellFormed pid priority s v = elim (Bool-cases (Bag.has pid s.membership)) [
    | inl queued ↦ rw queued v
    | inr absent ↦ elim (Bool-cases (Dict.has pid s.waiting)) [
      | inl waits ↦ rw (absent, waits) v
      | inr free ↦
          let e : Entry = record { key = neg priority; seq = s.seq + 1; pid = pid } in
          rw (absent, free)
            (record {
              sorted =
                  heappush-IsSorted e s.queue
                    (All-map _ _ s.queue (λ (f : Entry) h. omega arith) v.numbered) v.sorted;
              numbered =
                  All-heappush (λ f. f.seq ≤ s.seq + 1) e s.queue (omega arith)
                    (All-map _ _ s.queue (λ (f : Entry) h. omega arith) v.numbered);
              members = λ p. ground (
                arith,
                Bag.has-add pid p s.membership,
                has-pids-heappush p e s.queue,
                v.members p,
              );
              distinct =
                  Distinct-pids-heappush e s.queue (ground (arith, v.members pid)) v.distinct;
              apart = λ p h. ground (arith, has-pids-heappush p e s.queue, v.apart p);
            })
    ]
  ]

  pub enqueue-WellFormed :
      (pid : ℕ) (priority : ℤ) (deps : List ℕ) (s : Scheduler C)
      → WellFormed s
      → WellFormed (enqueue pid priority deps s)
  unfolding enqueue
  enqueue-WellFormed pid priority [] s v = add_to_queue-WellFormed pid priority _ (record {
    sorted = v.sorted;
    numbered = v.numbered;
    members = v.members;
    distinct = v.distinct;
    apart = v.apart;
  })
  enqueue-WellFormed pid priority (d ∷ deps) s v = record {
    sorted = v.sorted;
    numbered = v.numbered;
    members = v.members;
    distinct = v.distinct;
    apart = v.apart;
  }

  pub mark_waiting-WellFormed :
      (pid : ℕ) (c : C) (s : Scheduler C) → WellFormed s → WellFormed (mark_waiting pid c s)
  unfolding mark_waiting
  mark_waiting-WellFormed pid c s v =
      let kept = select-IsSorted (λ (e : Entry). not (e.pid == pid)) s.queue v.sorted in
      rw (heapify-eq_self (select (λ e. not (e.pid == pid)) s.queue) kept) (record {
        sorted = kept;
        numbered = All-select _ (λ e. not (e.pid == pid)) s.queue v.numbered;
        members = λ p.
            ground (
              arith,
              Bag.has-discard pid p s.membership,
              has-pids-select p pid s.queue,
              v.members p,
            );
        distinct = Distinct-pids-select pid s.queue v.distinct;
        apart = λ p h.
            ground
              (arith, has-pids-select p pid s.queue, Dict.has-put pid p c s.waiting, v.apart p);
      })

  -- Taking the first entry off.
  pop-WellFormed :
      (e : Entry) (queue : List Entry) (s : Scheduler C)
      → s.queue ≡ e ∷ queue
      → WellFormed s
      → WellFormed (record s { queue = queue; membership = Bag.discard e.pid s.membership })
  unfolding pids Bag.has
  pop-WellFormed e queue s q v = record {
    sorted = (subst IsSorted q v.sorted).1;
    numbered = (subst (All (λ f. f.seq ≤ s.seq)) q v.numbered).1;
    members = λ p.
        let held = subst (λ l. Bag.has p s.membership ≡ Bag.has p (pids l)) q (v.members p) in
        ground (
          arith,
          Bag.has-discard e.pid p s.membership,
          nat_eq.same_iff e.pid p,
          (subst (λ l. Distinct (pids l)) q v.distinct).0,
        );
    distinct = (subst (λ l. Distinct (pids l)) q v.distinct).1;
    apart = λ p h.
        subst (λ l. Bag.has p (pids l) ≡ true → Dict.has p s.waiting ≡ false) q (v.apart p)
          (ground arith);
  }

  pop_first-WellFormed :
      (queue : List Entry) (s s' : Scheduler C) (pid : ℕ)
      → s.queue ≡ queue
      → WellFormed s
      → pop_first queue s ≡ returned (pid, s')
      → WellFormed s'
  unfolding pop_first
  pop_first-WellFormed [] s s' pid q v h = cc
  pop_first-WellFormed (e ∷ queue) s s' pid q v h =
      subst (λ r. WellFormed r.1) (returned-injective _ _ h) (pop-WellFormed e queue s q v)

  pub dequeue-WellFormed :
      (s s' : Scheduler C) (pid : ℕ) → WellFormed s → dequeue s ≡ returned (pid, s') → WellFormed s'
  unfolding dequeue
  dequeue-WellFormed s s' pid v h = pop_first-WellFormed s.queue s s' pid refl v h

  release_or_keep-WellFormed :
      (pid : ℕ) (deps : List ℕ) (s : Scheduler C)
      → WellFormed s
      → WellFormed (release_or_keep pid deps s)
  unfolding release_or_keep
  release_or_keep-WellFormed pid [] s v =
      unfold add_to_queue priority_of in
      add_to_queue-WellFormed pid _ _ (record {
        sorted = v.sorted;
        numbered = v.numbered;
        members = v.members;
        distinct = v.distinct;
        apart = v.apart;
      })
  release_or_keep-WellFormed pid (d ∷ deps) s v = record {
    sorted = v.sorted;
    numbered = v.numbered;
    members = v.members;
    distinct = v.distinct;
    apart = v.apart;
  }

  release_all-WellFormed :
      (done : ℕ) (items : Dict ℕ (List ℕ)) (s : Scheduler C)
      → WellFormed s
      → WellFormed (release_all done items s).1
  unfolding release_all
  release_all-WellFormed done [] s v = v
  release_all-WellFormed done ((pid, deps) ∷ items) s v =
      release_all-WellFormed done items _
        (release_or_keep-WellFormed pid (Bag.discard done deps) s v)

  pub notify_completed-WellFormed :
      (done : ℕ) (s : Scheduler C) → WellFormed s → WellFormed (notify_completed done s).1
  unfolding notify_completed
  notify_completed-WellFormed done s v = release_all-WellFormed done s.pending_deps s v

  pub requeue-WellFormed : (pid : ℕ) (s : Scheduler C) → WellFormed s → WellFormed (requeue pid s)
  unfolding requeue
  requeue-WellFormed pid s v = add_to_queue-WellFormed pid _ _ (record {
    sorted = v.sorted;
    numbered = v.numbered;
    members = v.members;
    distinct = v.distinct;
    apart = λ p h. ground (arith, Dict.has-pop pid p s.waiting, v.apart p);
  })
