-- ===== src/Samples/Scheduling.antt =====
-- The theorems on the scheduler, at concrete inputs.
use tysel.Base.{
  ℕ, ◌≡◌, refl, [], ◌∷◌, none, some, ok, err, true, false, lookup, inl, arith, text_eq, leb, insert,
  remove, ◌⊎◌,
}
use tysel.Task
use tysel.Task.{
  Task, TaskState, created, queued, running, retrying, completed, waiting_io, canceled, timed_out,
  is_terminal, can_transition_to, deadline_reached,
}
use tysel.Task.Lifecycle.{Steps, state_before, completed_was_running, terminal_iff_no_successor}
use tysel.Scheduler
use tysel.Scheduler.{
  Scheduler, ActiveClaim, TaskClaim, lease_lost, SchedulerError, full, unknown, invalid_transition,
  duplicate,
}
use tysel.Scheduler.Methods.{transition, enqueue, claim, peek_loop, peek_runnable}
use tysel.Scheduler.Leases.{
  claim_with_lease, renew_claim, finish_claim, release_claim, requeue_expired, requeue_owner_claims,
  cancel, last_generation,
}
use tysel.Scheduler.Invariant.{IsWf}
use tysel.Scheduler.Calls.{requeues_expired, run, run-new-IsWf}
use tysel.Scheduler.Fencing.{IsFenced, Refused, fenced_forever}
use tysel.Scheduler.Issue.{Issued, claim_with_lease-Issued, claim_with_lease-IsFenced}
use tysel.Scheduler.Outcomes.{IsHeldBy, finish_claim-commits}
use tysel.Scheduler.Release.{release_claim_outcomes, IsCanceled, cancel_idempotent}
use tysel.Scheduler.Sweep.{Swept, requeue_expired-Swept, requeue_owner_claims-Swept}
use tysel.Scheduler.Order.{
  ClaimsFirst, claim_first, IsEnqueued, Refusal, enqueue_outcomes, transition_jumps_queue,
}
use tysel.Samples.Queueing.{fresh, busy, first_calls, busy-run, task_of, worker, claim7, lease_of}

run-new-IsWf_example : IsWf (run fresh first_calls)
unfolding Scheduler.new
run-new-IsWf_example = run-new-IsWf 2 fresh first_calls refl (refl, (refl, (refl, tt)))

busy-IsWf : IsWf busy
busy-IsWf = rw busy-run at run-new-IsWf_example

abbrev stale7 : TaskClaim ℕ
stale7 = record claim7 { generation = 0 }

fenced_forever_example :
    let u = run busy (requeues_expired 20 5 ∷ []) in
    Refused u (renew_claim stale7 30 1000 u)
    × Refused u (finish_claim stale7 30 completed u)
    × (release_claim stale7 30 u ≡ (u, err lease_lost))
unfolding last_generation lookup
fenced_forever_example =
    fenced_forever busy (requeues_expired 20 5 ∷ []) stale7 30 1000 completed busy-IsWf (refl, tt)
      (inl (omega arith))

-- The second task is leased too.
abbrev busier : Scheduler ℕ
busier = record {
  capacity = 2;
  queue = [];
  tasks = (8, task_of 8 (some 50) running 1) ∷ (7, task_of 7 none running 1) ∷ [];
  claims = (8, lease_of 520) ∷ (7, lease_of 1010) ∷ [];
  generations = (8, 1) ∷ (7, 1) ∷ [];
}

abbrev claim8 : TaskClaim ℕ
claim8 = record {
  task = task_of 8 (some 50) running 1;
  generation = 1;
  lease_owner = worker;
  lease_until_ms = 520;
}

leased8 : claim_with_lease 20 worker 500 busy ≡ (busier, ok (some claim8))
unfolding Task.transition Task.begin_attempt can_transition_to claim_with_lease
    Scheduler.validate_lease Scheduler.validate_lease_owner Scheduler.check_duration
    Scheduler.checked_add claim peek_runnable peek_loop deadline_reached lookup insert remove
    last_generation
leased8 = refl

claim_with_lease-Issued_example : Issued busy worker 20 500 busier claim8
claim_with_lease-Issued_example =
    claim_with_lease-Issued busy busier worker 20 500 claim8 busy-IsWf leased8

claim_with_lease-IsFenced_example : IsFenced (record claim8 { generation = 0 }) busier
unfolding last_generation lookup
claim_with_lease-IsFenced_example =
    claim_with_lease-IsFenced busy busier worker 20 500 claim8 (record claim8 { generation = 0 })
      busy-IsWf leased8 refl (omega arith)

held7 : IsHeldBy busy claim7 40 (task_of 7 none running 1) (lease_of 1010)
unfolding lookup text_eq
held7 = record { found = refl; on_record = refl; live = refl }

finish_claim-commits_example :
    (u : Scheduler ℕ) × (finish_claim claim7 40 completed busy
      ≡ (u, ok (task_of 7 none completed 1)))
    × (lookup 7 u.tasks ≡ some (task_of 7 none completed 1))
    × (lookup 7 u.claims ≡ none)
    × IsFenced claim7 u
unfolding Scheduler.is_claim_outcome
finish_claim-commits_example =
    finish_claim-commits busy claim7 40 completed (task_of 7 none running 1) (lease_of 1010)
      busy-IsWf held7 refl

release_claim_outcomes_example :
    (u : Scheduler ℕ) × (release_claim claim7 40 busy ≡ (u, ok (task_of 7 none queued 1)))
    × (u.queue ≡ 8 ∷ 7 ∷ [])
    × (lookup 7 u.tasks ≡ some (task_of 7 none queued 1))
    × IsFenced claim7 u
unfolding deadline_reached
release_claim_outcomes_example =
    (release_claim_outcomes busy claim7 40 (task_of 7 none running 1) (lease_of 1010) busy-IsWf
        held7).2
      refl refl

requeue_expired-Swept_example :
    Swept busy 5 (λ a. leb a.lease_until_ms 2000) (requeue_expired 2000 5 busy)
requeue_expired-Swept_example = requeue_expired-Swept 2000 5 busy busy-IsWf

requeue_owner_claims-Swept_example :
    Swept busy 5 (λ a. text_eq a.lease_owner worker) (requeue_owner_claims worker 20 5 busy)
unfolding Scheduler.validate_lease_owner
requeue_owner_claims-Swept_example = requeue_owner_claims-Swept worker 20 5 busy busy-IsWf refl

claim_first_example : ClaimsFirst busy 60 (claim 60 busy)
claim_first_example = claim_first 60 busy busy-IsWf

cancel_idempotent_example :
    ((lookup 8 busy.tasks ≡ none) × (cancel 8 busy ≡ (busy, err (unknown 8))))
    ⊎ ((t : Task ℕ) × (lookup 8 busy.tasks ≡ some t)
        × (((is_terminal t.state ≡ true) × (cancel 8 busy ≡ (busy, ok t)))
            ⊎ ((is_terminal t.state ≡ false)
                × (u : Scheduler ℕ) × (cancel 8 busy ≡ (u, ok (record t { state = canceled })))
                × (cancel 8 u ≡ (u, ok (record t { state = canceled })))
                × IsCanceled busy 8 t u)))
cancel_idempotent_example = cancel_idempotent busy 8

enqueue_outcomes_example :
    ((u : Scheduler ℕ) × (enqueue (task_of 9 none created 0) busy ≡ (u, ok tt))
      × IsEnqueued (task_of 9 none created 0) busy u)
    ⊎ ((e : SchedulerError) × (enqueue (task_of 9 none created 0) busy ≡ (busy, err e))
        × Refusal (task_of 9 none created 0) busy e)
enqueue_outcomes_example = enqueue_outcomes (task_of 9 none created 0) busy busy-IsWf

transition_jumps_queue_example :
    let u = (transition 8 running busy).0 in
    (u.queue ≡ 8 ∷ [])
    × (claim 20 u ≡ (
      record u { queue = [] },
      err (invalid_transition (record { id = 8; from_state = running; to_state = running })),
    ))
unfolding lookup deadline_reached
transition_jumps_queue_example =
    transition_jumps_queue busy 8 20 [] (task_of 8 (some 50) queued 0) refl refl refl refl refl

retried_chain : Steps queued completed
unfolding can_transition_to
retried_chain = Steps.more {t = running} refl (
    Steps.more {t = retrying} refl
      (Steps.more {t = queued} refl (Steps.more {t = running} refl (Steps.more refl Steps.here))))

completed_was_running_example : state_before queued retried_chain ≡ running
completed_was_running_example = completed_was_running retried_chain (λ e. cc)

terminal_iff_no_successor_example : can_transition_to waiting_io canceled ≡ true
unfolding is_terminal
terminal_iff_no_successor_example = (terminal_iff_no_successor waiting_io).1 refl
