-- ===== src/Scheduler/Order.antt =====
-- In which order tasks are taken, and what overdue tasks become.
use tysel.Base.{
  ℕ, ◌≤◌, ◌<◌, ◌≡◌, ◌==◌, ◌⊎◌, ◌++◌, inl, inr, insert, length-append, lookup-insert, Bool-cases,
  Option-cases, refl, List, [], ◌∷◌, true, false, Option, none, some, ok, err, lookup,
  lookup-insert_self, arith, ap, Result, length, sym, ◌∙◌,
}
use tysel.Task
use tysel.Task.{
  Task, TaskState, TaskTransitionError, queued, running, timed_out, can_transition_to,
  deadline_reached, u32_max, begin_attempt,
}
use tysel.Scheduler.{Scheduler, SchedulerError, is_queued, invalid_transition, full, duplicate}
use tysel.Scheduler.Methods.{transition, enqueue, claim, peek_loop, peek_runnable, is_full, requeue}
use tysel.Scheduler.Invariant.{IsWf, CanMove, moved, moved_task, transition_moves, queued_count}
use tysel.Scheduler.Writes.{admitted}
use tysel.Scheduler.Claiming.{
  Claimed, idle, claimed, claim-Claimed, skip_overdue, skip_overdue-insert, is_late,
}

module _ {J : Type 0} where
  -- `u` is the scheduler after the overdue front part of the queue has been timed out: that part is
  -- off the queue, and every registered task is as it was, or was overdue and is timed out.
  pub record TimesOut (s : Scheduler J) (now_ms : ℕ) (u : Scheduler J) : Type 0 where
    pub wf : IsWf u
    pub queue : u.queue ≡ skip_overdue now_ms s.tasks s.queue
    pub tasks :
        (k : ℕ) (t : Task J)
        → lookup k s.tasks ≡ some t
        → (lookup k u.tasks ≡ some t)
          ⊎ ((lookup k u.tasks ≡ some (record t { state = timed_out }))
              × (deadline_reached t now_ms ≡ true))

  abbrev pub PeeksFirst :
      Scheduler J → ℕ → Scheduler J × Result SchedulerError (Option (Task J)) → Type 0
  PeeksFirst s now_ms (u, err e) = ⊥
  PeeksFirst s now_ms (u, ok none) = TimesOut s now_ms u × (u.queue ≡ [])
  PeeksFirst s now_ms (u, ok (some t)) =
      TimesOut s now_ms u
      × ((rest : List ℕ) × (u.queue ≡ t.meta.id ∷ rest))
      × (lookup t.meta.id u.tasks ≡ some t)
      × (t.state ≡ queued)
      × (deadline_reached t now_ms ≡ false)

  abbrev pub ClaimsFirst :
      Scheduler J → ℕ → Scheduler J × Result SchedulerError (Option (Task J)) → Type 0
  ClaimsFirst s now_ms (u, err e) = ⊥
  ClaimsFirst s now_ms (u, ok none) = skip_overdue now_ms s.tasks s.queue ≡ []
  ClaimsFirst s now_ms (u, ok (some t)) =
      (skip_overdue now_ms s.tasks s.queue ≡ t.meta.id ∷ u.queue)
      × (t.state ≡ running)
      × (lookup t.meta.id u.tasks ≡ some t)
      × (deadline_reached t now_ms ≡ false)

  ClaimsFirst-Claimed :
      {s : Scheduler J} {now_ms : ℕ} {r : Scheduler J × Result SchedulerError (Option (Task J))}
      → Claimed s now_ms r
      → ClaimsFirst s now_ms r
  unfolding deadline_reached
  ClaimsFirst-Claimed (idle u x e) = sym x.skipped ∙ e
  ClaimsFirst-Claimed (claimed u t x r) =
      (sym x.skipped ∙ r.front, refl, lookup-insert_self _ _ _, r.in_time)

  -- On a well-formed scheduler `claim` never fails, and tasks are claimed first in, first out: it
  -- starts the first task of the queue that is not overdue and leaves just the tasks behind it in
  -- the queue, or returns nothing if every queued task is overdue.
  pub claim_first : (now_ms : ℕ) (s : Scheduler J) → IsWf s → ClaimsFirst s now_ms (claim now_ms s)
  claim_first now_ms s w = ClaimsFirst-Claimed (claim-Claimed now_ms s w)

  -- What a successful `enqueue` found and left.
  pub record IsEnqueued (t : Task J) (s u : Scheduler J) : Type 0 where
    pub fresh : lookup t.meta.id s.tasks ≡ none
    pub room : length u.queue ≤ s.capacity
    pub registered : lookup t.meta.id u.tasks ≡ some (record t { state = queued })
    pub last : u.queue ≡ s.queue ++ t.meta.id ∷ []
    pub others : (k : ℕ) → (t.meta.id == k) ≡ false → lookup k u.tasks ≡ lookup k s.tasks
    pub leases : (u.claims ≡ s.claims) × (u.generations ≡ s.generations)
    pub refuses_again :
        (t' : Task J) → t'.meta.id ≡ t.meta.id → enqueue t' u ≡ (u, err (duplicate t.meta.id))
    pub in_line :
        (now_ms : ℕ)
        → deadline_reached t now_ms ≡ false
        → skip_overdue now_ms u.tasks u.queue
          ≡ skip_overdue now_ms s.tasks s.queue ++ t.meta.id ∷ []

  -- Why `enqueue` refuses a task.
  abbrev pub Refusal : Task J → Scheduler J → SchedulerError → Type 0
  Refusal t s e =
      ((old : Task J) × (lookup t.meta.id s.tasks ≡ some old) × (e ≡ duplicate t.meta.id))
      ⊎ ((lookup t.meta.id s.tasks ≡ none) × (length s.queue ≡ s.capacity) × (e ≡ full s.capacity))
      ⊎ ((lookup t.meta.id s.tasks ≡ none)
          × (length s.queue < s.capacity)
          × (can_transition_to t.state queued ≡ false)
          × (e
              ≡ invalid_transition
                  (record { id = t.meta.id; from_state = t.state; to_state = queued })))

  skip_overdue-append :
      (now_ms id : ℕ) (m : List (ℕ × Task J)) (q : List ℕ)
      → is_late now_ms (lookup id m) ≡ false
      → skip_overdue now_ms m (q ++ id ∷ []) ≡ skip_overdue now_ms m q ++ id ∷ []
  skip_overdue-append now_ms id m [] h = ground arith
  skip_overdue-append now_ms id m (j ∷ q) h = ground (arith, skip_overdue-append now_ms id m q)

  admitted-IsEnqueued :
      (t : Task J) (s : Scheduler J)
      → IsWf s
      → lookup t.meta.id s.tasks ≡ none
      → is_full s ≡ false
      → IsEnqueued t s (admitted t s)
  unfolding enqueue deadline_reached
  admitted-IsEnqueued t s w fresh room = record {
    fresh = fresh;
    room = ground (arith, length-append s.queue (t.meta.id ∷ []));
    registered = lookup-insert_self _ _ _;
    last = refl;
    others = λ k o. ground (arith, lookup-insert k t.meta.id (moved_task queued t) s.tasks);
    leases = (refl, refl);
    refuses_again =
        λ t' same. rw (same, lookup-insert_self t.meta.id (moved_task queued t) s.tasks);
    in_line = λ now_ms early.
        skip_overdue-append now_ms t.meta.id (insert t.meta.id (moved_task queued t) s.tasks)
          s.queue (rw (lookup-insert_self t.meta.id (moved_task queued t) s.tasks) early)
        ∙ ap (λ q. q ++ t.meta.id ∷ [])
            (skip_overdue-insert now_ms t.meta.id (moved_task queued t) s.tasks s.queue
              ((w.at t.meta.id).queued_once ∙ ap queued_count fresh));
  }

  -- On a well-formed scheduler `enqueue` either registers the task or changes nothing. A task that
  -- is registered was unknown, is queued behind all others within the capacity, and every
  -- other task and every lease stays; whenever it is not overdue, it stands in line behind the tasks
  -- that would be claimed before it; and no task of its identifier is taken again. A refusal says
  -- that the identifier is known, that the queue is full, or that the state of the task may not
  -- become queued.
  pub enqueue_outcomes :
      (t : Task J) (s : Scheduler J)
      → IsWf s
      → ((u : Scheduler J) × (enqueue t s ≡ (u, ok tt)) × IsEnqueued t s u)
        ⊎ ((e : SchedulerError) × (enqueue t s ≡ (s, err e)) × Refusal t s e)
  unfolding enqueue Task.transition
  enqueue_outcomes t s w = elim (Option-cases (lookup t.meta.id s.tasks)) [
    | inr (old, known) ↦ inr (_, rw known, inl (old, known, refl))
    | inl fresh ↦ elim (Bool-cases (is_full s)) [
      | inl stop ↦ inr (_, rw (fresh, stop), inr (inl (fresh, ground (arith, w.bounded), refl)))
      | inr room ↦ elim (Bool-cases (can_transition_to t.state queued)) [
        | inr illegal ↦
            inr (_, rw (fresh, room, illegal), inr (inr (fresh, ground arith, illegal, refl)))
        | inl legal ↦
            inl (admitted t s, rw (fresh, room, legal), admitted-IsEnqueued t s w fresh room)
      ]
    ]
  ]

  queued_runs :
      (s : Scheduler J) (id : ℕ) (t : Task J)
      → lookup id s.tasks ≡ some t
      → t.state ≡ queued
      → CanMove s id running t
  unfolding can_transition_to is_queued
  queued_runs s id t found q = record { found = found; legal = rw q; room = refl }

  claim_stuck :
      (u : Scheduler J) (id now_ms : ℕ) (rest : List ℕ) (t : Task J)
      → u.queue ≡ id ∷ rest
      → lookup id u.tasks ≡ some t
      → t.meta.id ≡ id
      → t.state ≡ running
      → deadline_reached t now_ms ≡ false
      → claim now_ms u ≡ (
        record u { queue = rest },
        err (invalid_transition (record { id = id; from_state = running; to_state = running })),
      )
  unfolding claim peek_runnable peek_loop begin_attempt can_transition_to
  claim_stuck u id now_ms rest t front found own r early = ground arith

  -- The public `transition` takes a queued task to `Running`, and leaves its identifier in the queue.
  -- If it stood in front and is not overdue, the next `claim` takes it out of the queue and then
  -- fails, since a running task cannot be started.
  pub transition_jumps_queue :
      (s : Scheduler J) (id now_ms : ℕ) (rest : List ℕ) (t : Task J)
      → s.queue ≡ id ∷ rest
      → lookup id s.tasks ≡ some t
      → t.meta.id ≡ id
      → t.state ≡ queued
      → deadline_reached t now_ms ≡ false
      → let u = (transition id running s).0 in
        (u.queue ≡ id ∷ rest)
        × (claim now_ms u ≡ (
          record u { queue = rest },
          err (invalid_transition (record { id = id; from_state = running; to_state = running })),
        ))
  unfolding deadline_reached requeue
  transition_jumps_queue s id now_ms rest t front found own q early =
      rw (transition_moves id running s t (queued_runs s id t found q)) (
        front,
        claim_stuck (moved id running t s) id now_ms rest (moved_task running t) front
            (lookup-insert_self _ _ _) own refl early,
      )
