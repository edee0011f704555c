-- ===== src/Scheduler/Release.antt =====
-- What becomes of a task whose live lease is given up, and of a task that is canceled.
use tysel.Base.{
  ℕ, ◌≡◌, refl, [], ◌∷◌, ◌++◌, true, false, none, some, ok, err, lookup, lookup-insert_self,
  lookup-insert, lookup-remove, count, count-without, ◌==◌, ==_iff, arith, Bool-cases, Option-cases,
  inl, inr, ◌⊎◌,
}
use tysel.Task.{
  Task, TaskState, queued, retrying, timed_out, canceled, is_terminal, can_transition_to,
  deadline_reached,
}
use tysel.Task.Lifecycle.{cancel_step}
use tysel.Scheduler.{Scheduler, TaskClaim, ActiveClaim, is_queued, is_claim_outcome, full, unknown}
use tysel.Scheduler.Methods.{is_full, requeue, drop_claim}
use tysel.Scheduler.Leases.{release_claim, release_found, retry, cancel}
use tysel.Scheduler.Invariant.{IsWf, CanMove, moved, moved_task, transition_moves, is_held}
use tysel.Scheduler.Fencing.{IsFenced}
use tysel.Scheduler.Outcomes.{IsHeldBy, held_state, drop_claim_queued, drop_claim_outcome}

pub held_legal :
    (from : TaskState)
    → is_held from ≡ true
    → (can_transition_to from retrying ≡ true) × (can_transition_to from timed_out ≡ true)
unfolding is_held can_transition_to
held_legal from h = ground arith

module _ {J : Type 0} where
  unfoldable pub retried : ℕ → Task J → Scheduler J → Scheduler J
  retried id t s = moved id queued (moved_task retrying t) (moved id retrying t s)

  -- A held task goes back to the end of the queue if there is room.
  pub retry-retried :
      (id : ℕ) (t : Task J) (s : Scheduler J)
      → lookup id s.tasks ≡ some t
      → is_held t.state ≡ true
      → is_full s ≡ false
      → retry id s ≡ (retried id t s, ok (record t { state = queued }))
  unfolding retried can_transition_to is_queued requeue is_terminal
  retry-retried id t s found h room =
      let first : CanMove s id retrying t = record {
        found = found;
        legal = (held_legal t.state h).0;
        room = refl;
      } in
      let second : CanMove (moved id retrying t s) id queued (moved_task retrying t) = record {
        found = lookup-insert_self _ _ _;
        legal = refl;
        room = room;
      } in
      rw (transition_moves id retrying s t first)
        (rw (transition_moves id queued (moved id retrying t s) (moved_task retrying t) second))

  -- It stands at the end of the queue, and the lease is off the record.
  pub retried-queued :
      (id : ℕ) (t : Task J) (s : Scheduler J)
      → ((retried id t s).queue ≡ s.queue ++ id ∷ [])
        × (lookup id (retried id t s).tasks ≡ some (record t { state = queued }))
        × (lookup id (retried id t s).claims ≡ none)
  unfolding retried requeue
  retried-queued id t s =
      (refl, lookup-insert_self _ _ _, drop_claim_queued id (drop_claim id retrying s.claims))

  retried-generations :
      (id : ℕ) (t : Task J) (s : Scheduler J) → (retried id t s).generations ≡ s.generations
  unfolding retried
  retried-generations id t s = refl

  release-live :
      (s : Scheduler J) (c : TaskClaim J) (now_ms : ℕ) (t : Task J) (a : ActiveClaim)
      → IsHeldBy s c now_ms t a
      → release_claim c now_ms s ≡ release_found c.task.meta.id now_ms (some t) s
  unfolding release_claim
  release-live s c now_ms t a h = simp (h.on_record, h.live, h.found)

  -- A release under a live lease on a well-formed scheduler has three outcomes. Past the task's
  -- deadline the task is timed out, also when the queue is full. Otherwise, if the queue is full,
  -- the call fails and changes nothing, so the worker keeps its lease. Otherwise the task is queued
  -- again, behind all that wait, and the released claim is fenced.
  pub release_claim_outcomes :
      (s : Scheduler J) (c : TaskClaim J) (now_ms : ℕ) (t : Task J) (a : ActiveClaim)
      → IsWf s
      → IsHeldBy s c now_ms t a
      → (deadline_reached t now_ms ≡ true
          → (u : Scheduler J) × (release_claim c now_ms s
              ≡ (u, ok (record t { state = timed_out })))
            × IsFenced c u)
        × (deadline_reached t now_ms ≡ false
            → is_full s ≡ true
            → release_claim c now_ms s ≡ (s, err (full s.capacity)))
        × (deadline_reached t now_ms ≡ false
            → is_full s ≡ false
            → (u : Scheduler J) × (release_claim c now_ms s ≡ (u, ok (record t { state = queued })))
              × (u.queue ≡ s.queue ++ c.task.meta.id ∷ [])
              × (lookup c.task.meta.id u.tasks ≡ some (record t { state = queued }))
              × IsFenced c u)
  unfolding is_queued is_claim_outcome
  release_claim_outcomes s c now_ms t a w h =
      let st = held_state s c now_ms t a w h in
      let id = c.task.meta.id in
      let back = retried-queued c.task.meta.id t s in
      let live = release-live s c now_ms t a h in
      let late : CanMove s id timed_out t = record {
        found = h.found;
        legal = (held_legal t.state st.0).1;
        room = refl;
      } in
      (
        λ over. (
          moved id timed_out t s,
          rw (live, over) (transition_moves id timed_out s t late),
          inr (drop_claim_outcome id timed_out s.claims refl, omega (arith, st.1)),
        ),
        λ early stop. rw (live, early, stop),
        λ early room. (
          retried id t s,
          rw (live, early, room) (retry-retried id t s h.found st.0 room),
          back.0,
          back.1,
          inr (back.2, rw (retried-generations id t s) (omega (arith, st.1))),
        ),
      )

  cancel_open :
      (s : Scheduler J) (id : ℕ) (t : Task J)
      → lookup id s.tasks ≡ some t
      → is_terminal t.state ≡ false
      → cancel id s ≡ (moved id canceled t s, ok (moved_task canceled t))
  unfolding cancel is_queued
  cancel_open s id t found still =
      rw (found, still)
        (transition_moves id canceled s t
          (record { found = found; legal = cancel_step t.state still; room = refl }))

  cancel_over :
      (s : Scheduler J) (id : ℕ) (t : Task J)
      → lookup id s.tasks ≡ some t
      → is_terminal t.state ≡ true
      → cancel id s ≡ (s, ok t)
  unfolding cancel
  cancel_over s id t found over = rw (found, over)

  cancel_unknown :
      (s : Scheduler J) (id : ℕ) → lookup id s.tasks ≡ none → cancel id s ≡ (s, err (unknown id))
  unfolding cancel
  cancel_unknown s id e = rw e

  -- What is left of a task that was canceled while it was open: the same task in `Canceled`, out of
  -- the queue and without a lease; all other tasks and leases stay.
  pub record IsCanceled (s : Scheduler J) (id : ℕ) (t : Task J) (u : Scheduler J) : Type 0 where
    pub registered : lookup id u.tasks ≡ some (record t { state = canceled })
    pub not_queued : count id u.queue ≡ 0
    pub not_leased : lookup id u.claims ≡ none
    pub other_tasks : (k : ℕ) → (id == k) ≡ false → lookup k u.tasks ≡ lookup k s.tasks
    pub other_queued : (k : ℕ) → (id == k) ≡ false → count k u.queue ≡ count k s.queue
    pub other_claims : (k : ℕ) → (id == k) ≡ false → lookup k u.claims ≡ lookup k s.claims

  moved-IsCanceled :
      (s : Scheduler J) (id : ℕ) (t : Task J) → IsCanceled s id t (moved id canceled t s)
  unfolding requeue drop_claim is_terminal is_queued is_claim_outcome
  moved-IsCanceled s id t = record {
    registered = lookup-insert_self _ _ _;
    not_queued = ground (arith, count-without id id s.queue, (==_iff id id).1 refl);
    not_leased = drop_claim_outcome id canceled s.claims refl;
    other_tasks = λ k o. ground (arith, lookup-insert k id (moved_task canceled t) s.tasks);
    other_queued = λ k o. ground (arith, count-without k id s.queue);
    other_claims = λ k o. ground (arith, lookup-remove k id s.claims);
  }

  -- Cancelling is total on registered tasks and idempotent. Of an identifier that is not registered
  -- it reports just that. A finished task is returned as it is, and nothing changes. An open task
  -- ends as canceled, out of the queue and without a lease, while every other task keeps its
  -- state, its place among the queued and its lease; a second call then returns the same
  -- task and changes nothing.
  pub cancel_idempotent :
      (s : Scheduler J) (id : ℕ)
      → ((lookup id s.tasks ≡ none) × (cancel id s ≡ (s, err (unknown id))))
        ⊎ ((t : Task J) × (lookup id s.tasks ≡ some t)
            × (((is_terminal t.state ≡ true) × (cancel id s ≡ (s, ok t)))
                ⊎ ((is_terminal t.state ≡ false)
                    × (u : Scheduler J) × (cancel id s ≡ (u, ok (record t { state = canceled })))
                    × (cancel id u ≡ (u, ok (record t { state = canceled })))
                    × IsCanceled s id t u)))
  unfolding is_terminal
  cancel_idempotent s id = elim (Option-cases (lookup id s.tasks)) [
    | inl e ↦ inl (e, cancel_unknown s id e)
    | inr (t, found) ↦ inr (
      t,
      found,
      elim (Bool-cases (is_terminal t.state)) [
        | inl over ↦ inl (over, cancel_over s id t found over)
        | inr still ↦ inr (
          still,
          moved id canceled t s,
          cancel_open s id t found still,
          cancel_over (moved id canceled t s) id (moved_task canceled t) (lookup-insert_self _ _ _)
              refl,
          moved-IsCanceled s id t,
        )
      ],
    )
  ]
