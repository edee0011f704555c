-- ===== src/Scheduler/Runs.antt =====
-- Each method of the scheduler is a sequence of atomic writes, from every well-formed state and on
-- every branch, the failing ones included.
use tysel.Base.{
  ℕ, ◌≡◌, refl, List, [], ◌∷◌, Bool, true, false, Option, none, some, ok, err, count, lookup, arith,
  Option-cases, Bool-cases, inl, inr, ◌⊎◌, ap, Method, without_absent, ◌∙◌, then_on,
}
use tysel.Task
use tysel.Task.{
  Task, TaskState, created, queued, running, waiting_io, suspended, retrying, completed, failed,
  canceled, timed_out, is_terminal, can_transition_to, TaskTransitionError, u32_max,
  deadline_reached, begin_attempt,
}
use tysel.Scheduler.{Scheduler, is_queued, SchedulerError}
use tysel.Scheduler.Methods.{transition, requeue, is_full, enqueue, peek_turn, peek_front}
use tysel.Scheduler.Invariant.{
  IsWf, CanMove, moved, moved_task, jumps_queue, transition_moves, transition_cases,
}
use tysel.Scheduler.Writes.{Writes, move, admit, here, more}

List-cases : (q : List ℕ) → (q ≡ []) ⊎ ((id : ℕ) × (rest : List ℕ) × (q ≡ id ∷ rest))
List-cases [] = inl refl
List-cases (id ∷ rest) = inr (id, rest, refl)

requeue_front :
    (id : ℕ) (q rest : List ℕ) → q ≡ id ∷ rest → count id rest ≡ 0 → requeue id timed_out q ≡ rest
unfolding requeue is_queued is_terminal
requeue_front id q rest e once = rw e (ground (arith, without_absent id rest once))

module _ {J : Type 0} where
  -- The move that a caller of `transition` must not ask for.
  abbrev pub jumps : TaskState → Option (Task J) → Bool
  jumps next none = false
  jumps next (some t) = jumps_queue t.state next

  pub transition-Writes :
      (id : ℕ) (next : TaskState) (s : Scheduler J)
      → jumps next (lookup id s.tasks) ≡ false
      → Writes s (transition id next s).0
  transition-Writes id next s calm = elim (transition_cases id next s) [
    | inl (t, c) ↦
        rw (transition_moves id next s t c) (more (move id next t c (ground (arith, c.found))) here)
    | inr (e, same) ↦ rw same here
  ]

  pub enqueue-Writes : (t : Task J) (s : Scheduler J) → Writes s (enqueue t s).0
  unfolding enqueue Task.transition
  enqueue-Writes t s = elim (Option-cases (lookup t.meta.id s.tasks)) [
    | inr (old, e) ↦ rw (e, enqueue) here
    | inl e ↦ elim (Bool-cases (is_full s)) [
      | inl stop ↦ rw (e, stop) here
      | inr room ↦ elim (Bool-cases (can_transition_to t.state queued)) [
        | inl legal ↦ rw (e, room, legal) (more (admit t e room legal) here)
        | inr illegal ↦ rw (e, room, illegal) here
      ]
    ]
  ]

  -- The front of the queue of a well-formed scheduler is a queued task.
  pub front-queued :
      (s : Scheduler J) (id : ℕ) (rest : List ℕ)
      → IsWf s
      → s.queue ≡ id ∷ rest
      → (t : Task J) × (lookup id s.tasks ≡ some t)
        × (t.state ≡ queued)
        × (t.meta.id ≡ id)
        × (count id rest ≡ 0)
  unfolding is_queued
  front-queued s id rest w front = elim (Option-cases (lookup id s.tasks)) [
    | inl e ↦ absurd (ground (arith, ap (count id) front, (w.at id).queued_once))
    | inr (t, e) ↦ (
      t,
      e,
      ground (arith, ap (count id) front, (w.at id).queued_once),
      ground (arith, (w.at id).keyed_by_id),
      ground (arith, ap (count id) front, (w.at id).queued_once),
    )
  ]

  expire_front :
      (s : Scheduler J) (id : ℕ) (rest : List ℕ) (t : Task J)
      → s.queue ≡ id ∷ rest
      → lookup id s.tasks ≡ some t
      → t.state ≡ queued
      → transition id timed_out (record s { queue = rest })
        ≡ (moved id timed_out t s, ok (moved_task timed_out t))
  unfolding transition Task.transition can_transition_to is_queued requeue is_terminal
  expire_front s id rest t front found q = ground arith

  expire_CanMove :
      (s : Scheduler J) (id : ℕ) (t : Task J)
      → lookup id s.tasks ≡ some t
      → t.state ≡ queued
      → CanMove s id timed_out t
  unfolding can_transition_to is_queued
  expire_CanMove s id t found q = record { found = found; legal = ground arith; room = refl }

  peek_front_overdue :
      (s : Scheduler J) (id : ℕ) (rest : List ℕ) (t : Task J) (now_ms : ℕ)
      (again : Method (Scheduler J) SchedulerError (Option (Task J)))
      → lookup id s.tasks ≡ some t
      → deadline_reached t now_ms ≡ true
      → peek_front now_ms again (id ∷ rest) s
        ≡ then_on
            (transition id timed_out (record s { queue = rest }))
            (λ _ s'. again s')
            (λ e s'. (s', err e))
  peek_front_overdue s id rest t now_ms again found late = simp (found, late)

  -- The three ways in which a turn of the loop of `peek_runnable` goes.
  pub data Turn (s : Scheduler J) (now_ms : ℕ) : Type 0 where
    empty :
        s.queue ≡ []
        → ((again : Method (Scheduler J) SchedulerError (Option (Task J)))
            → peek_turn now_ms again s ≡ (s, ok none))
        → Turn s now_ms
    ready :
        (id : ℕ) (rest : List ℕ) (t : Task J)
        → s.queue ≡ id ∷ rest
        → lookup id s.tasks ≡ some t
        → t.state ≡ queued
        → t.meta.id ≡ id
        → deadline_reached t now_ms ≡ false
        → ((again : Method (Scheduler J) SchedulerError (Option (Task J)))
            → peek_turn now_ms again s ≡ (s, ok (some t)))
        → Turn s now_ms
    overdue :
        (id : ℕ) (rest : List ℕ) (t : Task J)
        → s.queue ≡ id ∷ rest
        → CanMove s id timed_out t
        → t.state ≡ queued
        → deadline_reached t now_ms ≡ true
        → count id rest ≡ 0
        → (moved id timed_out t s).queue ≡ rest
        → ((again : Method (Scheduler J) SchedulerError (Option (Task J)))
            → peek_turn now_ms again s ≡ again (moved id timed_out t s))
        → Turn s now_ms

  pub turn : (s : Scheduler J) (now_ms : ℕ) → IsWf s → Turn s now_ms
  unfolding peek_turn
  turn s now_ms w = elim (List-cases s.queue) [
    | inl e ↦ empty e (λ again. rw (e, peek_turn))
    | inr (id, rest, e) ↦ go id rest e (front-queued s id rest w e)
  ]
    where
      go :
          (id : ℕ) (rest : List ℕ)
          → s.queue ≡ id ∷ rest
          → (t : Task J) × (lookup id s.tasks ≡ some t)
            × (t.state ≡ queued)
            × (t.meta.id ≡ id)
            × (count id rest ≡ 0)
          → Turn s now_ms
      go id rest e (t, found, q, own, once) = elim (Bool-cases (deadline_reached t now_ms)) [
        | inr early ↦ ready id rest t e found q own early (λ again. rw (e, found, early))
        | inl late ↦
            overdue id rest t e (expire_CanMove s id t found q) q late once
              (requeue_front id s.queue rest e once)
              (λ again.
                ap (λ x. peek_front now_ms again x s) e
                ∙ peek_front_overdue s id rest t now_ms again found late
                ∙ ap (λ x. then_on x (λ _ s'. again s') (λ x s'. (s', err x)))
                    (expire_front s id rest t e found q))
      ]
