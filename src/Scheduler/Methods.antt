-- ===== src/Scheduler/Methods.antt =====
-- The methods of `Scheduler`, in the order in which they call one another.
use tysel.Base.{
  ℕ, zero, suc, List, [], ◌∷◌, ◌++◌, Bool, not, ◌||◌, ◌&&◌, leb, Option, none, some, Result, ok,
  err, if◌then◌else◌, length, without, lookup, insert, remove, Method, ◌>>=◌, ◌>>◌,
}
use tysel.Task
use tysel.Task.{
  Task, TaskState, queued, running, retrying, timed_out, canceled, TaskTransitionError, is_terminal,
  deadline_reached, begin_attempt,
}
use tysel.Scheduler.{
  Scheduler, SchedulerError, ActiveClaim, full, duplicate, unknown, invalid_transition, is_queued,
  is_parked,
}

-- `push_back` for `Queued`, `retain` for a terminal state.
unfoldable pub requeue : ℕ → TaskState → List ℕ → List ℕ
unfolding is_queued is_terminal
requeue id next q =
    if is_queued next then q ++ id ∷ [] else if is_terminal next then without id q else q

unfoldable pub drop_claim : ℕ → TaskState → List (ℕ × ActiveClaim) → List (ℕ × ActiveClaim)
unfolding is_parked is_terminal
drop_claim id next m = if is_parked next || is_terminal next then remove id m else m

module _ {J : Type 0} where
  -- `self.queue.len() >= self.capacity`
  abbrev pub is_full : Scheduler J → Bool
  is_full s = leb s.capacity (length s.queue)

  abbrev pub commit :
      ℕ
      → TaskState
      → Result TaskTransitionError (Task J)
      → Method (Scheduler J) SchedulerError (Task J)
  commit id next (err e) s = (s, err (invalid_transition e))
  commit id next (ok t) s = (
    record s {
      tasks = insert id t s.tasks;
      queue = requeue id next s.queue;
      claims = drop_claim id next s.claims;
    },
    ok t,
  )

  abbrev pub transition_found :
      ℕ → TaskState → Option (Task J) → Method (Scheduler J) SchedulerError (Task J)
  transition_found id next none s = (s, err (unknown id))
  transition_found id next (some t) s =
      if is_queued next && is_full s
      then (s, err (full s.capacity))
      else commit id next (Task.transition t next) s

  unfoldable pub transition : ℕ → TaskState → Method (Scheduler J) SchedulerError (Task J)
  transition id next s = transition_found id next (lookup id s.tasks) s

  abbrev pub admit :
      ℕ → Result TaskTransitionError (Task J) → Method (Scheduler J) SchedulerError (Unit {0})
  admit id (err e) s = (s, err (invalid_transition e))
  admit id (ok t) s = (record s { queue = s.queue ++ id ∷ []; tasks = insert id t s.tasks }, ok tt)

  abbrev pub enqueue_fresh :
      Task J → Option (Task J) → Method (Scheduler J) SchedulerError (Unit {0})
  enqueue_fresh t (some _) s = (s, err (duplicate t.meta.id))
  enqueue_fresh t none s =
      if is_full s then (s, err (full s.capacity)) else admit t.meta.id (Task.transition t queued) s

  unfoldable pub enqueue : Task J → Method (Scheduler J) SchedulerError (Unit {0})
  enqueue t s = enqueue_fresh t (lookup t.meta.id s.tasks) s

  -- One turn of the loop of `peek_runnable`; `again` is the rest of the loop.
  abbrev pub expire_or_return :
      ℕ
      → ℕ
      → List ℕ
      → Method (Scheduler J) SchedulerError (Option (Task J))
      → Option (Task J)
      → Method (Scheduler J) SchedulerError (Option (Task J))
  expire_or_return now_ms id rest again none s = (s, err (unknown id))
  expire_or_return now_ms id rest again (some t) s =
      if not (deadline_reached t now_ms)
      then (s, ok (some t))
      else (transition id timed_out >> again) (record s { queue = rest })

  abbrev pub peek_front :
      ℕ
      → Method (Scheduler J) SchedulerError (Option (Task J))
      → List ℕ
      → Method (Scheduler J) SchedulerError (Option (Task J))
  peek_front now_ms again [] s = (s, ok none)
  peek_front now_ms again (id ∷ rest) s =
      expire_or_return now_ms id rest again (lookup id s.tasks) s

  unfoldable pub peek_turn :
      ℕ
      → Method (Scheduler J) SchedulerError (Option (Task J))
      → Method (Scheduler J) SchedulerError (Option (Task J))
  peek_turn now_ms again s = peek_front now_ms again s.queue s

  -- Each turn but the last takes the front off the queue, so its length is enough fuel.
  unfoldable pub peek_loop : ℕ → ℕ → Method (Scheduler J) SchedulerError (Option (Task J))
  unfolding peek_turn
  peek_loop zero now_ms s = (s, ok none)
  peek_loop (suc fuel) now_ms s = peek_turn now_ms (peek_loop fuel now_ms) s

  unfoldable pub peek_runnable : ℕ → Method (Scheduler J) SchedulerError (Option (Task J))
  peek_runnable now_ms s = peek_loop (length s.queue) now_ms s

  abbrev pub start :
      ℕ
      → Result TaskTransitionError (Task J)
      → Method (Scheduler J) SchedulerError (Option (Task J))
  start id (err e) s = (s, err (invalid_transition e))
  start id (ok t) s = (record s { tasks = insert id t s.tasks }, ok (some t))

  abbrev pub start_found :
      ℕ → Option (Task J) → Method (Scheduler J) SchedulerError (Option (Task J))
  start_found id none s = (s, err (unknown id))
  start_found id (some t) s = start id (begin_attempt t) s

  abbrev pub pop_and_start : ℕ → List ℕ → Method (Scheduler J) SchedulerError (Option (Task J))
  pop_and_start id [] s = (s, err (unknown id))
  pop_and_start id (_ ∷ rest) s = start_found id (lookup id s.tasks) (record s { queue = rest })

  abbrev pub claim_next : Option (Task J) → Method (Scheduler J) SchedulerError (Option (Task J))
  claim_next none s = (s, ok none)
  claim_next (some t) s = pop_and_start t.meta.id s.queue s

  unfoldable pub claim : ℕ → Method (Scheduler J) SchedulerError (Option (Task J))
  claim now_ms = peek_runnable now_ms >>= claim_next
