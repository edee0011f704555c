-- ===== src/Scheduler/Invariant.antt =====
-- What holds of a scheduler between two calls, seen at one identifier at a time.
use tysel.Base.{
  ℕ, ◌≤◌, ◌<◌, ◌≡◌, List, [], ◌∷◌, Bool, true, false, not, ◌&&◌, ◌==◌, leb, Option, none, some, ok,
  err, if◌then◌else◌, length, count, lookup, insert, keys, lookup-insert, lookup-remove,
  count-append, count-without, count-keys-remove, length-append, length-retain-le, arith,
  Option-cases, Bool-cases, inl, inr, ◌⊎◌,
}
use tysel.Task
use tysel.Task.{
  Task, TaskState, created, queued, running, waiting_io, suspended, retrying, completed, failed,
  canceled, timed_out, is_terminal, can_transition_to, TaskTransitionError,
}
use tysel.Scheduler.{
  Scheduler, ActiveClaim, is_queued, u64_max, SchedulerError, unknown, full, invalid_transition,
}
use tysel.Scheduler.Methods.{transition, requeue, drop_claim, is_full}
use tysel.Scheduler.Leases.{last_generation}

-- The states in which a worker may hold a lease.
unfoldable pub is_held : TaskState → Bool
is_held running = true
is_held waiting_io = true
is_held _ = false

module _ {J : Type 0} where
  abbrev pub queued_count : Option (Task J) → ℕ
  queued_count none = 0
  queued_count (some t) = if is_queued t.state then 1 else 0

  abbrev pub held : Option (Task J) → Bool
  held none = false
  held (some t) = is_held t.state

  abbrev pub keyed : ℕ → Option (Task J) → Bool
  keyed id none = true
  keyed id (some t) = t.meta.id == id

  abbrev pub claim_fits : Option ActiveClaim → Option (Task J) → ℕ → Bool
  claim_fits none t g = true
  claim_fits (some a) t g = held t && a.generation == g

  -- At one identifier: it stands in the queue once if its task is queued, and else not at all; its
  -- task carries it; a lease belongs to a running or waiting task and has the last generation.
  pub record IsWfAt (s : Scheduler J) (id : ℕ) : Type 0 where
    pub queued_once : count id s.queue ≡ queued_count (lookup id s.tasks)
    pub keyed_by_id : keyed id (lookup id s.tasks) ≡ true
    pub claim_held :
        claim_fits
          (lookup id s.claims)
          (lookup id s.tasks)
          (last_generation (lookup id s.generations))
        ≡ true
    pub one_claim : count id (keys s.claims) ≤ 1
    pub generation_bounded : last_generation (lookup id s.generations) ≤ u64_max

  pub record IsWf (s : Scheduler J) : Type 0 where
    pub positive : 0 < s.capacity
    pub bounded : length s.queue ≤ s.capacity
    pub at : (id : ℕ) → IsWfAt s id

-- The move that the lifecycle allows and that `transition` does not keep in step with the queue.
abbrev pub jumps_queue : TaskState → TaskState → Bool
jumps_queue queued running = true
jumps_queue _ _ = false

-- What a legal move does to the queue, in counts.
requeue_counts :
    (from next : TaskState) (j id : ℕ) (q : List ℕ)
    → can_transition_to from next ≡ true
    → jumps_queue from next ≡ false
    → count id q ≡ (if is_queued from then 1 else 0)
    → count j (requeue id next q) ≡ (if id == j then if is_queued next then 1 else 0 else count j q)
unfolding can_transition_to is_queued requeue
requeue_counts from next j id q legal calm e =
    ground (arith, count-append j q (id ∷ []), count-without j id q)

lookup-drop_claim :
    (from next : TaskState) (j id : ℕ) (m : List (ℕ × ActiveClaim))
    → can_transition_to from next ≡ true
    → lookup j (drop_claim id next m)
      ≡ (if id == j then if is_held next then lookup j m else none else lookup j m)
unfolding can_transition_to is_held drop_claim
lookup-drop_claim from next j id m legal = ground (arith, lookup-remove j id m)

drop_claim-keys :
    (next : TaskState) (j id : ℕ) (m : List (ℕ × ActiveClaim))
    → count j (keys m) ≤ 1
    → count j (keys (drop_claim id next m)) ≤ 1
unfolding drop_claim
drop_claim-keys next j id m h = ground (arith, count-keys-remove j id m)

-- Only a held task, or none, was held before it moves to a held state, if it was not queued.
held_before :
    (from next : TaskState)
    → can_transition_to from next ≡ true
    → jumps_queue from next ≡ false
    → is_held next ≡ true
    → is_held from ≡ true
unfolding can_transition_to is_held
held_before from next legal calm h = ground arith

pub requeue_room :
    (next : TaskState) (id c : ℕ) (q : List ℕ)
    → (is_queued next && leb c (length q)) ≡ false
    → length q ≤ c
    → length (requeue id next q) ≤ c
unfolding is_queued requeue
requeue_room next id c q room h =
    ground (arith, length-append q (id ∷ []), length-retain-le (λ (x : ℕ). not (x == id)) q)

module _ {J : Type 0} where
  -- The task and the scheduler after a legal move.
  abbrev pub moved_task : TaskState → Task J → Task J
  moved_task next t = record t { state = next }

  abbrev pub moved : ℕ → TaskState → Task J → Scheduler J → Scheduler J
  moved id next t s = record s {
    tasks = insert id (moved_task next t) s.tasks;
    queue = requeue id next s.queue;
    claims = drop_claim id next s.claims;
  }

  -- The task that `transition` moves, and that it may.
  pub record CanMove (s : Scheduler J) (id : ℕ) (next : TaskState) (t : Task J) : Type 0 where
    pub found : lookup id s.tasks ≡ some t
    pub legal : can_transition_to t.state next ≡ true
    pub room : (is_queued next && is_full s) ≡ false

  pub transition_moves :
      (id : ℕ) (next : TaskState) (s : Scheduler J) (t : Task J)
      → CanMove s id next t
      → transition id next s ≡ (moved id next t s, ok (moved_task next t))
  unfolding transition Task.transition
  transition_moves id next s t c = ground arith

  pub transition_cases :
      (id : ℕ) (next : TaskState) (s : Scheduler J)
      → ((t : Task J) × CanMove s id next t)
        ⊎ ((e : SchedulerError) × (transition id next s ≡ (s, err e)))
  unfolding transition Task.transition
  transition_cases id next s = elim (Option-cases (lookup id s.tasks)) [
    | inl e ↦ inr (unknown id, ground arith)
    | inr (t, e) ↦ elim (Bool-cases (is_queued next && is_full s)) [
      | inl stop ↦ inr (full s.capacity, ground arith)
      | inr go ↦ elim (Bool-cases (can_transition_to t.state next)) [
        | inl legal ↦ inl (t, record { found = e; legal = legal; room = go })
        | inr illegal ↦ inr (
          invalid_transition (record { id = t.meta.id; from_state = t.state; to_state = next }),
          ground arith,
        )
      ]
    ]
  ]

  -- `transition` keeps the invariant at each identifier, if the move does not jump the queue.
  pub moved-IsWfAt :
      (s : Scheduler J) (id j : ℕ) (next : TaskState) (t : Task J)
      → CanMove s id next t
      → jumps_queue t.state next ≡ false
      → IsWfAt s id
      → IsWfAt s j
      → IsWfAt (moved id next t s) j
  moved-IsWfAt s id j next t c calm wi w = record {
    queued_once = ground (
      arith,
      requeue_counts t.state next j id s.queue,
      lookup-insert j id (moved_task next t) s.tasks,
    );
    keyed_by_id = ground (arith, lookup-insert j id (moved_task next t) s.tasks);
    claim_held = ground (
      arith,
      lookup-drop_claim t.state next j id s.claims,
      lookup-insert j id (moved_task next t) s.tasks,
      held_before t.state next,
    );
    one_claim = drop_claim-keys next j id s.claims w.one_claim;
    generation_bounded = w.generation_bounded;
  }

  pub moved-IsWf :
      (s : Scheduler J) (id : ℕ) (next : TaskState) (t : Task J)
      → CanMove s id next t
      → jumps_queue t.state next ≡ false
      → IsWf s
      → IsWf (moved id next t s)
  moved-IsWf s id next t c calm w = record {
    positive = w.positive;
    bounded = requeue_room next id s.capacity s.queue c.room w.bounded;
    at = λ j. moved-IsWfAt s id j next t c calm (w.at id) (w.at j);
  }
