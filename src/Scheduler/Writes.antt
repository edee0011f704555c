-- ===== src/Scheduler/Writes.antt =====
-- The atomic writes of a scheduler: every method is a sequence of these. They are the abstract
-- account of what a call may do, and invariants are proved on them once.
use tysel.Base.{
  ℕ, ◌+◌, ◌≤◌, ◌≡◌, List, [], ◌∷◌, ◌++◌, true, false, none, some, length, count, lookup, insert,
  lookup-insert, count-append, count-keys-insert, length-append, arith, min, ap,
}
use tysel.Task.{Task, TaskState, queued, running, can_transition_to, u32_max}
use tysel.Scheduler.{Scheduler, ActiveClaim, is_queued, u64_max}
use tysel.Scheduler.Methods.{is_full}
use tysel.Scheduler.Leases.{last_generation}
use tysel.Scheduler.Invariant.{
  IsWf, IsWfAt, CanMove, moved, moved_task, jumps_queue, moved-IsWf, is_held, held,
}

module _ {J : Type 0} where
  -- A queued copy of a new task at the end of the queue.
  abbrev pub admitted : Task J → Scheduler J → Scheduler J
  admitted t s = record s {
    queue = s.queue ++ t.meta.id ∷ [];
    tasks = insert t.meta.id (moved_task queued t) s.tasks;
  }

  abbrev pub started_task : Task J → Task J
  started_task t = record t { state = running; attempt = min (t.attempt + 1) u32_max }

  -- The front of the queue taken off and its task started.
  abbrev pub started : ℕ → List ℕ → Task J → Scheduler J → Scheduler J
  started id rest t s = record s { queue = rest; tasks = insert id (started_task t) s.tasks }

  abbrev pub granted : ℕ → ActiveClaim → Scheduler J → Scheduler J
  granted id a s = record s {
    generations = insert id a.generation s.generations;
    claims = insert id a s.claims;
  }

  abbrev pub extended : ℕ → ℕ → ActiveClaim → Scheduler J → Scheduler J
  extended id until a s = record s {
    claims = insert id (record a { lease_until_ms = until }) s.claims;
  }

  pub data Write (s : Scheduler J) : Scheduler J → Type 0 where
    move :
        (id : ℕ) (next : TaskState) (t : Task J)
        → CanMove s id next t
        → jumps_queue t.state next ≡ false
        → Write s (moved id next t s)
    admit :
        (t : Task J)
        → lookup t.meta.id s.tasks ≡ none
        → is_full s ≡ false
        → can_transition_to t.state queued ≡ true
        → Write s (admitted t s)
    start :
        (id : ℕ) (rest : List ℕ) (t : Task J)
        → s.queue ≡ id ∷ rest
        → lookup id s.tasks ≡ some t
        → t.state ≡ queued
        → Write s (started id rest t s)
    grant :
        (id : ℕ) (a : ActiveClaim)
        → held (lookup id s.tasks) ≡ true
        → a.generation ≡ last_generation (lookup id s.generations) + 1
        → a.generation ≤ u64_max
        → Write s (granted id a s)
    extend :
        (id until : ℕ) (a : ActiveClaim)
        → lookup id s.claims ≡ some a
        → Write s (extended id until a s)

  pub data Writes : Scheduler J → Scheduler J → Type 0 where
    here : {s : Scheduler J} → Writes s s
    more : {s t u : Scheduler J} → Write s t → Writes t u → Writes s u

  pub Writes-trans : {s t u : Scheduler J} → Writes s t → Writes t u → Writes s u
  Writes-trans here v = v
  Writes-trans (more w ws) v = more w (Writes-trans ws v)

  admitted-IsWfAt :
      (s : Scheduler J) (t : Task J) (j : ℕ)
      → lookup t.meta.id s.tasks ≡ none
      → IsWfAt s t.meta.id
      → IsWfAt s j
      → IsWfAt (admitted t s) j
  unfolding is_queued
  admitted-IsWfAt s t j fresh wi w = record {
    queued_once = ground (
      arith,
      count-append j s.queue (t.meta.id ∷ []),
      lookup-insert j t.meta.id (moved_task queued t) s.tasks,
    );
    keyed_by_id = ground (arith, lookup-insert j t.meta.id (moved_task queued t) s.tasks);
    claim_held = ground (arith, lookup-insert j t.meta.id (moved_task queued t) s.tasks);
    one_claim = w.one_claim;
    generation_bounded = w.generation_bounded;
  }

  started-IsWfAt :
      (s : Scheduler J) (id j : ℕ) (rest : List ℕ) (t : Task J)
      → s.queue ≡ id ∷ rest
      → lookup id s.tasks ≡ some t
      → t.state ≡ queued
      → IsWfAt s id
      → IsWfAt s j
      → IsWfAt (started id rest t s) j
  unfolding is_queued is_held
  started-IsWfAt s id j rest t front found q wi w = record {
    queued_once = ground (arith, ap (count j) front, lookup-insert j id (started_task t) s.tasks);
    keyed_by_id = ground (arith, lookup-insert j id (started_task t) s.tasks);
    claim_held = ground (arith, lookup-insert j id (started_task t) s.tasks);
    one_claim = w.one_claim;
    generation_bounded = w.generation_bounded;
  }

  granted-IsWfAt :
      (s : Scheduler J) (id j : ℕ) (a : ActiveClaim)
      → held (lookup id s.tasks) ≡ true
      → a.generation ≤ u64_max
      → IsWfAt s j
      → IsWfAt (granted id a s) j
  unfolding last_generation
  granted-IsWfAt s id j a h b w = record {
    queued_once = w.queued_once;
    keyed_by_id = w.keyed_by_id;
    claim_held =
        ground
          (arith, lookup-insert j id a s.claims, lookup-insert j id a.generation s.generations);
    one_claim = ground (arith, count-keys-insert j id a s.claims);
    generation_bounded = ground (arith, lookup-insert j id a.generation s.generations);
  }

  extended-IsWfAt :
      (s : Scheduler J) (id until j : ℕ) (a : ActiveClaim)
      → lookup id s.claims ≡ some a
      → IsWfAt s id
      → IsWfAt s j
      → IsWfAt (extended id until a s) j
  extended-IsWfAt s id until j a found wi w = record {
    queued_once = w.queued_once;
    keyed_by_id = w.keyed_by_id;
    claim_held = ground (arith, lookup-insert j id (record a { lease_until_ms = until }) s.claims);
    one_claim =
        ground (arith, count-keys-insert j id (record a { lease_until_ms = until }) s.claims);
    generation_bounded = w.generation_bounded;
  }

  -- Every atomic write keeps the invariant.
  pub Write-IsWf : {s u : Scheduler J} → Write s u → IsWf s → IsWf u
  Write-IsWf {s} (move id next t c calm) w = moved-IsWf s id next t c calm w
  Write-IsWf {s} (admit t fresh room legal) w = record {
    positive = w.positive;
    bounded = ground (arith, length-append s.queue (t.meta.id ∷ []), w.bounded);
    at = λ j. admitted-IsWfAt s t j fresh (w.at t.meta.id) (w.at j);
  }
  Write-IsWf {s} (start id rest t front found q) w = record {
    positive = w.positive;
    bounded = omega (arith, ap length front, w.bounded);
    at = λ j. started-IsWfAt s id j rest t front found q (w.at id) (w.at j);
  }
  Write-IsWf {s} (grant id a h g b) w = record {
    positive = w.positive;
    bounded = w.bounded;
    at = λ j. granted-IsWfAt s id j a h b (w.at j);
  }
  Write-IsWf {s} (extend id until a found) w = record {
    positive = w.positive;
    bounded = w.bounded;
    at = λ j. extended-IsWfAt s id until j a found (w.at id) (w.at j);
  }

  pub Writes-IsWf : {s u : Scheduler J} → Writes s u → IsWf s → IsWf u
  Writes-IsWf here w = w
  Writes-IsWf (more x xs) w = Writes-IsWf xs (Write-IsWf x w)
