-- ===== src/Scheduler/Calls.antt =====
-- Any sequence of calls of the public methods, from a new scheduler.
use tysel.Base.{ℕ, ◌≡◌, List, [], ◌∷◌, Bool, true, ok, lookup, not, arith, Text, Result, Option}
use tysel.Task.{Task, TaskState}
use tysel.Scheduler.{Scheduler, SchedulerError, TaskClaim, new}
use tysel.Scheduler.Methods.{transition, enqueue, claim, peek_runnable}
use tysel.Scheduler.Leases.{
  last_generation, claim_with_lease, renew_claim, finish_claim, release_claim, requeue_expired,
  requeue_owner_claims, cancel,
}
use tysel.Scheduler.Invariant.{IsWf}
use tysel.Scheduler.Writes.{Writes, here, Writes-trans, Writes-IsWf}
use tysel.Scheduler.Runs.{jumps, transition-Writes, enqueue-Writes}
use tysel.Scheduler.Claiming.{Peeked, nothing, runnable, peek_runnable-Peeked}
use tysel.Scheduler.LeaseRuns.{
  Runs-claim, Runs-claim_with_lease, Runs-renew_claim, Runs-finish_claim,
}
use tysel.Scheduler.Reclaim.{
  Runs-release_claim, Runs-requeue_expired, Runs-requeue_owner_claims, Runs-cancel,
}

-- A call of a method on `&mut self`, with its arguments.
pub data Call (J : Type 0) : Type 0 where
  enqueues : Task J → Call J
  claims peeks : (now_ms : ℕ) → Call J
  leases : (now_ms : ℕ) → (owner : Text) → (lease_ms : ℕ) → Call J
  renews : TaskClaim J → (now_ms lease_ms : ℕ) → Call J
  finishes : TaskClaim J → (now_ms : ℕ) → TaskState → Call J
  releases : TaskClaim J → (now_ms : ℕ) → Call J
  requeues_expired : (now_ms limit : ℕ) → Call J
  requeues_owner : (owner : Text) → (now_ms limit : ℕ) → Call J
  transitions : (id : ℕ) → TaskState → Call J
  cancels : (id : ℕ) → Call J

module _ {J : Type 0} where
  -- The scheduler after a call, whatever the call returns.
  unfoldable pub after : Call J → Scheduler J → Scheduler J
  after (enqueues t) s = (enqueue t s).0
  after (claims now_ms) s = (claim now_ms s).0
  after (peeks now_ms) s = (peek_runnable now_ms s).0
  after (leases now_ms owner lease_ms) s = (claim_with_lease now_ms owner lease_ms s).0
  after (renews c now_ms lease_ms) s = (renew_claim c now_ms lease_ms s).0
  after (finishes c now_ms next) s = (finish_claim c now_ms next s).0
  after (releases c now_ms) s = (release_claim c now_ms s).0
  after (requeues_expired now_ms limit) s = (requeue_expired now_ms limit s).0
  after (requeues_owner owner now_ms limit) s = (requeue_owner_claims owner now_ms limit s).0
  after (transitions id next) s = (transition id next s).0
  after (cancels id) s = (cancel id s).0

  -- Every call but a `transition` of a queued task to `Running`.
  abbrev pub is_orderly : Call J → Scheduler J → Bool
  is_orderly (transitions id next) s = not (jumps next (lookup id s.tasks))
  is_orderly _ s = true

  unfoldable pub run : Scheduler J → List (Call J) → Scheduler J
  run s [] = s
  run s (c ∷ cs) = run (after c s) cs

  abbrev pub IsOrderly : Scheduler J → List (Call J) → Type 0
  IsOrderly s [] = Unit {0}
  IsOrderly s (c ∷ cs) = (is_orderly c s ≡ true) × IsOrderly (after c s) cs

  Writes-of-Peeked :
      {s : Scheduler J} {now_ms : ℕ} {r : Scheduler J × Result SchedulerError (Option (Task J))}
      → Peeked s now_ms r
      → Writes s r.0
  Writes-of-Peeked (nothing u x _) = x.writes
  Writes-of-Peeked (runnable u t x _) = x.writes

  pub after-Writes :
      (c : Call J) (s : Scheduler J) → is_orderly c s ≡ true → IsWf s → Writes s (after c s)
  unfolding after
  after-Writes (enqueues t) s o w = enqueue-Writes t s
  after-Writes (claims now_ms) s o w = Runs-claim now_ms s w
  after-Writes (peeks now_ms) s o w = Writes-of-Peeked (peek_runnable-Peeked now_ms s w)
  after-Writes (leases now_ms owner lease_ms) s o w =
      Runs-claim_with_lease now_ms owner lease_ms s w
  after-Writes (renews c now_ms lease_ms) s o w = Runs-renew_claim c now_ms lease_ms s w
  after-Writes (finishes c now_ms next) s o w = Runs-finish_claim c now_ms next s w
  after-Writes (releases c now_ms) s o w = Runs-release_claim c now_ms s w
  after-Writes (requeues_expired now_ms limit) s o w = Runs-requeue_expired now_ms limit s w
  after-Writes (requeues_owner owner now_ms limit) s o w =
      Runs-requeue_owner_claims owner now_ms limit s w
  after-Writes (transitions id next) s o w = transition-Writes id next s (ground arith)
  after-Writes (cancels id) s o w = Runs-cancel id s w

  -- Every run of orderly calls is a sequence of atomic writes.
  pub run-Writes :
      (s : Scheduler J) (cs : List (Call J)) → IsOrderly s cs → IsWf s → Writes s (run s cs)
  unfolding run
  run-Writes s [] o w = here
  run-Writes s (c ∷ cs) o w =
      let first = after-Writes c s o.0 w in
      Writes-trans first (run-Writes (after c s) cs o.1 (Writes-IsWf first w))

  new-IsWf : (capacity : ℕ) (s : Scheduler J) → new capacity ≡ ok s → IsWf s
  unfolding new lookup last_generation
  new-IsWf capacity s h = record {
    positive = ground arith;
    bounded = ground arith;
    at = λ id. record {
      queued_once = ground arith;
      keyed_by_id = ground arith;
      claim_held = ground arith;
      one_claim = ground arith;
      generation_bounded = ground arith;
    };
  }

  -- From a new scheduler, every sequence of calls that asks for no `transition` of a queued task to
  -- `Running` ends in a well-formed scheduler, whether or not its calls fail: the queue is within
  -- its capacity and holds each queued task once and no other, a lease belongs to a running or
  -- waiting task, and it carries the last generation issued for that task.
  pub run-new-IsWf :
      (capacity : ℕ) (s : Scheduler J) (cs : List (Call J))
      → new capacity ≡ ok s
      → IsOrderly s cs
      → IsWf (run s cs)
  run-new-IsWf capacity s cs h o =
      let w = new-IsWf capacity s h in Writes-IsWf (run-Writes s cs o w) w
