-- ===== src/Scheduler/Leases.antt =====
-- The methods of `Scheduler` on leased claims.
use tysel.Base.{
  ℕ, ◌-◌, Text, List, [], ◌∷◌, Bool, true, false, not, ◌&&◌, leb, ◌==◌, text_eq, Option, none, some,
  Result, ok, err, if◌then◌else◌, length, take, lookup, insert, Method, ◌>>=◌, ◌>>◌, return, fail,
  lift, ok_or,
}
use tysel.Task.{
  Task, TaskState, queued, retrying, timed_out, canceled, is_terminal, deadline_reached,
}
use tysel.Scheduler.{
  Scheduler, SchedulerError, ActiveClaim, TaskClaim, full, unknown, time_range,
  generation_exhausted, lease_lost, invalid_claim_outcome, checked_add, is_claim_outcome,
  validate_lease, validate_lease_owner,
}
use tysel.Scheduler.Methods.{is_full, transition, claim}

-- `sort_unstable` on identifiers, which are distinct keys here.
unfoldable pub insert_sorted : ℕ → List ℕ → List ℕ
insert_sorted x [] = x ∷ []
insert_sorted x (y ∷ ys) = let rest = insert_sorted x ys in if leb x y then x ∷ y ∷ ys else y ∷ rest

unfoldable pub sort_unstable : List ℕ → List ℕ
unfolding insert_sorted
sort_unstable [] = []
sort_unstable (x ∷ xs) = insert_sorted x (sort_unstable xs)

-- `iter().filter_map(|(id, claim)| test(claim).then_some(*id))`
unfoldable pub claimed_ids : (ActiveClaim → Bool) → List (ℕ × ActiveClaim) → List ℕ
claimed_ids test [] = []
claimed_ids test ((id, c) ∷ m) = let rest = claimed_ids test m in if test c then id ∷ rest else rest

unfoldable pub last_generation : Option ℕ → ℕ
last_generation none = 0
last_generation (some g) = g

module _ {J : Type 0} where
  -- The generation space of the task is used up: the task goes back to the queue.
  abbrev pub give_back : ℕ → Method (Scheduler J) SchedulerError (Option (TaskClaim J))
  give_back id = do transition id retrying; transition id queued; fail generation_exhausted

  abbrev pub grant :
      Text → ℕ → Task J → Option ℕ → Method (Scheduler J) SchedulerError (Option (TaskClaim J))
  grant owner lease_until_ms t none s = give_back t.meta.id s
  grant owner lease_until_ms t (some generation) s =
      let active : ActiveClaim = record {
        generation = generation;
        lease_owner = owner;
        lease_until_ms = lease_until_ms;
      } in
      (
        record s {
          generations = insert t.meta.id generation s.generations;
          claims = insert t.meta.id active s.claims;
        },
        ok (
            some (record {
              task = t;
              generation = generation;
              lease_owner = owner;
              lease_until_ms = lease_until_ms;
            })),
      )

  abbrev pub next_generation : ℕ → Scheduler J → Option ℕ
  next_generation id s = checked_add (last_generation (lookup id s.generations)) 1

  abbrev pub lease_claimed :
      Text → ℕ → Option (Task J) → Method (Scheduler J) SchedulerError (Option (TaskClaim J))
  lease_claimed owner lease_until_ms none s = (s, ok none)
  lease_claimed owner lease_until_ms (some t) s =
      grant owner lease_until_ms t (next_generation t.meta.id s) s

  unfoldable pub claim_with_lease :
      ℕ → Text → ℕ → Method (Scheduler J) SchedulerError (Option (TaskClaim J))
  claim_with_lease now_ms owner lease_ms = do
    lift (validate_lease owner lease_ms)
    lease_until_ms ← ok_or (checked_add now_ms lease_ms) time_range
    claimed ← claim now_ms
    lease_claimed owner lease_until_ms claimed

  abbrev pub is_live : TaskClaim J → ℕ → ActiveClaim → Bool
  is_live c now_ms a =
      a.generation == c.generation
      && text_eq a.lease_owner c.lease_owner
      && not (leb a.lease_until_ms now_ms)

  abbrev pub check_live : TaskClaim J → ℕ → Option ActiveClaim → Result SchedulerError ActiveClaim
  check_live c now_ms none = err lease_lost
  check_live c now_ms (some a) = if is_live c now_ms a then ok a else err lease_lost

  unfoldable pub require_live_claim :
      TaskClaim J → ℕ → Method (Scheduler J) SchedulerError ActiveClaim
  require_live_claim c now_ms s = lift (check_live c now_ms (lookup c.task.meta.id s.claims)) s

  -- The write through the reference that `require_live_claim` returns.
  abbrev pub extend : TaskClaim J → ℕ → ActiveClaim → Method (Scheduler J) SchedulerError (Unit {0})
  extend c lease_until_ms a s = (
    record s {
      claims = insert c.task.meta.id (record a { lease_until_ms = lease_until_ms }) s.claims;
    },
    ok tt,
  )

  abbrev pub renewed :
      TaskClaim J → ℕ → ActiveClaim → Method (Scheduler J) SchedulerError (TaskClaim J)
  renewed c lease_until_ms a s =
      (do
        t ← ok_or (lookup c.task.meta.id s.tasks) (unknown c.task.meta.id)
        return (record {
          task = t;
          generation = a.generation;
          lease_owner = a.lease_owner;
          lease_until_ms = lease_until_ms;
        }))
        s

  unfoldable pub renew_claim :
      TaskClaim J → ℕ → ℕ → Method (Scheduler J) SchedulerError (TaskClaim J)
  unfolding require_live_claim
  renew_claim c now_ms lease_ms = do
    lift (validate_lease c.lease_owner lease_ms)
    lease_until_ms ← ok_or (checked_add now_ms lease_ms) time_range
    active ← require_live_claim c now_ms
    extend c lease_until_ms active
    renewed c lease_until_ms active

  unfoldable pub finish_claim :
      TaskClaim J → ℕ → TaskState → Method (Scheduler J) SchedulerError (Task J)
  unfolding require_live_claim
  finish_claim c now_ms next =
      if is_claim_outcome next
      then (require_live_claim c now_ms >>= λ _. transition c.task.meta.id next)
      else fail (invalid_claim_outcome next)

  -- `Retrying` and then `Queued`: the way of a claimed task back to the queue.
  abbrev pub retry : ℕ → Method (Scheduler J) SchedulerError (Task J)
  retry id = transition id retrying >>= λ _. transition id queued

  abbrev pub release_found : ℕ → ℕ → Option (Task J) → Method (Scheduler J) SchedulerError (Task J)
  release_found id now_ms none s = (s, err (unknown id))
  release_found id now_ms (some t) s =
      if deadline_reached t now_ms
      then transition id timed_out s
      else if is_full s
      then (s, err (full s.capacity))
      else retry id s

  abbrev pub release_live : TaskClaim J → ℕ → Method (Scheduler J) SchedulerError (Task J)
  release_live c now_ms s = release_found c.task.meta.id now_ms (lookup c.task.meta.id s.tasks) s

  unfoldable pub release_claim : TaskClaim J → ℕ → Method (Scheduler J) SchedulerError (Task J)
  unfolding require_live_claim
  release_claim c now_ms = require_live_claim c now_ms >>= λ _. release_live c now_ms

  -- One turn of the loop of `requeue_claims`: whether the identifier counts as processed.
  abbrev pub reclaim_found : ℕ → ℕ → Option (Task J) → Method (Scheduler J) SchedulerError Bool
  reclaim_found id now_ms none s = (s, err (unknown id))
  reclaim_found id now_ms (some t) s =
      if deadline_reached t now_ms
      then (transition id timed_out >>= λ _. return true) s
      else if is_full s
      then (s, ok false)
      else (retry id >>= λ _. return true) s

  unfoldable pub reclaim : ℕ → ℕ → Method (Scheduler J) SchedulerError Bool
  reclaim now_ms id s = reclaim_found id now_ms (lookup id s.tasks) s

  unfoldable pub requeue_claims : ℕ → List ℕ → Method (Scheduler J) SchedulerError (List ℕ)
  requeue_claims now_ms [] s = (s, ok [])
  requeue_claims now_ms (id ∷ ids) s =
      (reclaim now_ms id >>= λ done.
      requeue_claims now_ms ids >>= λ rest. return (if done then id ∷ rest else rest))
        s

  unfoldable pub requeue_expired : ℕ → ℕ → Method (Scheduler J) SchedulerError (List ℕ)
  requeue_expired now_ms limit s =
      requeue_claims now_ms
        (take limit (sort_unstable (claimed_ids (λ c. leb c.lease_until_ms now_ms) s.claims))) s

  unfoldable pub requeue_owner_claims : Text → ℕ → ℕ → Method (Scheduler J) SchedulerError (List ℕ)
  requeue_owner_claims owner now_ms limit = lift (validate_lease_owner owner) >>= λ _ s.
      requeue_claims now_ms
        (take limit (sort_unstable (claimed_ids (λ c. text_eq c.lease_owner owner) s.claims))) s

  abbrev pub cancel_found : ℕ → Option (Task J) → Method (Scheduler J) SchedulerError (Task J)
  cancel_found id none s = (s, err (unknown id))
  cancel_found id (some t) s = if is_terminal t.state then (s, ok t) else transition id canceled s

  unfoldable pub cancel : ℕ → Method (Scheduler J) SchedulerError (Task J)
  cancel id s = cancel_found id (lookup id s.tasks) s

  unfoldable pub remaining_capacity : Scheduler J → ℕ
  remaining_capacity s = s.capacity - length s.queue
