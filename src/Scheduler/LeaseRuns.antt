-- ===== src/Scheduler/LeaseRuns.antt =====
-- The methods on leases, and `cancel`, as sequences of atomic writes.
use tysel.Base.{
  ℕ, ◌+◌, ◌≡◌, refl, Bool, true, false, leb, Option, none, some, ok, err, lookup, lookup-insert,
  arith, Bool-cases, inl, inr, Result, then_on, Text, Method, ◌>>=◌, lift, ok_or,
}
use tysel.Task.{Task, TaskState, queued, running, retrying}
use tysel.Scheduler.{
  Scheduler, SchedulerError, ActiveClaim, TaskClaim, checked_add, u64_max, time_range, unknown,
  is_claim_outcome, validate_lease,
}
use tysel.Scheduler.Methods.{transition, claim}
use tysel.Scheduler.Leases
use tysel.Scheduler.Leases.{
  last_generation, grant, give_back, next_generation, lease_claimed, claim_with_lease,
  require_live_claim, check_live, renew_claim, renewed, finish_claim, release_claim, release_live,
  release_found, retry, reclaim, reclaim_found, requeue_claims, requeue_expired,
  requeue_owner_claims, cancel, cancel_found,
}
use tysel.Scheduler.Invariant.{IsWf, jumps_queue, is_held, held}
use tysel.Scheduler.Writes.{
  Write, Writes, Writes-IsWf, Write-IsWf, started, started_task, here, more, move, extend, extended,
  Writes-trans,
}
use tysel.Scheduler.Writes
use tysel.Scheduler.Runs.{transition-Writes, jumps}
use tysel.Scheduler.Claiming.{Claimed, idle, claimed, claim-Claimed, start-Write, Runnable}

-- Only `Running` jumps the queue.
abbrev pub is_running : TaskState → Bool
is_running running = true
is_running _ = false

calm : (from next : TaskState) → is_running next ≡ false → jumps_queue from next ≡ false
calm from next h = ground arith

outcome_calm : (next : TaskState) → is_claim_outcome next ≡ true → is_running next ≡ false
unfolding is_claim_outcome
outcome_calm next h = ground arith

module _ {J : Type 0} where
  -- A method that takes every well-formed scheduler to a later one by atomic writes.
  abbrev pub Runs : {A : Type 0} → Method (Scheduler J) SchedulerError A → Type 0
  Runs m = (s : Scheduler J) → IsWf s → Writes s (m s).0

  bind-Writes :
      {A B : Type 0} {s : Scheduler J} (f : A → Method (Scheduler J) SchedulerError B)
      (r : Scheduler J × Result SchedulerError A)
      → IsWf s
      → Writes s r.0
      → ((a : A) → Runs (f a))
      → Writes s (then_on r f (λ e s'. (s', err e))).0
  bind-Writes f (u, ok a) w x hf = Writes-trans x (hf a u (Writes-IsWf x w))
  bind-Writes f (u, err e) w x hf = x

  pub Runs-bind :
      {A B : Type 0} (m : Method (Scheduler J) SchedulerError A)
      (f : A → Method (Scheduler J) SchedulerError B)
      → Runs m
      → ((a : A) → Runs (f a))
      → Runs (m >>= f)
  Runs-bind m f hm hf s w = bind-Writes f (m s) w (hm s w) hf

  pub Runs-lift : {A : Type 0} (r : Result SchedulerError A) → Runs (lift r)
  Runs-lift (ok a) s w = here
  Runs-lift (err e) s w = here

  Runs-ok_or : {A : Type 0} (o : Option A) (e : SchedulerError) → Runs (ok_or o e)
  Runs-ok_or none e s w = here
  Runs-ok_or (some a) e s w = here

  calm_at :
      (next : TaskState) (o : Option (Task J)) → is_running next ≡ false → jumps next o ≡ false
  calm_at next none h = refl
  calm_at next (some t) h = calm t.state next h

  pub Runs-transition :
      (id : ℕ) (next : TaskState) → is_running next ≡ false → Runs (transition id next)
  Runs-transition id next h s w = transition-Writes id next s (calm_at next (lookup id s.tasks) h)

  pub Runs-retry : (id : ℕ) → Runs (retry id)
  Runs-retry id =
      Runs-bind (transition id retrying) (λ _. transition id queued)
        (Runs-transition id retrying refl) (λ _. Runs-transition id queued refl)

  pub Runs-claim : (now_ms : ℕ) → Runs (claim now_ms)
  Runs-claim now_ms s w = go (claim-Claimed now_ms s w)
    where
      go :
          {r : Scheduler J × Result SchedulerError (Option (Task J))}
          → Claimed s now_ms r
          → Writes s r.0
      go (idle u x _) = x.writes
      go (claimed u t x r) = Writes-trans x.writes (more (start-Write r) here)

  Runs-give_back : (id : ℕ) → Runs (give_back id)
  Runs-give_back id =
      Runs-bind (transition id retrying) _ (Runs-transition id retrying refl)
        λ _. Runs-bind (transition id queued) _ (Runs-transition id queued refl) λ _ s w. here

  -- The claim of a task that has just been started.
  grant-Runs :
      (owner : Text) (until : ℕ) (t : Task J) (s : Scheduler J)
      → IsWf s
      → held (lookup t.meta.id s.tasks) ≡ true
      → Writes s (lease_claimed owner until (some t) s).0
  unfolding checked_add
  grant-Runs owner until t s w h =
      elim (Bool-cases (leb (last_generation (lookup t.meta.id s.generations) + 1) u64_max)) [
        | inl fits ↦ rw fits (
            more
              (Writes.grant t.meta.id
                (record {
                  generation = last_generation (lookup t.meta.id s.generations) + 1;
                  lease_owner = owner;
                  lease_until_ms = until;
                })
                h refl (ground arith))
              here)
        | inr over ↦ rw over (Runs-give_back t.meta.id s w)
      ]

  started-held :
      {u : Scheduler J} {now_ms : ℕ} {t : Task J} (r : Runnable u now_ms t)
      → held (lookup t.meta.id (started t.meta.id r.rest t u).tasks) ≡ true
  unfolding is_held
  started-held {u} {t = t} r =
      ground (arith, lookup-insert t.meta.id t.meta.id (started_task t) u.tasks)

  lease_claimed-Writes :
      (owner : Text) (until now_ms : ℕ) {s : Scheduler J}
      {r : Scheduler J × Result SchedulerError (Option (Task J))}
      → IsWf s
      → Claimed s now_ms r
      → Writes s (then_on r (lease_claimed owner until) (λ e s'. (s', err e))).0
  lease_claimed-Writes owner until now_ms w (idle u x _) = x.writes
  lease_claimed-Writes owner until now_ms w (claimed u t x r) =
      let first = Writes-trans x.writes (more (start-Write r) here) in
      Writes-trans first (
        grant-Runs owner until (started_task t) (started t.meta.id r.rest t u) (Writes-IsWf first w)
          (started-held r))

  pub Runs-claim_with_lease :
      (now_ms : ℕ) (owner : Text) (lease_ms : ℕ) → Runs (claim_with_lease now_ms owner lease_ms)
  unfolding claim_with_lease
  Runs-claim_with_lease now_ms owner lease_ms =
      Runs-bind (lift (validate_lease owner lease_ms)) _ (Runs-lift _) λ _.
        Runs-bind (ok_or (checked_add now_ms lease_ms) time_range) _ (Runs-ok_or _ _)
          λ until s w. lease_claimed-Writes owner until now_ms w (claim-Claimed now_ms s w)

  live-found :
      (c : TaskClaim J) (now_ms : ℕ) (s : Scheduler J) {a : ActiveClaim}
      → check_live c now_ms (lookup c.task.meta.id s.claims) ≡ ok a
      → lookup c.task.meta.id s.claims ≡ some a
  live-found c now_ms s h = ground arith

  pub Runs-require : (c : TaskClaim J) (now_ms : ℕ) → Runs (require_live_claim c now_ms)
  unfolding require_live_claim
  Runs-require c now_ms s w = Runs-lift (check_live c now_ms (lookup c.task.meta.id s.claims)) s w

  Runs-renewed : (c : TaskClaim J) (until : ℕ) (a : ActiveClaim) → Runs (renewed c until a)
  Runs-renewed c until a s w =
      Runs-bind (ok_or (lookup c.task.meta.id s.tasks) (unknown c.task.meta.id)) _ (Runs-ok_or _ _)
        (λ t s' w'. here) s w

  renew_live-Runs :
      (c : TaskClaim J) (now_ms until : ℕ) (s : Scheduler J)
      → IsWf s
      → Writes s
          ((require_live_claim c now_ms >>= λ a. Leases.extend c until a >>= λ _. renewed c until a)
            s).0
  unfolding require_live_claim
  renew_live-Runs c now_ms until s w =
      go (check_live c now_ms (lookup c.task.meta.id s.claims)) refl
    where
      go :
          (r : Result SchedulerError ActiveClaim)
          → check_live c now_ms (lookup c.task.meta.id s.claims) ≡ r
          → Writes s ((lift r >>= λ a. Leases.extend c until a >>= λ _. renewed c until a) s).0
      go (err e) h = here
      go (ok a) h =
          let first = extend c.task.meta.id until a (live-found c now_ms s h) in
          more first
            (Runs-renewed c until a (extended c.task.meta.id until a s) (Write-IsWf first w))

  pub Runs-renew_claim :
      (c : TaskClaim J) (now_ms lease_ms : ℕ) → Runs (renew_claim c now_ms lease_ms)
  unfolding renew_claim
  Runs-renew_claim c now_ms lease_ms =
      Runs-bind (lift (validate_lease c.lease_owner lease_ms)) _ (Runs-lift _) λ _.
        Runs-bind (ok_or (checked_add now_ms lease_ms) time_range) _ (Runs-ok_or _ _)
          λ until s w. renew_live-Runs c now_ms until s w

  pub Runs-finish_claim :
      (c : TaskClaim J) (now_ms : ℕ) (next : TaskState) → Runs (finish_claim c now_ms next)
  unfolding finish_claim
  Runs-finish_claim c now_ms next s w = elim (Bool-cases (is_claim_outcome next)) [
    | inr bad ↦ rw bad here
    | inl good ↦ rw good (
        Runs-bind (require_live_claim c now_ms) _ (Runs-require c now_ms)
          (λ _. Runs-transition c.task.meta.id next (outcome_calm next good)) s w)
  ]
