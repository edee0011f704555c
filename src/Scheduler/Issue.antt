-- ===== src/Scheduler/Issue.antt =====
-- What a leased claim returns, and which claims it fences.
use tysel.Base.{
  ℕ, ◌+◌, ◌≤◌, ◌≡◌, refl, ◌∷◌, Option, none, some, ok, err, lookup, lookup-insert_self, ◌>>=◌,
  arith, Bool-cases, Option-cases, Result-cases, inl, inr, ap, Text, Result, leb, then_on, sym, ◌∙◌,
}
use tysel.Task.{Task, queued, running, retrying}
use tysel.Scheduler.{
  Scheduler, SchedulerError, TaskClaim, generation_exhausted, checked_add, validate_lease, u64_max,
}
use tysel.Scheduler.Methods.{transition}
use tysel.Scheduler.Leases.{last_generation, claim_with_lease, lease_claimed, give_back}
use tysel.Scheduler.Invariant.{IsWf}
use tysel.Scheduler.Writes.{started, started_task}
use tysel.Scheduler.Claiming.{
  Claimed, idle, claimed, claim-Claimed, Runnable, Expired, skip_overdue,
}
use tysel.Scheduler.Fencing.{generation_of, IsFenced}

checked_add-some : (a b c : ℕ) → checked_add a b ≡ some c → c ≡ a + b
unfolding checked_add
checked_add-some a b c h = ground arith

module _ {J : Type 0} where
  -- A claim of a task that was at the front of the queue behind the overdue tasks. It has the next
  -- generation of its task, it is on record until the lease ends, and its task is running.
  pub record Issued (s : Scheduler J) (owner : Text) (now_ms lease_ms : ℕ) (u : Scheduler J)
      (c : TaskClaim J) : Type 0 where
    pub first : skip_overdue now_ms s.tasks s.queue ≡ c.task.meta.id ∷ u.queue
    pub next_one : c.generation ≡ generation_of c.task.meta.id s + 1
    pub last_one : generation_of c.task.meta.id u ≡ c.generation
    pub runs : c.task.state ≡ running
    pub registered : lookup c.task.meta.id u.tasks ≡ some c.task
    pub owned : c.lease_owner ≡ owner
    pub until : c.lease_until_ms ≡ now_ms + lease_ms
    pub on_record :
        lookup c.task.meta.id u.claims
        ≡ some (record {
          generation = c.generation;
          lease_owner = owner;
          lease_until_ms = now_ms + lease_ms;
        })

  abbrev Grants :
      Scheduler J
      → Text
      → ℕ
      → ℕ
      → Scheduler J × Result SchedulerError (Option (TaskClaim J))
      → Type 0
  Grants s owner now_ms lease_ms (u, ok (some c)) = Issued s owner now_ms lease_ms u c
  Grants s owner now_ms lease_ms (u, ok none) = Unit {0}
  Grants s owner now_ms lease_ms (u, err e) = Unit {0}

  -- The branch on which the generations are used up grants nothing.
  give_back-Grants :
      (s v : Scheduler J) (owner : Text) (now_ms lease_ms id : ℕ)
      → Grants s owner now_ms lease_ms (give_back id v)
  give_back-Grants s v owner now_ms lease_ms id = outer (transition id retrying v)
    where
      inner :
          (r : Scheduler J × Result SchedulerError (Task J))
          → Grants s owner now_ms lease_ms
              (then_on r (λ _ s'. (s', err generation_exhausted)) (λ e s'. (s', err e)))
      inner (u, ok t) = tt
      inner (u, err e) = tt

      outer :
          (r : Scheduler J × Result SchedulerError (Task J))
          → Grants s owner now_ms lease_ms (
              then_on r
                (λ _. transition id queued >>= λ _ s'. (s', err generation_exhausted))
                (λ e s'. (s', err e)))
      outer (u, ok t) = inner (transition id queued u)
      outer (u, err e) = tt

  claimed-Grants :
      (s u : Scheduler J) (owner : Text) (now_ms lease_ms : ℕ) (t : Task J)
      → Expired s now_ms u
      → (r : Runnable u now_ms t)
      → Grants s owner now_ms lease_ms (
          lease_claimed owner
            (now_ms + lease_ms)
            (some (started_task t))
            (started t.meta.id r.rest t u))
  unfolding checked_add last_generation
  claimed-Grants s u owner now_ms lease_ms t x r =
      elim (Bool-cases (leb (last_generation (lookup t.meta.id u.generations) + 1) u64_max)) [
        | inr over ↦
            rw over
              (give_back-Grants s (started t.meta.id r.rest t u) owner now_ms lease_ms t.meta.id)
        | inl fits ↦ rw fits (record {
          first = sym x.skipped ∙ r.front;
          next_one = ap (λ m. last_generation (lookup t.meta.id m) + 1) x.generations_kept;
          last_one = ap last_generation (lookup-insert_self _ _ _);
          runs = refl;
          registered = lookup-insert_self _ _ _;
          owned = refl;
          until = refl;
          on_record = lookup-insert_self _ _ _;
        })
      ]

  lease_claimed-Grants :
      {s : Scheduler J} {now_ms : ℕ} {r : Scheduler J × Result SchedulerError (Option (Task J))}
      (owner : Text) (lease_ms : ℕ)
      → Claimed s now_ms r
      → Grants s owner now_ms lease_ms
          (then_on r (lease_claimed owner (now_ms + lease_ms)) (λ e s'. (s', err e)))
  lease_claimed-Grants owner lease_ms (idle u x _) = tt
  lease_claimed-Grants {s} {now_ms} owner lease_ms (claimed u t x r) =
      claimed-Grants s u owner now_ms lease_ms t x r

  claim_with_lease-Grants :
      (s : Scheduler J) (owner : Text) (now_ms lease_ms : ℕ)
      → IsWf s
      → Grants s owner now_ms lease_ms (claim_with_lease now_ms owner lease_ms s)
  unfolding claim_with_lease
  claim_with_lease-Grants s owner now_ms lease_ms w =
      elim (Result-cases (validate_lease owner lease_ms)) [
        | inr (e, bad) ↦ rw bad tt
        | inl (_, good) ↦ elim (Option-cases (checked_add now_ms lease_ms)) [
          | inl over ↦ rw (good, over) tt
          | inr (until, fits) ↦
              rw (good, fits, checked_add-some now_ms lease_ms until fits)
                (lease_claimed-Grants owner lease_ms (claim-Claimed now_ms s w))
        ]
      ]

  -- A successful `claim_with_lease` on a well-formed scheduler returns a claim of the first task of
  -- the queue that is not overdue. The task is running, the lease ends `lease_ms` from now, and the
  -- claim carries the next generation of the task, which is on record with it.
  pub claim_with_lease-Issued :
      (s u : Scheduler J) (owner : Text) (now_ms lease_ms : ℕ) (c : TaskClaim J)
      → IsWf s
      → claim_with_lease now_ms owner lease_ms s ≡ (u, ok (some c))
      → Issued s owner now_ms lease_ms u c
  claim_with_lease-Issued s u owner now_ms lease_ms c w e =
      rw e at (claim_with_lease-Grants s owner now_ms lease_ms w)

  -- A claim that `claim_with_lease` returns fences every claim of the same task that was issued
  -- before, that is, every one with a generation up to the last one on record.
  pub claim_with_lease-IsFenced :
      (s u : Scheduler J) (owner : Text) (now_ms lease_ms : ℕ) (c old : TaskClaim J)
      → IsWf s
      → claim_with_lease now_ms owner lease_ms s ≡ (u, ok (some c))
      → old.task.meta.id ≡ c.task.meta.id
      → old.generation ≤ generation_of old.task.meta.id s
      → IsFenced old u
  claim_with_lease-IsFenced s u owner now_ms lease_ms c old w e same issued =
      let i = claim_with_lease-Issued s u owner now_ms lease_ms c w e in
      inl (
        omega (
          arith,
          issued,
          i.next_one,
          i.last_one,
          ap (λ k. generation_of k s) same,
          ap (λ k. generation_of k u) same,
        ))
