-- ===== src/Scheduler/Fencing.antt =====
-- Generations fence the workers: a lease that is lost stays lost.
use tysel.Base.{
  ℕ, ◌+◌, ◌≤◌, ◌<◌, ◌≡◌, List, none, err, lookup, ◌==◌, lookup-insert, lookup-remove, arith,
  Bool-cases, Option-cases, Result-cases, inl, inr, ap, ◌⊎◌, ==_iff, Result,
}
use tysel.Task.{TaskState}
use tysel.Scheduler.{
  Scheduler, SchedulerError, TaskClaim, ActiveClaim, lease_lost, time_range, invalid_claim_outcome,
  is_claim_outcome, checked_add, validate_lease,
}
use tysel.Scheduler.Methods.{drop_claim}
use tysel.Scheduler.Leases.{last_generation, renew_claim, finish_claim, release_claim, check_live}
use tysel.Scheduler.Invariant.{IsWf}
use tysel.Scheduler.Writes.{
  Write, Writes, move, admit, start, grant, extend, here, more, granted, Writes-IsWf,
}
use tysel.Scheduler.Calls.{Call, run, IsOrderly, run-Writes}

drop_claim-none :
    (j id : ℕ) (next : TaskState) (m : List (ℕ × ActiveClaim))
    → lookup j m ≡ none
    → lookup j (drop_claim id next m) ≡ none
unfolding drop_claim
drop_claim-none j id next m h = ground (arith, lookup-remove j id m)

module _ {J : Type 0} where
  abbrev pub generation_of : ℕ → Scheduler J → ℕ
  generation_of id s = last_generation (lookup id s.generations)

  -- The claim has been superseded by a newer generation, or its lease is no longer on record.
  abbrev pub IsFenced : TaskClaim J → Scheduler J → Type 0
  IsFenced c s =
      (c.generation < generation_of c.task.meta.id s)
      ⊎ ((lookup c.task.meta.id s.claims ≡ none) × (c.generation ≤ generation_of c.task.meta.id s))

  grant-IsFenced :
      (s : Scheduler J) (c : TaskClaim J) (id : ℕ) (a : ActiveClaim)
      → a.generation ≡ generation_of id s + 1
      → IsFenced c s
      → IsFenced c (granted id a s)
  unfolding last_generation
  grant-IsFenced s c id a g f = elim (Bool-cases (id == c.task.meta.id)) [
    | inl same ↦ inl (
        ground (
          arith,
          f,
          ap (λ k. generation_of k s) ((==_iff id c.task.meta.id).0 same),
          lookup-insert c.task.meta.id id a.generation s.generations,
        ))
    | inr other ↦
        rw
          (
            lookup-insert c.task.meta.id id a.generation s.generations,
            lookup-insert c.task.meta.id id a s.claims,
            other,
          )
          f
  ]

  Write-IsFenced : {s u : Scheduler J} (c : TaskClaim J) → Write s u → IsFenced c s → IsFenced c u
  Write-IsFenced c (move id next t m calm) (inl f) = inl f
  Write-IsFenced {s} c (move id next t m calm) (inr f) =
      inr (drop_claim-none c.task.meta.id id next s.claims f.0, f.1)
  Write-IsFenced c (admit t fresh room legal) f = f
  Write-IsFenced c (start id rest t front found q) f = f
  Write-IsFenced {s} c (grant id a h g b) f = grant-IsFenced s c id a g f
  Write-IsFenced {s} c (extend id until a found) (inl f) = inl f
  Write-IsFenced {s} c (extend id until a found) (inr f) = inr (
    ground (
      arith,
      lookup-insert c.task.meta.id id (record a { lease_until_ms = until }) s.claims,
      f.0,
    ),
    f.1,
  )

  Writes-IsFenced : {s u : Scheduler J} (c : TaskClaim J) → Writes s u → IsFenced c s → IsFenced c u
  Writes-IsFenced c here f = f
  Writes-IsFenced c (more x xs) f = Writes-IsFenced c xs (Write-IsFenced c x f)

  fenced-check :
      (c : TaskClaim J) (now_ms : ℕ) (s : Scheduler J)
      → IsWf s
      → IsFenced c s
      → check_live c now_ms (lookup c.task.meta.id s.claims) ≡ err lease_lost
  fenced-check c now_ms s w (inr f) = rw f.0
  fenced-check c now_ms s w (inl f) = ground (arith, (w.at c.task.meta.id).claim_held)

  -- The call fails and leaves the scheduler as it was.
  abbrev pub Refused : {A : Type 0} → Scheduler J → Scheduler J × Result SchedulerError A → Type 0
  Refused u r = (e : SchedulerError) × (r ≡ (u, err e))

  renew-Refused :
      (c : TaskClaim J) (now_ms lease_ms : ℕ) (s : Scheduler J)
      → check_live c now_ms (lookup c.task.meta.id s.claims) ≡ err lease_lost
      → Refused s (renew_claim c now_ms lease_ms s)
  unfolding renew_claim
  renew-Refused c now_ms lease_ms s lost =
      elim (Result-cases (validate_lease c.lease_owner lease_ms)) [
        | inr (e, bad) ↦ (e, rw bad)
        | inl (_, good) ↦ elim (Option-cases (checked_add now_ms lease_ms)) [
          | inl over ↦ (time_range, rw (good, over))
          | inr (until, fits) ↦ (lease_lost, rw (good, fits, lost))
        ]
      ]

  finish-Refused :
      (c : TaskClaim J) (now_ms : ℕ) (next : TaskState) (s : Scheduler J)
      → check_live c now_ms (lookup c.task.meta.id s.claims) ≡ err lease_lost
      → Refused s (finish_claim c now_ms next s)
  unfolding finish_claim
  finish-Refused c now_ms next s lost = elim (Bool-cases (is_claim_outcome next)) [
    | inr bad ↦ (invalid_claim_outcome next, rw bad)
    | inl good ↦ (lease_lost, rw (good, lost))
  ]

  release_refused :
      (c : TaskClaim J) (now_ms : ℕ) (s : Scheduler J)
      → check_live c now_ms (lookup c.task.meta.id s.claims) ≡ err lease_lost
      → release_claim c now_ms s ≡ (s, err lease_lost)
  unfolding release_claim
  release_refused c now_ms s lost = rw lost

  -- A worker whose claim is fenced stays fenced through every orderly run, at whatever times the
  -- calls are made: it can neither renew, nor finish, nor release the task, and each of these calls
  -- leaves the scheduler as it was.
  pub fenced_forever :
      (s : Scheduler J) (cs : List (Call J)) (c : TaskClaim J) (now_ms lease_ms : ℕ)
      (next : TaskState)
      → IsWf s
      → IsOrderly s cs
      → IsFenced c s
      → let u = run s cs in
        Refused u (renew_claim c now_ms lease_ms u)
        × Refused u (finish_claim c now_ms next u)
        × (release_claim c now_ms u ≡ (u, err lease_lost))
  fenced_forever s cs c now_ms lease_ms next w o f =
      let ws = run-Writes s cs o w in
      let lost = fenced-check c now_ms (run s cs) (Writes-IsWf ws w) (Writes-IsFenced c ws f) in
      (
        renew-Refused c now_ms lease_ms (run s cs) lost,
        finish-Refused c now_ms next (run s cs) lost,
        release_refused c now_ms (run s cs) lost,
      )
