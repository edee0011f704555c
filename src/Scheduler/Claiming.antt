-- ===== src/Scheduler/Claiming.antt =====
-- What `peek_runnable` and `claim` find.
use tysel.Base.{
  ℕ, zero, suc, ◌≤◌, ◌≡◌, refl, List, [], ◌∷◌, Bool, true, false, Option, none, some, ok, err,
  if◌then◌else◌, ◌==◌, ==_iff, ◌⊎◌, inl, inr, Bool-cases, sym, length, count, lookup, insert,
  lookup-insert, arith, Result, ap, then_on,
}
use tysel.Task.{Task, queued, timed_out, can_transition_to, deadline_reached, begin_attempt}
use tysel.Scheduler.{Scheduler, SchedulerError}
use tysel.Scheduler.Methods.{peek_loop, peek_runnable, claim, claim_next}
use tysel.Scheduler.Invariant.{IsWf, moved, moved_task}
use tysel.Scheduler.Writes.{
  Write, Writes, Write-IsWf, started, started_task, here, more, move, start,
}
use tysel.Scheduler.Runs.{turn, empty, ready, overdue}

module _ {J : Type 0} where
  abbrev pub is_late : ℕ → Option (Task J) → Bool
  is_late now_ms none = false
  is_late now_ms (some t) = deadline_reached t now_ms

  -- The queue behind its overdue front part.
  abbrev pub skip_overdue : ℕ → List (ℕ × Task J) → List ℕ → List ℕ
  skip_overdue now_ms m [] = []
  skip_overdue now_ms m (id ∷ q) =
      let rest = skip_overdue now_ms m q in if is_late now_ms (lookup id m) then rest else id ∷ q

  -- The first task of the queue, queued and in time.
  pub record Runnable (u : Scheduler J) (now_ms : ℕ) (t : Task J) : Type 0 where
    pub rest : List ℕ
    pub front : u.queue ≡ t.meta.id ∷ rest
    pub found : lookup t.meta.id u.tasks ≡ some t
    pub waits : t.state ≡ queued
    pub in_time : deadline_reached t now_ms ≡ false

  -- `u` is the scheduler after the overdue front part of the queue has been timed out.
  pub record Expired (s : Scheduler J) (now_ms : ℕ) (u : Scheduler J) : Type 0 where
    pub writes : Writes s u
    pub skipped : u.queue ≡ skip_overdue now_ms s.tasks s.queue
    pub generations_kept : u.generations ≡ s.generations
    pub others :
        (k : ℕ) (t : Task J)
        → lookup k s.tasks ≡ some t
        → (lookup k u.tasks ≡ some t)
          ⊎ ((lookup k u.tasks ≡ some (moved_task timed_out t))
              × (deadline_reached t now_ms ≡ true))

  pub data Peeked (s : Scheduler J) (now_ms : ℕ)
      : Scheduler J × Result SchedulerError (Option (Task J)) → Type 0 where
    nothing : (u : Scheduler J) → Expired s now_ms u → u.queue ≡ [] → Peeked s now_ms (u, ok none)
    runnable :
        (u : Scheduler J) (t : Task J)
        → Expired s now_ms u
        → Runnable u now_ms t
        → Peeked s now_ms (u, ok (some t))

  pub skip_overdue-insert :
      (now_ms id : ℕ) (t : Task J) (m : List (ℕ × Task J)) (q : List ℕ)
      → count id q ≡ 0
      → skip_overdue now_ms (insert id t m) q ≡ skip_overdue now_ms m q
  skip_overdue-insert now_ms id t m [] h = refl
  skip_overdue-insert now_ms id t m (j ∷ q) h =
      ground (arith, lookup-insert j id t m, skip_overdue-insert now_ms id t m q)

  Peeked-after :
      {s : Scheduler J} {now_ms id : ℕ} {rest : List ℕ} {t : Task J}
      {r : Scheduler J × Result SchedulerError (Option (Task J))}
      → s.queue ≡ id ∷ rest
      → count id rest ≡ 0
      → lookup id s.tasks ≡ some t
      → deadline_reached t now_ms ≡ true
      → (moved id timed_out t s).queue ≡ rest
      → Write s (moved id timed_out t s)
      → Peeked (moved id timed_out t s) now_ms r
      → Peeked s now_ms r
  Peeked-after {s} {now_ms} {id} {rest} {t} front once found late left w p = go p
    where
      same : {u : Scheduler J} → Expired (moved id timed_out t s) now_ms u → Expired s now_ms u
      same {u} x = record {
        writes = more w x.writes;
        skipped =
            ground (
              arith,
              x.skipped,
              skip_overdue-insert now_ms id (moved_task timed_out t) s.tasks rest,
            );
        generations_kept = x.generations_kept;
        others = λ k o h. elim (Bool-cases (id == k)) [
          | inr other ↦
              x.others k o (ground (arith, lookup-insert k id (moved_task timed_out t) s.tasks))
          | inl mine ↦
              let here : lookup k s.tasks ≡ some t = rw (sym ((==_iff id k).0 mine)) found in
              let was : o ≡ t = cc in
              let timed : lookup k u.tasks ≡ some (moved_task timed_out t) =
                elim (x.others k (moved_task timed_out t)
                  (ground (arith, lookup-insert k id (moved_task timed_out t) s.tasks))) [
                    | inl e ↦ e
                    | inr (e, _) ↦ e
                  ] in
              inr (rw was timed, rw was late)
        ];
      }

      go :
          {r : Scheduler J × Result SchedulerError (Option (Task J))}
          → Peeked (moved id timed_out t s) now_ms r
          → Peeked s now_ms r
      go (nothing u x e) = nothing u (same x) e
      go (runnable u t x y) = runnable u t (same x) y

  nothing_left : (s : Scheduler J) (now_ms : ℕ) → s.queue ≡ [] → Peeked s now_ms (s, ok none)
  nothing_left s now_ms e =
      nothing s
        (record {
          writes = here;
          skipped = ground arith;
          generations_kept = refl;
          others = λ k t h. inl h;
        })
        e

  peek_loop-Peeked :
      (n now_ms : ℕ) (s : Scheduler J)
      → IsWf s
      → length s.queue ≤ n
      → Peeked s now_ms (peek_loop n now_ms s)
  unfolding peek_loop
  peek_loop-Peeked zero now_ms s w h = nothing_left s now_ms (ground arith)
  peek_loop-Peeked (suc n) now_ms s w h = elim (turn s now_ms w) [
    | empty none_left e ↦ rw (e (peek_loop n now_ms)) (nothing_left s now_ms none_left)
    | ready id rest t front found q own early e ↦ rw (e (peek_loop n now_ms)) (
        runnable s t
          (record {
            writes = here;
            skipped = ground (arith, front, found, early);
            generations_kept = refl;
            others = λ k o h. inl h;
          })
          (record {
            rest = rest;
            front = rw own front;
            found = simp own found;
            waits = q;
            in_time = early;
          }))
    | overdue id rest t front c q late once left e ↦
        let first = move id timed_out t c (rw q) in
        rw (e (peek_loop n now_ms)) (
          Peeked-after front once c.found late left first (
            peek_loop-Peeked n now_ms (moved id timed_out t s) (Write-IsWf first w)
              (omega (arith, h, ap length left, ap length front))))
  ]

  pub peek_runnable-Peeked :
      (now_ms : ℕ) (s : Scheduler J) → IsWf s → Peeked s now_ms (peek_runnable now_ms s)
  unfolding peek_runnable
  peek_runnable-Peeked now_ms s w = peek_loop-Peeked (length s.queue) now_ms s w (omega arith)

  -- A claim starts the task that a peek shows, or finds nothing.
  pub data Claimed (s : Scheduler J) (now_ms : ℕ)
      : Scheduler J × Result SchedulerError (Option (Task J)) → Type 0 where
    idle : (u : Scheduler J) → Expired s now_ms u → u.queue ≡ [] → Claimed s now_ms (u, ok none)
    claimed :
        (u : Scheduler J) (t : Task J)
        → Expired s now_ms u
        → (r : Runnable u now_ms t)
        → Claimed s now_ms (started t.meta.id r.rest t u, ok (some (started_task t)))

  claim_next-started :
      (u : Scheduler J) (now_ms : ℕ) (t : Task J) (r : Runnable u now_ms t)
      → claim_next (some t) u ≡ (started t.meta.id r.rest t u, ok (some (started_task t)))
  unfolding begin_attempt can_transition_to
  claim_next-started u now_ms t r = ground (arith, r.front, r.found, r.waits)

  claim_next-Claimed :
      {s : Scheduler J} {now_ms : ℕ} {r : Scheduler J × Result SchedulerError (Option (Task J))}
      → Peeked s now_ms r
      → Claimed s now_ms (then_on r claim_next (λ e s'. (s', err e)))
  claim_next-Claimed (nothing u x e) = idle u x e
  claim_next-Claimed {now_ms = now_ms} (runnable u t x y) =
      rw (claim_next-started u now_ms t y) (claimed u t x y)

  pub claim-Claimed : (now_ms : ℕ) (s : Scheduler J) → IsWf s → Claimed s now_ms (claim now_ms s)
  unfolding claim
  claim-Claimed now_ms s w = claim_next-Claimed (peek_runnable-Peeked now_ms s w)

  pub start-Write :
      {u : Scheduler J} {now_ms : ℕ} {t : Task J} (r : Runnable u now_ms t)
      → Write u (started t.meta.id r.rest t u)
  start-Write {t} r = start t.meta.id r.rest t r.front r.found r.waits
