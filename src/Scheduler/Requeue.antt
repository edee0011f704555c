-- ===== src/Scheduler/Requeue.antt =====
-- Reclaiming work after a crash or a disconnect: total, bounded, and confined to its claims.
use tysel.Base.{
  ℕ, ◌≤◌, ◌<◌, ◌≡◌, ◌≢◌, refl, List, [], ◌∷◌, Bool, true, false, Option, none, some, ok, lookup,
  count, lookup-insert, lookup-remove, arith, Bool-cases, inl, inr, Result, length, ◌∙◌, ◌==◌,
  if◌then◌else◌, ==_iff,
}
use tysel.Task.{Task, TaskState, queued, retrying, timed_out, deadline_reached}
use tysel.Scheduler.{Scheduler, SchedulerError, ActiveClaim, is_claim_outcome, is_queued}
use tysel.Scheduler.Methods.{is_full, drop_claim}
use tysel.Scheduler.Leases.{reclaim, requeue_claims}
use tysel.Scheduler.Invariant.{CanMove, moved, moved_task, transition_moves, is_held, held}
use tysel.Scheduler.Outcomes.{drop_claim_outcome}
use tysel.Scheduler.Release.{retried-queued, retried, retry-retried, held_legal}

drop_claim-other :
    (j id : ℕ) (next : TaskState) (m : List (ℕ × ActiveClaim))
    → id ≢ j
    → lookup j (drop_claim id next m) ≡ lookup j m
unfolding drop_claim
drop_claim-other j id next m h = ground (arith, lookup-remove j id m)

abbrev pub AreDistinct : List ℕ → Type 0
AreDistinct ids = (j : ℕ) → count j ids ≤ 1

-- A later identifier is not the one in front, and the turn for that one leaves it alone.
later_other : (id j : ℕ) (ids : List ℕ) → AreDistinct (id ∷ ids) → 0 < count j ids → id ≢ j
later_other id j ids d h = λ e. absurd (ground (arith, d id, e))

module _ {J : Type 0} where
  -- Away from one identifier nothing changes.
  abbrev pub SameAt : ℕ → Scheduler J → Scheduler J → Type 0
  SameAt j s u = (lookup j u.tasks ≡ lookup j s.tasks) × (lookup j u.claims ≡ lookup j s.claims)

  moved-SameAt :
      (j id : ℕ) (next : TaskState) (t : Task J) (s : Scheduler J)
      → id ≢ j
      → SameAt j s (moved id next t s)
  moved-SameAt j id next t s h = (
    ground (arith, lookup-insert j id (moved_task next t) s.tasks),
    drop_claim-other j id next s.claims h,
  )

  retried-SameAt : (j id : ℕ) (t : Task J) (s : Scheduler J) → id ≢ j → SameAt j s (retried id t s)
  unfolding retried
  retried-SameAt j id t s h =
      let (tasks₁, claims₁) = moved-SameAt j id retrying t s h in
      let (tasks₂, claims₂) =
        moved-SameAt j id queued (moved_task retrying t) (moved id retrying t s) h in
      (tasks₂ ∙ tasks₁, claims₂ ∙ claims₁)

  -- A turn of the loop: it changes one task and its lease, or nothing; a task that counts as
  -- processed has no lease any more.
  record Reclaimed (s : Scheduler J) (now_ms id : ℕ) : Type 0 where
    u : Scheduler J
    done : Bool
    returns : reclaim now_ms id s ≡ (u, ok done)
    confined : (j : ℕ) → id ≢ j → SameAt j s u
    unleased : done ≡ true → lookup id u.claims ≡ none
    skipped : done ≡ false → u ≡ s

  reclaim-Reclaimed :
      (s : Scheduler J) (now_ms id : ℕ) (t : Task J)
      → lookup id s.tasks ≡ some t
      → is_held t.state ≡ true
      → Reclaimed s now_ms id
  unfolding reclaim is_queued is_claim_outcome
  reclaim-Reclaimed s now_ms id t found h = elim (Bool-cases (deadline_reached t now_ms)) [
    | inl late ↦
        let m : CanMove s id timed_out t = record {
          found = found;
          legal = (held_legal t.state h).1;
          room = refl;
        } in
        record {
          u = moved id timed_out t s;
          done = true;
          returns = rw (found, late) (rw (transition_moves id timed_out s t m));
          confined = λ j other. moved-SameAt j id timed_out t s other;
          unleased = λ _. drop_claim_outcome id timed_out s.claims refl;
          skipped = λ e. cc;
        }
    | inr early ↦ elim (Bool-cases (is_full s)) [
      | inl stop ↦ record {
        u = s;
        done = false;
        returns = rw (found, early, stop);
        confined = λ j other. (refl, refl);
        unleased = λ e. cc;
        skipped = λ e. refl;
      }
      | inr room ↦ record {
        u = retried id t s;
        done = true;
        returns = rw (found, early, room) (rw (retry-retried id t s found h room));
        confined = λ j other. retried-SameAt j id t s other;
        unleased = λ _. (retried-queued id t s).2;
        skipped = λ e. cc;
      }
    ]
  ]

  abbrev pub AllHeld : Scheduler J → List ℕ → Type 0
  AllHeld s ids = (j : ℕ) → 0 < count j ids → held (lookup j s.tasks) ≡ true

  pub record Requeued (s : Scheduler J) (ids : List ℕ)
      (r : Scheduler J × Result SchedulerError (List ℕ)) : Type 0 where
    pub u : Scheduler J
    pub done : List ℕ
    pub returns : r ≡ (u, ok done)
    pub bounded : length done ≤ length ids
    pub unleased : (j : ℕ) → 0 < count j done → lookup j u.claims ≡ none
    pub confined : (j : ℕ) → count j ids ≡ 0 → SameAt j s u
    pub chosen : (j : ℕ) → count j done ≤ count j ids

  held-found :
      (o : Option (Task J)) → held o ≡ true → (t : Task J) × (o ≡ some t) × (is_held t.state ≡ true)
  held-found none h = cc
  held-found (some t) h = (t, refl, h)

  unleased_after :
      (s : Scheduler J) (now_ms id j : ℕ) (ids : List ℕ)
      → AreDistinct (id ∷ ids)
      → (x : Reclaimed s now_ms id) (y : Requeued x.u ids (requeue_claims now_ms ids x.u))
      → 0 < count j (if x.done then id ∷ y.done else y.done)
      → lookup j y.u.claims ≡ none
  unleased_after s now_ms id j ids d x y h = elim (Bool-cases (id == j)) [
    | inl same ↦
        let last : count j ids ≡ 0 = ground (arith, d j, same) in
        let done : x.done ≡ true = ground (arith, h, y.chosen j, last) in
        (y.confined j last).1 ∙ (rw ((==_iff id j).0 same) at (x.unleased done))
    | inr other ↦ y.unleased j (ground (arith, h, other))
  ]

  confined_after :
      (s : Scheduler J) (now_ms id j : ℕ) (ids : List ℕ)
      → (x : Reclaimed s now_ms id) (y : Requeued x.u ids (requeue_claims now_ms ids x.u))
      → count j (id ∷ ids) ≡ 0
      → SameAt j s y.u
  confined_after s now_ms id j ids x y e =
      let (tasks₁, claims₁) = x.confined j (λ same. absurd (ground (arith, e, same))) in
      let (tasks₂, claims₂) = y.confined j (ground (arith, e)) in
      (tasks₂ ∙ tasks₁, claims₂ ∙ claims₁)

  Requeued-cons :
      (now_ms id : ℕ) (ids : List ℕ) (s : Scheduler J)
      → AreDistinct (id ∷ ids)
      → (x : Reclaimed s now_ms id) → Requeued x.u ids (requeue_claims now_ms ids x.u)
      → Requeued s (id ∷ ids) (requeue_claims now_ms (id ∷ ids) s)
  unfolding requeue_claims
  Requeued-cons now_ms id ids s d x y = record {
    u = y.u;
    done = if x.done then id ∷ y.done else y.done;
    returns = rw x.returns (rw y.returns);
    bounded = ground (arith, y.bounded);
    unleased = λ j h. unleased_after s now_ms id j ids d x y h;
    confined = λ j e. confined_after s now_ms id j ids x y e;
    chosen = λ j. ground (arith, y.chosen j);
  }

  pub requeue_claims-Requeued :
      (now_ms : ℕ) (ids : List ℕ) (s : Scheduler J)
      → AllHeld s ids
      → AreDistinct ids
      → Requeued s ids (requeue_claims now_ms ids s)
  unfolding requeue_claims
  requeue_claims-Requeued now_ms [] s h d = record {
    u = s;
    done = [];
    returns = refl;
    bounded = omega arith;
    unleased = λ j lt. absurd (omega arith);
    confined = λ j e. (refl, refl);
    chosen = λ j. omega arith;
  }
  requeue_claims-Requeued now_ms (id ∷ ids) s h d =
      let (t, found, state) = held-found (lookup id s.tasks) (h id (ground arith)) in
      let x = reclaim-Reclaimed s now_ms id t found state in
      Requeued-cons now_ms id ids s d x (
        requeue_claims-Requeued now_ms ids x.u
          (λ j lt. rw (x.confined j (later_other id j ids d lt)).0 (h j (ground (arith, lt))))
          (λ j. ground (arith, d j)))
