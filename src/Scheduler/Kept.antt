-- ===== src/Scheduler/Kept.antt =====
-- What the atomic writes keep of a task that is registered: its identity, its lifecycle, its end.
use tysel.Base.{
  ℕ, ◌+◌, ◌≡◌, refl, List, true, false, Option, none, some, lookup, insert, ◌==◌, lookup-insert,
  arith, Bool-cases, inl, inr, ◌∙◌, ap, min, ==_iff,
}
use tysel.Task.{Task, TaskState, queued, running, can_transition_to, is_terminal, u32_max}
use tysel.Task.Lifecycle.{Steps, is_start, starts, starts_trans, Steps-trans, terminal_stuck}
use tysel.Scheduler.{Scheduler}
use tysel.Scheduler.Invariant.{moved_task, jumps_queue}
use tysel.Scheduler.Writes.{
  Write, Writes, move, admit, start, grant, extend, here, more, started_task,
}

queued_starts : (s : TaskState) → s ≡ queued → can_transition_to s running ≡ true
unfolding can_transition_to
queued_starts s q = rw q

calm_is_start : (s t : TaskState) → jumps_queue s t ≡ false → is_start s t ≡ false
calm_is_start s t h = ground arith

module _ {J : Type 0} where
  -- What becomes of one task: the same identity and deadline, and a chain of legal transitions whose
  -- starts are counted as attempts.
  pub record Follows (t t' : Task J) : Type 0 where
    pub same_meta : t'.meta ≡ t.meta
    pub same_deadline : t'.deadline_ms ≡ t.deadline_ms
    pub steps : Steps t.state t'.state
    pub attempts : min t'.attempt u32_max ≡ min (t.attempt + starts steps) u32_max
    pub final : is_terminal t.state ≡ true → t' ≡ t

  Follows-refl : (t : Task J) → Follows t t
  Follows-refl t = record {
    same_meta = refl;
    same_deadline = refl;
    steps = Steps.here;
    attempts = omega arith;
    final = λ h. refl;
  }

  Follows-trans : {t u v : Task J} → Follows t u → Follows u v → Follows t v
  Follows-trans {t} a b = record {
    same_meta = b.same_meta ∙ a.same_meta;
    same_deadline = b.same_deadline ∙ a.same_deadline;
    steps = Steps-trans a.steps b.steps;
    attempts = omega (arith, a.attempts, b.attempts, starts_trans a.steps b.steps);
    final = λ h. b.final (cc (h, ap (λ x. is_terminal x.state) (a.final h))) ∙ a.final h;
  }

  -- The task at an identifier, after some writes.
  abbrev pub Kept : Option (Task J) → Option (Task J) → Type 0
  Kept none o = Unit {0}
  Kept (some t) o = (t' : Task J) × (o ≡ some t') × Follows t t'

  Kept-refl : (o : Option (Task J)) → Kept o o
  Kept-refl none = tt
  Kept-refl (some t) = (t, refl, Follows-refl t)

  Kept-insert :
      (j id : ℕ) (t u : Task J) (m : List (ℕ × Task J))
      → lookup id m ≡ some t
      → Follows t u
      → Kept (lookup j m) (lookup j (insert id u m))
  Kept-insert j id t u m found f = elim (Bool-cases (id == j)) [
    | inl same ↦
        let e : lookup j m ≡ some t = rw ((==_iff id j).0 same) at found in
        rw (e, lookup-insert j id u m, same) (u, refl, f)
    | inr other ↦ rw (lookup-insert j id u m, other) (Kept-refl (lookup j m))
  ]

  Kept-fresh :
      (j id : ℕ) (u : Task J) (m : List (ℕ × Task J))
      → lookup id m ≡ none
      → Kept (lookup j m) (lookup j (insert id u m))
  Kept-fresh j id u m fresh = elim (Bool-cases (id == j)) [
    | inl same ↦ let e : lookup j m ≡ none = rw ((==_iff id j).0 same) at fresh in rw e tt
    | inr other ↦ rw (lookup-insert j id u m, other) (Kept-refl (lookup j m))
  ]

  Write-Kept : {s u : Scheduler J} (j : ℕ) → Write s u → Kept (lookup j s.tasks) (lookup j u.tasks)
  Write-Kept {s} j (move id next t c calm) =
      Kept-insert j id t (moved_task next t) s.tasks c.found (record {
        same_meta = refl;
        same_deadline = refl;
        steps = Steps.more c.legal Steps.here;
        attempts = rw (calm_is_start t.state next calm) (omega arith);
        final = λ h. cc (terminal_stuck t.state next h, c.legal);
      })
  Write-Kept {s} j (admit t fresh room legal) =
      Kept-fresh j t.meta.id (moved_task queued t) s.tasks fresh
  Write-Kept {s} j (start id rest t front found q) =
      Kept-insert j id t (started_task t) s.tasks found (record {
        same_meta = refl;
        same_deadline = refl;
        steps = Steps.more (queued_starts t.state q) Steps.here;
        attempts = rw q (omega arith);
        final = λ h. cc (terminal_stuck t.state running h, queued_starts t.state q);
      })
  Write-Kept {s} j (grant id a h g b) = Kept-refl (lookup j s.tasks)
  Write-Kept {s} j (extend id until a found) = Kept-refl (lookup j s.tasks)

  Kept-trans : (a b c : Option (Task J)) → Kept a b → Kept b c → Kept a c
  Kept-trans none b c x y = tt
  Kept-trans (some t) b c (t', e, f) y = go (rw e at y)
    where
      go : Kept (some t') c → Kept (some t) c
      go (t'', e', g) = (t'', e', Follows-trans f g)

  pub Writes-Kept :
      {s u : Scheduler J} (j : ℕ) → Writes s u → Kept (lookup j s.tasks) (lookup j u.tasks)
  Writes-Kept {s} j here = Kept-refl (lookup j s.tasks)
  Writes-Kept {s} {u} j (more {t = v} x xs) =
      Kept-trans (lookup j s.tasks) (lookup j v.tasks) (lookup j u.tasks) (Write-Kept j x)
        (Writes-Kept j xs)
