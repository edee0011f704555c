-- ===== src/Scheduler/Outcomes.antt =====
-- What the holder of a live lease achieves, on every branch.
use tysel.Base.{
  ℕ, ◌≡◌, List, Bool, true, false, none, some, ok, lookup, lookup-insert_self, lookup-remove, arith,
  inr,
}
use tysel.Task.{Task, TaskState, queued, running, completed, waiting_io, can_transition_to}
use tysel.Scheduler.{Scheduler, TaskClaim, ActiveClaim, is_claim_outcome, is_queued}
use tysel.Scheduler.Methods.{drop_claim}
use tysel.Scheduler.Leases.{finish_claim, is_live}
use tysel.Scheduler.Invariant.{IsWf, CanMove, moved, moved_task, transition_moves, is_held}
use tysel.Scheduler.Fencing.{generation_of, IsFenced}

-- A held task may take every outcome but one: it is completed only while it is running.
abbrev pub outcome_allowed : TaskState → TaskState → Bool
outcome_allowed running next = is_claim_outcome next
outcome_allowed waiting_io completed = false
outcome_allowed waiting_io next = is_claim_outcome next
outcome_allowed _ next = false

outcome_legal :
    (from next : TaskState)
    → is_held from ≡ true
    → outcome_allowed from next ≡ true
    → can_transition_to from next ≡ true
unfolding is_held is_claim_outcome can_transition_to
outcome_legal from next h o = ground arith

outcome_parks :
    (from next : TaskState)
    → outcome_allowed from next ≡ true
    → (is_claim_outcome next ≡ true) × (is_queued next ≡ false)
unfolding is_claim_outcome is_queued
outcome_parks from next o = ground arith

pub drop_claim_outcome :
    (id : ℕ) (next : TaskState) (m : List (ℕ × ActiveClaim))
    → is_claim_outcome next ≡ true
    → lookup id (drop_claim id next m) ≡ none
unfolding is_claim_outcome drop_claim
drop_claim_outcome id next m o = ground (arith, lookup-remove id id m)

pub drop_claim_queued :
    (id : ℕ) (m : List (ℕ × ActiveClaim)) → lookup id (drop_claim id queued m) ≡ none
unfolding drop_claim
drop_claim_queued id m = ground (arith, lookup-remove id id m)

module _ {J : Type 0} where
  -- The claim is on record with its generation and owner, and its lease has not run out.
  pub record IsHeldBy (s : Scheduler J) (c : TaskClaim J) (now_ms : ℕ) (t : Task J)
      (a : ActiveClaim) : Type 0 where
    pub found : lookup c.task.meta.id s.tasks ≡ some t
    pub on_record : lookup c.task.meta.id s.claims ≡ some a
    pub live : is_live c now_ms a ≡ true

  pub held_state :
      (s : Scheduler J) (c : TaskClaim J) (now_ms : ℕ) (t : Task J) (a : ActiveClaim)
      → IsWf s
      → IsHeldBy s c now_ms t a
      → (is_held t.state ≡ true) × (c.generation ≡ generation_of c.task.meta.id s)
  held_state s c now_ms t a w h =
      let fits = (w.at c.task.meta.id).claim_held in
      (
        ground (arith, h.found, h.on_record, fits),
        ground (arith, h.found, h.on_record, h.live, fits),
      )

  finish-moves :
      (s : Scheduler J) (c : TaskClaim J) (now_ms : ℕ) (next : TaskState) (t : Task J)
      (a : ActiveClaim)
      → IsHeldBy s c now_ms t a
      → is_claim_outcome next ≡ true
      → CanMove s c.task.meta.id next t
      → finish_claim c now_ms next s ≡ (moved c.task.meta.id next t s, ok (moved_task next t))
  unfolding finish_claim
  finish-moves s c now_ms next t a h o m =
      simp (o, h.on_record, h.live, transition_moves c.task.meta.id next s t m)

  -- The holder of a live lease on a well-formed scheduler can finish the task with every outcome
  -- that its state allows. The task gets that state, the lease is taken off the record, and the
  -- claim is fenced from then on.
  pub finish_claim-commits :
      (s : Scheduler J) (c : TaskClaim J) (now_ms : ℕ) (next : TaskState) (t : Task J)
      (a : ActiveClaim)
      → IsWf s
      → IsHeldBy s c now_ms t a
      → outcome_allowed t.state next ≡ true
      → (u : Scheduler J) × (finish_claim c now_ms next s ≡ (u, ok (record t { state = next })))
        × (lookup c.task.meta.id u.tasks ≡ some (record t { state = next }))
        × (lookup c.task.meta.id u.claims ≡ none)
        × IsFenced c u
  finish_claim-commits s c now_ms next t a w h o =
      let st = held_state s c now_ms t a w h in
      let p = outcome_parks t.state next o in
      let m : CanMove s c.task.meta.id next t = record {
        found = h.found;
        legal = outcome_legal t.state next st.0 o;
        room = rw p.1;
      } in
      let gone = drop_claim_outcome c.task.meta.id next s.claims p.0 in
      (
        moved c.task.meta.id next t s,
        finish-moves s c now_ms next t a h p.0 m,
        lookup-insert_self _ _ _,
        gone,
        inr (gone, omega (arith, st.1)),
      )
