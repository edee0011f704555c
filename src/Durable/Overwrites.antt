-- ===== src/Durable/Overwrites.antt =====
-- Calls that write the wakeups of other tasks: scheduling, and executions that start and end.
use tysel.Base.{
  ℕ, ◌≡◌, Text, none, Bool, true, false, ◌==◌, if◌then◌else◌, lookup, insert, lookup-insert, arith,
  ◌<◌, inl, inr, Bool-cases, Option-cases, Result-cases, ==_iff, ap,
}
use tysel.Durable.{
  Wakeup, WakeupClaim, ExecutionClaim, WakeupRow, Tables, RunState, failed, suspended,
}
use tysel.Durable.Tx.{to_sql_integer}
use tysel.Durable.History.{Clock, upsert_wakeup, ensure_open}
use tysel.Durable.Wakeups.{schedule_wakeup}
use tysel.Durable.Executions.{claim_run, release_run, end_execution, unlease_row}
use tysel.Durable.Leasing.{tables_after, carried}
use tysel.Durable.Runs.{claim_run_outcomes}
use tysel.Durable.Superseded.{release_run-ends}

-- A claim stays in a table whose row is written at another task.
insert-carried :
    (c : WakeupClaim) (task : ℕ) (r : WakeupRow) (t u : Tables)
    → u.wakeups ≡ insert task r t.wakeups
    → (task == c.task_id) ≡ false
    → carried c t ≡ true
    → carried c u ≡ true
insert-carried c task r t u e other h =
    ground (arith, ap (lookup c.task_id) e, lookup-insert c.task_id task r t.wakeups)

pub schedule_wakeup-carried :
    (c : WakeupClaim) (w : Wakeup) (t : Tables)
    → (w.task_id == c.task_id) ≡ false
    → carried c t ≡ true
    → carried c (tables_after (schedule_wakeup w t) t) ≡ true
unfolding schedule_wakeup ensure_open to_sql_integer upsert_wakeup
schedule_wakeup-carried c w t other h =
    let r : WakeupRow = record {
      sequence = w.sequence;
      wake_at_ms = w.wake_at_ms;
      lease_owner = none;
      lease_until_ms = none;
    } in
    ground (
      arith,
      lookup-insert c.task_id w.task_id r t.wakeups,
      Option-cases (lookup w.task_id t.completions),
    )

end_execution-wakeups :
    (task : ℕ) (state : RunState) (t : Tables) → (end_execution task state t).wakeups ≡ t.wakeups
end_execution-wakeups task state t = ground (arith, Option-cases (lookup task t.executions))

pub release_run-carried :
    (c : WakeupClaim) (clock : Clock) (d : ExecutionClaim) (is_failure : Bool) (t : Tables)
    → (d.task_id == c.task_id) ≡ false
    → carried c t ≡ true
    → carried c (tables_after (release_run clock d is_failure t) t) ≡ true
release_run-carried c clock d is_failure t other h =
    elim (Result-cases (release_run clock d is_failure t)) [
      | inr (_, refused) ↦ ground arith
      | inl ((a, u), done) ↦
          let state = if is_failure then failed else suspended in
          let v = unlease_row d.task_id (lookup d.task_id t.wakeups) t in
          let ends = release_run-ends clock d is_failure t u a done in
          let same = end_execution-wakeups d.task_id state v in
          elim (Option-cases (lookup d.task_id t.wakeups)) [
            | inl absent ↦ ground (arith, ap (λ z. z.wakeups) ends, same)
            | inr (w, found) ↦ ground (
              arith,
              ap (λ z. z.wakeups) ends,
              same,
              lookup-insert c.task_id d.task_id
                  (record w { lease_owner = none; lease_until_ms = none }) t.wakeups,
            )
          ]
    ]

-- A lease that runs keeps executions of its task from starting.
pub claim_run-carried :
    (c : WakeupClaim) (token : Text → Text) (clock : Clock) (task : ℕ) (owner : Text) (duration : ℕ)
    (t : Tables)
    → clock.before < c.lease_until_ms
    → carried c t ≡ true
    → carried c (tables_after (claim_run token clock task owner duration t) t) ≡ true
claim_run-carried c token clock task owner duration t before h =
    elim (Result-cases (claim_run token clock task owner duration t)) [
      | inr (_, refused) ↦ ground arith
      | inl ((found, u), done) ↦
          elim (claim_run_outcomes token clock task owner duration t u found done) [
            | inl (_, same, _) ↦ ground arith
            | inr (e, _, started) ↦ elim started.wakeup [
              | inl (absent, _, same) ↦ ground (arith, same)
              | inr (w, here, _, leased) ↦ elim (Bool-cases (task == c.task_id)) [
                | inr other ↦ ground (arith, insert-carried c task _ t u leased other h)
                | inl mine ↦
                    let at = ap (λ k. lookup k t.wakeups) ((==_iff task c.task_id).0 mine) in
                    elim started.awake [
                      | inl (absent, _) ↦ ground arith
                      | inr (v, there, _, inl free) ↦ ground (arith, at, here)
                      | inr (v, there, _, inr (until, ends, past)) ↦ ground (arith, at, here)
                    ]
              ]
            ]
          ]
    ]
