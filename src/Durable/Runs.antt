-- ===== src/Durable/Runs.antt =====
-- What a claim of an execution does.
use tysel.Base.{
  ℕ, ◌+◌, ◌<◌, ◌≤◌, ◌≡◌, refl, Text, Option, none, some, true, false, leb, lookup, insert, ok,
  arith, ◌⊎◌, inl, inr, Bool-cases, Option-cases, Result-cases,
}
use tysel.Durable.{
  ExecutionClaim, ExecutionRow, CompletionRow, ProgramRow, WaitRow, WakeupRow, WakeupClaim,
  RunState, ready, running, suspended, completed, failed, Tables,
}
use tysel.Durable.Tx.{to_sql_integer}
use tysel.Durable.History.{Clock, later_than}
use tysel.Durable.Wakeups.{validate_lease_owner}
use tysel.Durable.Signals.{is_some}
use tysel.Durable.Executions.{
  claim_run, start_run, run_row, next_run, is_held, is_over, is_asleep, lease_row, set_execution,
}

abbrev pub LeaseRuns : ℕ → Option ℕ → Type 0
LeaseRuns time lease = (until : ℕ) × (lease ≡ some until) × (time < until)

abbrev pub LeaseEnded : ℕ → Option ℕ → Type 0
LeaseEnded time lease = (lease ≡ none) ⊎ ((until : ℕ) × (lease ≡ some until) × (until ≤ time))

later_than-runs : (time : ℕ) (o : Option ℕ) → later_than time o ≡ true → LeaseRuns time o
later_than-runs time none h = ground arith
later_than-runs time (some until) h = (until, refl, ground arith)

later_than-ended : (time : ℕ) (o : Option ℕ) → later_than time o ≡ false → LeaseEnded time o
later_than-ended time none h = inl refl
later_than-ended time (some until) h = inr (until, refl, ground arith)

abbrev pub IsOpenState : RunState → Type 0
IsOpenState state = (state ≡ ready) ⊎ (state ≡ running) ⊎ (state ≡ suspended)

is_over-open : (state : RunState) → is_over state ≡ false → IsOpenState state
is_over-open ready h = inl refl
is_over-open running h = inr (inl refl)
is_over-open suspended h = inr (inr refl)
is_over-open completed h = ground arith
is_over-open failed h = ground arith

is_over-ended : (state : RunState) → is_over state ≡ true → (state ≡ completed) ⊎ (state ≡ failed)
is_over-ended completed h = inl refl
is_over-ended failed h = inr refl
is_over-ended ready h = ground arith
is_over-ended running h = ground arith
is_over-ended suspended h = ground arith

-- The execution never ran, or it is open and no lease on it runs.
abbrev pub IsIdle : ℕ → Option ExecutionRow → Type 0
IsIdle time o =
    (o ≡ none)
    ⊎ ((r : ExecutionRow) × (o ≡ some r) × IsOpenState r.state × LeaseEnded time r.lease_until_ms)

abbrev pub IsBusy : ℕ → Option ExecutionRow → Type 0
IsBusy time o =
    (r : ExecutionRow) × (o ≡ some r)
    × ((r.state ≡ completed) ⊎ (r.state ≡ failed) ⊎ LeaseRuns time r.lease_until_ms)

-- The task has a wakeup that is due and free, or neither a wakeup nor a wait for a signal.
abbrev pub IsAwake : ℕ → Option WaitRow → Option WakeupRow → Type 0
IsAwake time wait wakeup =
    ((wakeup ≡ none) × (wait ≡ none))
    ⊎ ((w : WakeupRow) × (wakeup ≡ some w)
        × (w.wake_at_ms ≤ time)
        × LeaseEnded time w.lease_until_ms)

abbrev pub IsResting : ℕ → Option WaitRow → Option WakeupRow → Type 0
IsResting time wait wakeup =
    ((wakeup ≡ none) × (r : WaitRow) × (wait ≡ some r))
    ⊎ ((w : WakeupRow) × (wakeup ≡ some w)
        × ((time < w.wake_at_ms) ⊎ LeaseRuns time w.lease_until_ms))

is_held-IsIdle : (time : ℕ) (o : Option ExecutionRow) → is_held time o ≡ false → IsIdle time o
is_held-IsIdle time none h = inl refl
is_held-IsIdle time (some r) h = inr (
  r,
  refl,
  is_over-open r.state (ground arith),
  later_than-ended time r.lease_until_ms (ground arith),
)

is_held-IsBusy : (time : ℕ) (o : Option ExecutionRow) → is_held time o ≡ true → IsBusy time o
is_held-IsBusy time none h = ground arith
is_held-IsBusy time (some r) h = elim (Bool-cases (later_than time r.lease_until_ms)) [
  | inl runs ↦ (r, refl, inr (inr (later_than-runs time r.lease_until_ms runs)))
  | inr ended ↦ elim (is_over-ended r.state (ground arith)) [
    | inl e ↦ (r, refl, inl e)
    | inr e ↦ (r, refl, inr (inl e))
  ]
]

is_asleep-IsAwake :
    (time : ℕ) (wait : Option WaitRow) (o : Option WakeupRow)
    → is_asleep time (is_some wait) o ≡ false
    → IsAwake time wait o
is_asleep-IsAwake time none none h = inl (refl, refl)
is_asleep-IsAwake time (some r) none h = ground arith
is_asleep-IsAwake time wait (some w) h =
    inr (w, refl, ground arith, later_than-ended time w.lease_until_ms (ground arith))

is_asleep-IsResting :
    (time : ℕ) (wait : Option WaitRow) (o : Option WakeupRow)
    → is_asleep time (is_some wait) o ≡ true
    → IsResting time wait o
is_asleep-IsResting time none none h = ground arith
is_asleep-IsResting time (some r) none h = inl (refl, r, refl)
is_asleep-IsResting time wait (some w) h = elim (Bool-cases (later_than time w.lease_until_ms)) [
  | inl runs ↦ inr (w, refl, inr (later_than-runs time w.lease_until_ms runs))
  | inr ended ↦ inr (w, refl, inl (ground arith))
]

-- Why no claim is granted.
abbrev pub IsRefused : Clock → ℕ → ℕ → Tables → Type 0
IsRefused clock task duration t =
    ((r : CompletionRow) × (lookup task t.completions ≡ some r))
    ⊎ (lookup task t.programs ≡ none)
    ⊎ IsBusy clock.before (lookup task t.executions)
    ⊎ IsResting clock.before (lookup task t.waits) (lookup task t.wakeups)
    ⊎ (clock.before + duration ≤ clock.after)

-- What a granted claim does to the wakeup of the task: it is leased with the execution.
abbrev pub IsLeasedWith :
    Text → ℕ → ℕ → Option WakeupClaim → Option WakeupRow → Tables → Tables → Type 0
IsLeasedWith token task until claim wakeup t u =
    ((wakeup ≡ none) × (claim ≡ none) × (u.wakeups ≡ t.wakeups))
    ⊎ ((w : WakeupRow) × (wakeup ≡ some w)
        × (claim
            ≡ some (record {
              task_id = task;
              sequence = w.sequence;
              wake_at_ms = w.wake_at_ms;
              lease_owner = token;
              lease_until_ms = until;
            }))
        × (u.wakeups
            ≡ insert task (record w { lease_owner = some token; lease_until_ms = some until })
                t.wakeups))

lease_row-leases :
    (task : ℕ) (token : Text) (until : ℕ) (due : Option WakeupRow) (t u : Tables)
    (claim : Option WakeupClaim)
    → lease_row task token until due t ≡ ok (claim, u)
    → IsLeasedWith token task until claim due t u
lease_row-leases task token until none t u claim h = inl (refl, ground arith, ground arith)
lease_row-leases task token until (some w) t u claim h = inr (w, refl, ground arith, ground arith)

lease_row-keeps :
    (task : ℕ) (token : Text) (until : ℕ) (due : Option WakeupRow) (t u : Tables)
    (w : Option WakeupClaim)
    → lease_row task token until due t ≡ ok (w, u)
    → (u.executions ≡ t.executions) × (u.programs ≡ t.programs) × (u.completions ≡ t.completions)
lease_row-keeps task token until none t u w h = (ground arith, ground arith, ground arith)
lease_row-keeps task token until (some r) t u w h = (ground arith, ground arith, ground arith)

-- A claim was granted.
pub record IsStarted (token : Text) (clock : Clock) (task : ℕ) (duration : ℕ) (t : Tables)
    (c : ExecutionClaim) (u : Tables) : Type 0 where
  pub not_completed : lookup task t.completions ≡ none
  pub program : ProgramRow
  pub registered : lookup task t.programs ≡ some program
  pub idle : IsIdle clock.before (lookup task t.executions)
  pub awake : IsAwake clock.before (lookup task t.waits) (lookup task t.wakeups)
  pub of_task : c.task_id ≡ task
  pub of_owner : c.owner ≡ token
  pub next : next_run (lookup task t.executions) ≡ some c.generation
  pub until : c.lease_until_ms ≡ clock.before + duration
  pub in_time : clock.after < c.lease_until_ms
  pub executions :
      u.executions
      ≡ insert task
          (run_row token c.generation c.lease_until_ms (lookup task t.executions))
          t.executions
  pub wakeup : IsLeasedWith token task c.lease_until_ms c.wakeup (lookup task t.wakeups) t u

start_run-row :
    (token : Text) (task until : ℕ) (t u : Tables) (found : Option ExecutionClaim)
    → start_run token task until t ≡ ok (found, u)
    → (c : ExecutionClaim) × (found ≡ some c)
      × (c.task_id ≡ task)
      × (c.owner ≡ token)
      × (c.lease_until_ms ≡ until)
      × (next_run (lookup task t.executions) ≡ some c.generation)
      × (u.executions
          ≡ insert task (run_row token c.generation until (lookup task t.executions)) t.executions)
      × IsLeasedWith token task c.lease_until_ms c.wakeup (lookup task t.wakeups) t u
unfolding start_run to_sql_integer
start_run-row token task until t u found h =
    elim (Option-cases (next_run (lookup task t.executions))) [
      | inl exhausted ↦ ground arith
      | inr (generation, next) ↦
          let s =
            set_execution task (run_row token generation until (lookup task t.executions)) t in
          elim (Result-cases (lease_row task token until (lookup task t.wakeups) s)) [
            | inr (_, refused) ↦ ground arith
            | inl ((w, v), leased) ↦
                let (kept, _, _) =
                  lease_row-keeps task token until (lookup task t.wakeups) s v w leased in
                (
                  record {
                    task_id = task;
                    owner = token;
                    generation = generation;
                    lease_until_ms = until;
                    wakeup = w;
                  },
                  ground arith,
                  refl,
                  refl,
                  refl,
                  next,
                  ground (arith, kept),
                  ground (
                    arith,
                    lease_row-leases task token until (lookup task t.wakeups) s v w leased,
                  ),
                )
          ]
    ]

-- A call of `claim_run` that does not fail either grants nothing and changes nothing, or grants the
-- claim. It grants nothing only if the task is completed or not registered, if its execution is
-- completed or failed or a lease on it ends later than now, if its wakeup lies in the future or is
-- leased beyond now, if it has no wakeup and waits for a signal, or if the lease asked for has
-- ended by the end of the call. It grants the claim only if none of this holds; the claim then has
-- the next generation and ends after the duration asked for, the execution runs under it, and
-- a wakeup of the task is leased to the same token until the same end.
pub claim_run_outcomes :
    (token : Text → Text) (clock : Clock) (task : ℕ) (owner : Text) (duration : ℕ) (t u : Tables)
    (found : Option ExecutionClaim)
    → claim_run token clock task owner duration t ≡ ok (found, u)
    → ((found ≡ none) × (u ≡ t) × IsRefused clock task duration t)
      ⊎ ((c : ExecutionClaim) × (found ≡ some c)
          × IsStarted (token owner) clock task duration t c u)
unfolding claim_run validate_lease_owner
claim_run_outcomes token clock task owner duration t u found h =
    let held = is_held clock.before (lookup task t.executions) in
    let asleep = is_asleep clock.before (is_some (lookup task t.waits)) (lookup task t.wakeups) in
    elim (Option-cases (lookup task t.completions)) [
      | inr over ↦ inl (ground arith, ground arith, inl over)
      | inl active ↦ elim (Option-cases (lookup task t.programs)) [
        | inl unknown ↦ inl (ground arith, ground arith, inr (inl unknown))
        | inr (p, known) ↦ elim (Bool-cases held) [
          | inl busy ↦ inl (
            ground arith,
            ground arith,
            inr (inr (inl (is_held-IsBusy clock.before (lookup task t.executions) busy))),
          )
          | inr idle ↦ elim (Bool-cases asleep) [
            | inl resting ↦ inl (
              ground arith,
              ground arith,
              inr (
                  inr (
                    inr (
                      inl (
                        is_asleep-IsResting clock.before (lookup task t.waits)
                          (lookup task t.wakeups) resting)))),
            )
            | inr awake ↦
                elim (Result-cases (start_run (token owner) task (clock.before + duration) t)) [
                  | inr (_, refused) ↦ ground arith
                  | inl ((made, v), started) ↦
                      let (c, given, of_task, of_owner, ends, next, executions, wakeup) =
                        start_run-row (token owner) task (clock.before + duration) t v made
                          started in
                      elim (Bool-cases (leb (clock.before + duration) clock.after)) [
                        | inl late ↦
                            inl (ground arith, ground arith, inr (inr (inr (inr (ground arith)))))
                        | inr in_time ↦
                            let same : u ≡ v = ground (arith, given) in
                            inr (
                              c,
                              ground (arith, given),
                              record {
                                not_completed = active;
                                program = p;
                                registered = known;
                                idle = is_held-IsIdle clock.before (lookup task t.executions) idle;
                                awake =
                                    is_asleep-IsAwake clock.before (lookup task t.waits)
                                      (lookup task t.wakeups) awake;
                                of_task = of_task;
                                of_owner = of_owner;
                                next = next;
                                until = ends;
                                in_time = ground (arith, ends);
                                executions = ground (arith, same, executions, ends);
                                wakeup = rw same wakeup;
                              },
                            )
                      ]
                ]
          ]
        ]
      ]
    ]
