-- ===== src/Durable/Executions.antt =====
-- Executions of admitted tasks: admission, claims and their release.
use tysel.Base.{
  ℕ, ◌+◌, Text, Option, none, some, ◌∷◌, ◌++◌, Bool, true, false, not, leb, ltb, if◌then◌else◌,
  ◌&&◌, ◌||◌, length, lookup, insert, ok, codes, text_eq,
}
use tysel.Durable.{
  Json, Sha256, step, ExecutionRow, ExecutionClaim, WakeupRow, WakeupClaim, RunState, ready,
  running, suspended, failed, completed, Tables, execution_lease_lost, admission_conflict,
  program_limit, program_byte_limit, event_payload_too_large, json_error, max_durable_programs,
  max_durable_program_total_bytes, max_event_payload_bytes, module_kind,
}
use tysel.Durable.Tx.{
  Tx, run_on, ◌>>=◌, ◌>>◌, return, refuse_if, ok_or, read, write, to_sql_integer, checked_add,
}
use tysel.Durable.History.{Clock, raw_event, insert_event, guard_execution, later_than}
use tysel.Durable.Wakeups.{validate_lease_owner, u64_max, claim_of, leased_to}
use tysel.Durable.Signals.{is_some, validate_key}
use tysel.Durable.Programs.{validate_program_source, select_program, add_program, program_row}

abbrev pub is_text : Text → Option Text → Bool
is_text x none = false
is_text x (some y) = text_eq y x

-- `time.checked_add(duration).filter(|u| *u > time)`
abbrev pub run_until : ℕ → ℕ → Option ℕ
run_until time duration =
    if leb (time + duration) u64_max && ltb time (time + duration)
    then some (time + duration)
    else none

abbrev pub is_over : RunState → Bool
is_over completed = true
is_over failed = true
is_over _ = false

-- The execution is over, or its lease runs.
abbrev pub is_held : ℕ → Option ExecutionRow → Bool
is_held time none = false
is_held time (some r) = is_over r.state || later_than time r.lease_until_ms

-- The task sleeps, its wakeup is leased, or it waits for a signal.
abbrev pub is_asleep : ℕ → Bool → Option WakeupRow → Bool
is_asleep time waits none = waits
is_asleep time waits (some w) = ltb time w.wake_at_ms || later_than time w.lease_until_ms

abbrev pub next_run : Option ExecutionRow → Option ℕ
next_run none = some 1
next_run (some r) = checked_add r.generation 1

abbrev pub key_of : Option ExecutionRow → Option Text
key_of none = none
key_of (some r) = r.admission_key

abbrev pub hash_of : Option ExecutionRow → Option Text
hash_of none = none
hash_of (some r) = r.request_hash

abbrev pub run_row : Text → ℕ → ℕ → Option ExecutionRow → ExecutionRow
run_row token generation until old = record {
  state = running;
  generation = generation;
  owner = some token;
  lease_until_ms = some until;
  admission_key = key_of old;
  request_hash = hash_of old;
}

abbrev pub set_execution : ℕ → ExecutionRow → Tables → Tables
set_execution task r t = record t { executions = insert task r t.executions }

abbrev pub lease_row : ℕ → Text → ℕ → Option WakeupRow → Tx (Option WakeupClaim)
lease_row task token until none t = ok (none, t)
lease_row task token until (some w) t = ok (
  some (claim_of task token until w),
  record t { wakeups = insert task (leased_to token until w) t.wakeups },
)

unfoldable pub start_run : Text → ℕ → ℕ → Tx (Option ExecutionClaim)
start_run token task until = do
  old ← read (λ t. lookup task t.executions)
  generation ← ok_or (next_run old) execution_lease_lost
  number ← to_sql_integer until (codes "lease")
  write (set_execution task (run_row token generation number old))
  due ← read (λ t. lookup task t.wakeups)
  wakeup ← lease_row task token until due
  return (
      some (record {
        task_id = task;
        owner = token;
        generation = generation;
        lease_until_ms = until;
        wakeup = wakeup;
      }))

-- `return Ok(None)` without a commit: the transaction is rolled back.
abbrev pub unless : {A : Type 0} → Bool → Tx (Option A) → Tx (Option A)
unless true m t = ok (none, t)
unless false m t = m t

abbrev pub commit_unless : {A : Type 0} → Bool → Tx (Option A) → Tx (Option A)
commit_unless late m t = run_on (m t) (λ found u. if late then ok (none, t) else ok (found, u))

-- `token` is the digest of the owner and of fresh entropy.
unfoldable pub claim_run : (token : Text → Text) → Clock → ℕ → Text → ℕ → Tx (Option ExecutionClaim)
unfolding start_run
claim_run token clock task owner duration = do
  validate_lease_owner owner
  closed ← read (λ t. is_some (lookup task t.completions) || not (is_some (lookup task t.programs)))
  unless closed (do
    until ← ok_or (run_until clock.before duration) execution_lease_lost
    held ← read (λ t.
        is_held clock.before (lookup task t.executions)
        || is_asleep clock.before (is_some (lookup task t.waits)) (lookup task t.wakeups))
    unless held (commit_unless (leb until clock.after) (start_run (token owner) task until)))

abbrev pub unlease_row : ℕ → Option WakeupRow → Tables → Tables
unlease_row task none t = t
unlease_row task (some w) t = record t {
  wakeups = insert task (record w { lease_owner = none; lease_until_ms = none }) t.wakeups;
}

abbrev pub end_row : ℕ → RunState → Option ExecutionRow → Tables → Tables
end_row task state none t = t
end_row task state (some r) t =
    set_execution task (record r { state = state; owner = none; lease_until_ms = none }) t

abbrev pub end_execution : ℕ → RunState → Tables → Tables
end_execution task state t = end_row task state (lookup task t.executions) t

unfoldable pub release_run : Clock → ExecutionClaim → Bool → Tx (Unit {0})
release_run clock c is_failure = do
  guard_execution (some c) c.task_id clock.before
  write (λ t. unlease_row c.task_id (lookup c.task_id t.wakeups) t)
  guard_execution (some c) c.task_id clock.after
  write (end_execution c.task_id (if is_failure then failed else suspended))

unfoldable pub execution_failed : ℕ → Tables → Bool
execution_failed task t = elim (lookup task t.executions) [
  | none ↦ false
  | some r ↦ elim r.state [ failed ↦ true | _ ↦ false ]
]

module _ (json : Json) (sha : Sha256) where
  open json use {Value, to_text}

  -- The canonical input, and the digest of the source and the input.
  unfoldable pub fingerprint : Text → Text → Tx (Text × Text)
  fingerprint source input = do
    validate_program_source source
    refuse_if (ltb max_event_payload_bytes (length input)) event_payload_too_large
    value ← ok_or (json.parse input) json_error
    return (sha.hex_digest (source ++ 0 ∷ to_text value), to_text value)

  abbrev pub ready_row : Text → Text → ExecutionRow
  ready_row key hash = record {
    state = ready;
    generation = 0;
    owner = none;
    lease_until_ms = none;
    admission_key = some key;
    request_hash = some hash;
  }

  unfoldable pub admit_new : ℕ → Text → Text → Text → Text → ℕ → Tx (Unit {0})
  admit_new task key source hash input time = do
    existing ← select_program sha task
    refuse_if (is_some existing) admission_conflict
    count ← read (λ t. t.program_stats.active_count)
    refuse_if (leb max_durable_programs count) program_limit
    bytes ← read (λ t. t.program_stats.active_bytes)
    refuse_if (ltb max_durable_program_total_bytes (bytes + length source)) program_byte_limit
    registered ← to_sql_integer time (codes "time")
    write (add_program task (program_row sha module_kind source registered))
    event ← raw_event json step (codes "$tysel:task-input") input time
    recorded ← to_sql_integer time (codes "time")
    insert_event task (some 0) event input recorded
    write (set_execution task (ready_row key hash))

  abbrev pub is_same_admission : Text → Text → ExecutionRow → Bool
  is_same_admission key hash r = is_text key r.admission_key && is_text hash r.request_hash

  abbrev pub admit_beside : ℕ → Text → Text → Text → Text → ℕ → Option ExecutionRow → Tx (Unit {0})
  admit_beside task key source hash input time (some r) =
      refuse_if (not (is_same_admission key hash r)) admission_conflict
  admit_beside task key source hash input time none = admit_new task key source hash input time

  unfoldable pub admit : ℕ → Text → Text → Text → ℕ → Tx (Unit {0})
  unfolding admit_new
  admit task key source input time = do
    validate_key key
    (hash, canonical) ← fingerprint source input
    old ← read (λ t. lookup task t.executions)
    admit_beside task key source hash canonical time old
