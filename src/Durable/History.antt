-- ===== src/Durable/History.antt =====
-- The event log: appending and loading.
use tysel.Base.{
  ℕ, ◌+◌, Text, Option, none, some, List, [], ◌∷◌, ◌++◌, Bool, true, false, not, leb, ltb, ◌==◌,
  if◌then◌else◌, length, lookup, insert, ok, err, codes, text_eq, ◌&&◌,
}
use tysel.Durable.{
  Json, EventKind, sleep, NewEvent, TaskEvent, ExecutionClaim, EventRow, HistoryStats, ExecutionRow,
  RunState, Tables, as_str, event_key_too_large, event_payload_too_large, history_event_limit,
  history_byte_limit, history_conflict, task_completed, execution_lease_lost, json_error,
  max_event_key_bytes, max_event_payload_bytes, max_history_events, max_history_bytes, running,
}
use tysel.Durable.Tx.{
  Tx, ◌>>=◌, ◌>>◌, return, refuse_if, ok_or, read, write, to_sql_integer, checked_add,
}

-- `lifecycle::ensure_open`
unfoldable pub ensure_open : ℕ → Tx (Unit {0})
ensure_open task t = elim (lookup task t.completions) [
  | none ↦ ok (tt, t)
  | some _ ↦ err (task_completed task)
]

abbrev pub is_running : RunState → Bool
is_running running = true
is_running _ = false

abbrev pub owned_by : Text → Option Text → Bool
owned_by owner none = false
owned_by owner (some o) = text_eq o owner

-- A comparison with a column that is `NULL` does not hold.
abbrev pub later_than : ℕ → Option ℕ → Bool
later_than now_ms none = false
later_than now_ms (some until) = ltb now_ms until

abbrev pub runs_under : ExecutionClaim → ℕ → Option ExecutionRow → Bool
runs_under c now_ms none = false
runs_under c now_ms (some r) =
    is_running r.state
    && owned_by c.owner r.owner
    && r.generation == c.generation
    && later_than now_ms r.lease_until_ms

-- `now_ms` is the clock as this call reads it.
unfoldable pub guard_execution : Option ExecutionClaim → ℕ → ℕ → Tx (Unit {0})
guard_execution none task now_ms t = ok (tt, t)
guard_execution (some c) task now_ms t =
    (do
      generation ← to_sql_integer c.generation (codes "generation")
      time ← to_sql_integer now_ms (codes "time")
      refuse_if (not (task == c.task_id && runs_under c now_ms (lookup task t.executions)))
          execution_lease_lost)
      t

-- `COALESCE(MAX(sequence) + 1, 0)` over the events of the task.
unfoldable pub next_sequence : ℕ → List EventRow → ℕ
next_sequence task [] = 0
next_sequence task (r ∷ rs) =
    let rest = next_sequence task rs in
    if r.task_id == task then if leb rest r.sequence then r.sequence + 1 else rest else rest

abbrev pub stats_or_zero : Option HistoryStats → HistoryStats
stats_or_zero none = record { event_count = 0; payload_bytes = 0 }
stats_or_zero (some s) = s

abbrev pub conflicts : Option ℕ → ℕ → Bool
conflicts none actual = false
conflicts (some expected) actual = not (actual == expected)

abbrev pub expected_or : Option ℕ → ℕ → ℕ
expected_or none actual = actual
expected_or (some expected) actual = expected

abbrev pub grown_stats : EventRow → ℕ → Tables → HistoryStats
grown_stats row event_bytes t =
    let old = stats_or_zero (lookup row.task_id t.stats) in
    record { event_count = old.event_count + 1; payload_bytes = old.payload_bytes + event_bytes }

abbrev pub add_event : EventRow → ℕ → Tables → Tables
add_event row event_bytes t = record t {
  events = t.events ++ row ∷ [];
  stats = insert row.task_id (grown_stats row event_bytes t) t.stats;
}

module _ {V : Type 0} where
  unfoldable pub insert_event : ℕ → Option ℕ → NewEvent V → Text → ℕ → Tx ℕ
  insert_event task expected event payload recorded_at_ms = do
    ensure_open task
    event_bytes ← ok_or (checked_add (length event.key) (length payload)) history_byte_limit
    old ← read (λ t. stats_or_zero (lookup task t.stats))
    refuse_if (leb max_history_events old.event_count) history_event_limit
    next_bytes ← ok_or (checked_add old.payload_bytes event_bytes) history_byte_limit
    refuse_if (ltb max_history_bytes next_bytes) history_byte_limit
    sequence ← read (λ t. next_sequence task t.events)
    refuse_if (conflicts expected sequence)
        (history_conflict (expected_or expected sequence) sequence)
    write (
        add_event
          (record {
            task_id = task;
            sequence = sequence;
            kind = as_str event.kind;
            event_key = event.key;
            payload = payload;
            recorded_at_ms = recorded_at_ms;
          })
          event_bytes)
    return sequence

  -- `stored_event`
  abbrev pub stored_event : ℕ → ℕ → NewEvent V → Text → TaskEvent V
  stored_event task sequence event payload = record {
    task_id = task;
    sequence = sequence;
    kind = event.kind;
    key = event.key;
    payload = event.payload;
    recorded_at_ms = event.recorded_at_ms;
    payload_json = payload;
  }

-- `upsert_wakeup`
unfoldable pub upsert_wakeup : ℕ → ℕ → ℕ → Tables → Tables
upsert_wakeup task sequence wake_at_ms t = record t {
  wakeups =
      insert task
        (record {
          sequence = sequence;
          wake_at_ms = wake_at_ms;
          lease_owner = none;
          lease_until_ms = none;
        })
        t.wakeups;
}

-- The wakeup of a sleep, set in the same transaction.
abbrev pub set_wakeup : ℕ → ℕ → Option ℕ → Tables → Tables
set_wakeup task sequence none t = t
set_wakeup task sequence (some at) t = upsert_wakeup task sequence at t

-- The clock as the two guards of a method read it.
pub record Clock : Type 0 where
  pub before : ℕ
  pub after : ℕ

module _ (json : Json) where
  open json use {Value, to_text}

  unfoldable pub raw_event : EventKind → Text → Text → ℕ → Tx (NewEvent Value)
  raw_event kind key payload_json recorded_at_ms = do
    refuse_if (ltb max_event_key_bytes (length key)) event_key_too_large
    refuse_if (ltb max_event_payload_bytes (length payload_json)) event_payload_too_large
    payload ← ok_or (json.parse payload_json) json_error
    return (record { kind = kind; key = key; payload = payload; recorded_at_ms = recorded_at_ms })

  unfoldable pub validate_event : NewEvent Value → Tx (Text × ℕ)
  validate_event event = do
    refuse_if (ltb max_event_key_bytes (length event.key)) event_key_too_large
    refuse_if (ltb max_event_payload_bytes (length (to_text event.payload))) event_payload_too_large
    recorded ← to_sql_integer event.recorded_at_ms (codes "recorded_at_ms")
    return (to_text event.payload, recorded)

  -- The transaction that the appending methods share.
  unfoldable pub append_guarded :
      Option ExecutionClaim
      → Clock
      → ℕ
      → Option ℕ
      → NewEvent Value
      → Text
      → ℕ
      → Option ℕ
      → Tx (TaskEvent Value)
  append_guarded execution clock task expected event payload recorded wake_at_ms = do
    guard_execution execution task clock.before
    sequence ← insert_event task expected event payload recorded
    write (set_wakeup task sequence wake_at_ms)
    guard_execution execution task clock.after
    return (stored_event task sequence event payload)

  unfoldable pub append_event_json_at :
      Option ExecutionClaim → Clock → ℕ → ℕ → EventKind → Text → Text → ℕ → Tx (TaskEvent Value)
  unfolding append_guarded
  append_event_json_at execution clock task expected kind key payload_json recorded_at_ms = do
    event ← raw_event kind key payload_json recorded_at_ms
    recorded ← to_sql_integer recorded_at_ms (codes "recorded_at_ms")
    append_guarded execution clock task (some expected) event payload_json recorded none

  unfoldable pub append_event_inner :
      Option ExecutionClaim → Clock → ℕ → Option ℕ → NewEvent Value → Tx (TaskEvent Value)
  unfolding append_guarded
  append_event_inner execution clock task expected event = do
    (payload, recorded) ← validate_event event
    append_guarded execution clock task expected event payload recorded none

  unfoldable pub append_event_json_with_wakeup_at :
      Option ExecutionClaim → Clock → ℕ → ℕ → Text → Text → ℕ → ℕ → Tx (TaskEvent Value)
  unfolding append_guarded
  append_event_json_with_wakeup_at execution clock task expected key payload_json recorded_at_ms
        wake_at_ms =
      do
        event ← raw_event sleep key payload_json recorded_at_ms
        recorded ← to_sql_integer recorded_at_ms (codes "recorded_at_ms")
        wake_at ← to_sql_integer wake_at_ms (codes "wake_at_ms")
        append_guarded execution clock task (some expected) event payload_json recorded
            (some wake_at)

  unfoldable pub append_event_with_wakeup_inner :
      Option ExecutionClaim → Clock → ℕ → Option ℕ → NewEvent Value → ℕ → Tx (TaskEvent Value)
  unfolding append_guarded
  append_event_with_wakeup_inner execution clock task expected event wake_at_ms = do
    (payload, recorded) ← validate_event event
    wake_at ← to_sql_integer wake_at_ms (codes "wake_at_ms")
    append_guarded execution clock task expected event payload recorded (some wake_at)
