-- ===== src/Durable/Conflicts.antt =====
-- Appending against an expected number: the compare-and-append of the event log.
use tysel.Base.{
  ℕ, ◌+◌, ◌≤◌, ◌<◌, ◌≡◌, Text, none, some, ◌==◌, if◌then◌else◌, length, lookup, arith, ok, err, sym,
  ◌∙◌, Bool-cases, inl, inr, ==_iff, refl,
}
use tysel.Durable.{
  Json, EventKind, Tables, history_conflict, i64_max, max_event_key_bytes, max_event_payload_bytes,
  max_history_events, max_history_bytes,
}
use tysel.Durable.Tx.{to_sql_integer}
use tysel.Durable.History.{
  guard_execution, stored_event, Clock, raw_event, append_guarded, append_event_json_at, add_event,
}
use tysel.Durable.Log.{IsLog, row_for, row_count, row_bytes, next_sequence-count}
use tysel.Durable.Appends.{insert_event-writes, insert_event-stale}
use tysel.Durable.Commits.{event_from}

-- Within the limits on one event and on the history of an open task, `append_event_json_at`
-- without an execution claim commits the event exactly if the expected number is the number of
-- events of the task; for any other expected number it fails with both numbers and changes
-- nothing.
pub append_event_json_at-compares :
    (json : Json) (clock : Clock) (task expected : ℕ) (kind : EventKind) (key payload : Text)
    (recorded_at_ms : ℕ) (value : json.Value) (t : Tables)
    → IsLog t
    → json.parse payload ≡ some value
    → lookup task t.completions ≡ none
    → length key ≤ max_event_key_bytes
    → length payload ≤ max_event_payload_bytes
    → recorded_at_ms ≤ i64_max
    → row_count task t.events < max_history_events
    → row_bytes task t.events + (length key + length payload) ≤ max_history_bytes
    → append_event_json_at json none clock task expected kind key payload recorded_at_ms t ≡ (
        if expected == row_count task t.events
        then ok (
          stored_event task expected (event_from json kind key value recorded_at_ms) payload,
          add_event
              (row_for task expected
                (event_from json kind key value recorded_at_ms)
                payload
                recorded_at_ms)
              (length key + length payload)
              t,
        )
        else err (history_conflict expected (row_count task t.events)))
unfolding append_event_json_at raw_event to_sql_integer guard_execution append_guarded
append_event_json_at-compares json clock task expected kind key payload recorded_at_ms value t w p
      active small_key small_payload recorded room fits =
    let event = event_from json kind key value recorded_at_ms in
    elim (Bool-cases (expected == row_count task t.events)) [
      | inl same ↦
          let n =
            next_sequence-count t task (w task)
            ∙ sym ((==_iff expected (row_count task t.events)).0 same) in
          let done =
            insert_event-writes task (some expected) event payload recorded_at_ms t w active room
              fits (ground (arith, n, (==_iff expected expected).1 refl)) in
          ground (arith, done, n)
      | inr other ↦
          let failed =
            insert_event-stale task expected event payload recorded_at_ms t w active room fits
              (λ e. ground (arith, (==_iff expected (row_count task t.events)).1 e, other)) in
          ground (arith, failed)
    ]
