-- ===== src/Durable/Signalling.antt =====
-- `send_signal_inner` and `poll_signal`.
use tysel.Base.{ℕ, Text, Option, none, some, Bool, not, ltb, ◌==◌, length, lookup, codes}
use tysel.Durable.{
  Json, NewEvent, TaskEvent, WakeupClaim, ExecutionClaim, SignalRow, signal,
  event_payload_too_large, history_conflict, signal_wait_conflict, json_error,
  max_event_payload_bytes,
}
use tysel.Durable.Tx.{Tx, ◌>>=◌, ◌>>◌, return, refuse_if, ok_or, read, write, to_sql_integer}
use tysel.Durable.History.{
  Clock, ensure_open, guard_execution, next_sequence, insert_event, stored_event,
}
use tysel.Durable.Signals.{
  validate_signal_name, prior_signal, deliver, unless_repeated, first_signal, is_other_wait,
  is_some, register_signal_wait, consume_wakeup, drop_signal, drop_wait,
}

-- The checks of `poll_signal` before it looks into the inbox.
unfoldable pub poll_checks : Option ExecutionClaim → ℕ → ℕ → ℕ → Text → ℕ → Tx (Unit {0})
poll_checks execution before_ms task expected name now_ms = do
  validate_signal_name name
  to_sql_integer now_ms (codes "now_ms")
  guard_execution execution task before_ms
  ensure_open task
  actual ← read (λ t. next_sequence task t.events)
  refuse_if (not (actual == expected)) (history_conflict expected actual)
  wait ← read (λ t. lookup task t.waits)
  refuse_if (is_other_wait expected name wait) signal_wait_conflict

module _ (json : Json) where
  open json use {Value, to_text}

  -- `digest` is `format!("{:x}", Sha256::digest(..))`.
  unfoldable pub send_signal_inner : (Text → Text) → ℕ → Text → Value → ℕ → Option Text → Tx ℕ
  send_signal_inner digest task name payload sent_at_ms key = do
    validate_signal_name name
    refuse_if (ltb max_event_payload_bytes (length (to_text payload))) event_payload_too_large
    sent ← to_sql_integer sent_at_ms (codes "sent_at_ms")
    prior ← prior_signal task name (digest (to_text payload)) key
    unless_repeated prior (deliver task name (to_text payload) (digest (to_text payload)) sent key)

  abbrev pub signal_event : Text → Value → ℕ → NewEvent Value
  signal_event name payload sent_at_ms = record {
    kind = signal;
    key = name;
    payload = payload;
    recorded_at_ms = sent_at_ms;
  }

  -- A queued signal is consumed and its event appended, and a wait is registered if there is none.
  unfoldable pub consume_signal :
      Option ExecutionClaim
      → ℕ
      → ℕ
      → ℕ
      → Text
      → ℕ
      → Bool
      → Option WakeupClaim
      → SignalRow
      → Tx (Option (TaskEvent Value))
  consume_signal execution after_ms task expected name now_ms waited claim s = do
    consume_wakeup task expected now_ms waited claim
    payload ← ok_or (json.parse s.payload) json_error
    sequence ←
        insert_event task (some expected) (signal_event name payload s.sent_at_ms) s.payload
          s.sent_at_ms
    write (drop_signal s.id)
    write (drop_wait task sequence name)
    guard_execution execution task after_ms
    return (some (stored_event task sequence (signal_event name payload s.sent_at_ms) s.payload))

  unfoldable pub suspend_on :
      Option ExecutionClaim → ℕ → ℕ → ℕ → Text → Tx (Option (TaskEvent Value))
  suspend_on execution after_ms task expected name = do
    register_signal_wait task expected name
    guard_execution execution task after_ms
    return none

  abbrev pub poll_found :
      Option ExecutionClaim
      → ℕ
      → ℕ
      → ℕ
      → Text
      → ℕ
      → Bool
      → Option WakeupClaim
      → Option SignalRow
      → Tx (Option (TaskEvent Value))
  poll_found execution after_ms task expected name now_ms waited claim none =
      suspend_on execution after_ms task expected name
  poll_found execution after_ms task expected name now_ms waited claim (some s) =
      consume_signal execution after_ms task expected name now_ms waited claim s

  unfoldable pub poll_signal :
      Option ExecutionClaim
      → Clock
      → ℕ
      → ℕ
      → Text
      → ℕ
      → Option WakeupClaim
      → Tx (Option (TaskEvent Value))
  unfolding poll_checks
  poll_signal execution clock task expected name now_ms claim = do
    poll_checks execution clock.before task expected name now_ms
    waited ← read (λ t. is_some (lookup task t.waits))
    queued ← read (λ t. first_signal task name t.inbox)
    poll_found execution clock.after task expected name now_ms waited claim queued
