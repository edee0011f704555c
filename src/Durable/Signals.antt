-- ===== src/Durable/Signals.antt =====
-- The signal inbox: sending, polling and waiting.
use tysel.Base.{
  ℕ, ◌+◌, Text, Option, none, some, List, [], ◌∷◌, ◌++◌, Bool, true, false, not, leb, ltb, ◌==◌,
  if◌then◌else◌, ◌&&◌, ◌||◌, length, retain, lookup, insert, remove, codes, text_eq,
}
use tysel.Durable.{
  WakeupClaim, SignalWait, SignalRow, WaitRow, WakeupRow, ReceiptRow, Tables, invalid_signal_name,
  signal_wait_conflict, wakeup_claim_required, signal_inbox_limit, admission_conflict,
  invalid_idempotency_key, sqlite, max_event_key_bytes, max_pending_signals, max_history_bytes,
  max_history_events, i64_max,
}
use tysel.Durable.Tx.{
  Tx, ◌>>=◌, ◌>>◌, return, refuse_if, ok_or, read, write, to_sql_integer, checked_add,
}
use tysel.Durable.History.{ensure_open}
use tysel.Durable.Wakeups.{is_active_row, drop_row}

unfoldable pub validate_signal_name : Text → Tx (Unit {0})
validate_signal_name name =
    refuse_if (length name == 0 || ltb max_event_key_bytes (length name)) invalid_signal_name

unfoldable pub validate_key : Text → Tx (Unit {0})
validate_key key = refuse_if (length key == 0 || ltb 256 (length key)) invalid_idempotency_key

abbrev pub is_some {ℓ} : {A : Type ℓ} → Option A → Bool
is_some none = false
is_some (some _) = true

-- The receipt of a request key, if there is one, and the number of receipts of a task.
unfoldable pub receipt_of : ℕ → Text → List ReceiptRow → Option ReceiptRow
receipt_of task key [] = none
receipt_of task key (r ∷ rs) =
    if r.task_id == task && text_eq r.request_key key then some r else receipt_of task key rs

unfoldable pub receipt_count : ℕ → List ReceiptRow → ℕ
receipt_count task rs = length (retain (λ r. r.task_id == task) rs)

abbrev pub same_request : Text → Text → ReceiptRow → Bool
same_request name hash r = text_eq r.signal_name name && text_eq r.payload hash

abbrev pub repeated : Text → Text → Option ReceiptRow → Tx (Option ℕ)
repeated name hash none = return none
repeated name hash (some r) = do
  refuse_if (not (same_request name hash r)) admission_conflict
  return (some r.signal_id)

abbrev pub admissible : ℕ → Option ℕ → Tx (Unit {0})
admissible task (some _) = return tt
admissible task none = do
  count ← read (λ t. receipt_count task t.receipts)
  refuse_if (leb max_history_events count) signal_inbox_limit
  known ← read (λ t. is_some (lookup task t.programs))
  refuse_if (not known) admission_conflict

-- The block `if let Some(key) = key`: the identifier of an earlier signal of the same request.
unfoldable pub prior_signal : ℕ → Text → Text → Option Text → Tx (Option ℕ)
unfolding validate_key
prior_signal task name hash none = return none
prior_signal task name hash (some key) = do
  validate_key key
  found ← read (λ t. receipt_of task key t.receipts)
  prior ← repeated name hash found
  admissible task prior
  return prior

abbrev pub signal_size : SignalRow → ℕ
signal_size s = length s.signal_name + length s.payload

unfoldable pub pending_count : ℕ → List SignalRow → ℕ
pending_count task ss = length (retain (λ s. s.task_id == task) ss)

unfoldable pub pending_bytes : ℕ → List SignalRow → ℕ
pending_bytes task [] = 0
pending_bytes task (s ∷ ss) =
    let rest = pending_bytes task ss in if s.task_id == task then signal_size s + rest else rest

abbrev pub exceeds : ℕ → Option ℕ → Bool
exceeds limit none = true
exceeds limit (some n) = ltb limit n

-- Whether a signal of this size does not fit into the inbox of the task.
abbrev pub inbox_is_full : ℕ → ℕ → Tables → Bool
inbox_is_full task bytes t =
    leb max_pending_signals (pending_count task t.inbox)
    || exceeds max_history_bytes (checked_add (pending_bytes task t.inbox) bytes)

abbrev pub add_signal : SignalRow → Tables → Tables
add_signal s t = record t { inbox = t.inbox ++ s ∷ []; last_signal_id = s.id }

-- The wait of the task on this name, if there is one.
abbrev pub waits_for : Text → Option WaitRow → Option ℕ
waits_for name none = none
waits_for name (some w) = if text_eq w.signal_name name then some w.sequence else none

abbrev pub kept_or : WakeupRow → Option WakeupRow → WakeupRow
kept_or fresh none = fresh
kept_or fresh (some r) = r

-- `INSERT … ON CONFLICT(task_id) DO NOTHING`
abbrev pub add_wakeup : ℕ → ℕ → ℕ → Option WakeupRow → Tables → Tables
add_wakeup task sequence at (some _) t = t
add_wakeup task sequence at none t = record t {
  wakeups =
      insert task
        (record { sequence = sequence; wake_at_ms = at; lease_owner = none; lease_until_ms = none })
        t.wakeups;
}

abbrev pub wake_waiting : ℕ → ℕ → Option ℕ → Tables → Tables
wake_waiting task at none t = t
wake_waiting task at (some sequence) t = add_wakeup task sequence at (lookup task t.wakeups) t

abbrev pub add_receipt : ℕ → Text → Text → ℕ → Option Text → Tables → Tables
add_receipt task name hash id none t = t
add_receipt task name hash id (some key) t = record t {
  receipts =
      t.receipts
      ++ record {
        task_id = task;
        request_key = key;
        signal_name = name;
        payload = hash;
        signal_id = id;
      }
        ∷ [];
}

-- `hash` is the hexadecimal digest of the payload.
unfoldable pub deliver : ℕ → Text → Text → Text → ℕ → Option Text → Tx ℕ
deliver task name payload hash sent key = do
  ensure_open task
  bytes ← ok_or (checked_add (length name) (length payload)) signal_inbox_limit
  full ← read (inbox_is_full task bytes)
  refuse_if full signal_inbox_limit
  last ← read (λ t. t.last_signal_id)
  refuse_if (leb i64_max last) sqlite
  write (
      add_signal (record {
        id = last + 1;
        task_id = task;
        signal_name = name;
        payload = payload;
        sent_at_ms = sent;
      }))
  wait ← read (λ t. waits_for name (lookup task t.waits))
  write (wake_waiting task sent wait)
  write (add_receipt task name hash (last + 1) key)
  return (last + 1)

abbrev pub unless_repeated : Option ℕ → Tx ℕ → Tx ℕ
unless_repeated (some id) m = return id
unless_repeated none m = m

-- `first` is the row chosen by `ORDER BY id LIMIT 1` among those of the task and the name.
abbrev pub is_for : ℕ → Text → SignalRow → Bool
is_for task name s = s.task_id == task && text_eq s.signal_name name

abbrev pub older : SignalRow → Option SignalRow → SignalRow
older s none = s
older s (some r) = if ltb r.id s.id then r else s

unfoldable pub first_signal : ℕ → Text → List SignalRow → Option SignalRow
first_signal task name [] = none
first_signal task name (s ∷ ss) =
    let rest = first_signal task name ss in if is_for task name s then some (older s rest) else rest

abbrev pub is_other_wait : ℕ → Text → Option WaitRow → Bool
is_other_wait sequence name none = false
is_other_wait sequence name (some w) =
    not (w.sequence == sequence) || not (text_eq w.signal_name name)

abbrev pub register_found : ℕ → ℕ → Text → Option WaitRow → Tx (Unit {0})
register_found task sequence name (some w) =
    refuse_if (is_other_wait sequence name (some w)) signal_wait_conflict
register_found task sequence name none = do
  number ← to_sql_integer sequence (codes "sequence")
  write (λ t. record t {
    waits = insert task (record { sequence = number; signal_name = name }) t.waits;
  })

unfoldable pub register_signal_wait : ℕ → ℕ → Text → Tx (Unit {0})
register_signal_wait task sequence name = do
  wait ← read (λ t. lookup task t.waits)
  register_found task sequence name wait

-- The wakeup under which a waiting task was resumed is consumed; a task that did not wait has none.
abbrev pub consume_wakeup : ℕ → ℕ → ℕ → Bool → Option WakeupClaim → Tx (Unit {0})
consume_wakeup task expected now_ms waited (some c) = do
  refuse_if (not waited || not (c.task_id == task) || not (c.sequence == expected))
      wakeup_claim_required
  to_sql_integer c.sequence (codes "sequence")
  to_sql_integer c.wake_at_ms (codes "wake_at_ms")
  to_sql_integer c.lease_until_ms (codes "lease_until_ms")
  active ← read (λ t. is_active_row c now_ms (lookup task t.wakeups))
  refuse_if (not active) wakeup_claim_required
  write (drop_row task)
consume_wakeup task expected now_ms waited none = do
  refuse_if waited wakeup_claim_required
  present ← read (λ t. is_some (lookup task t.wakeups))
  refuse_if present wakeup_claim_required

abbrev pub drop_signal : ℕ → Tables → Tables
drop_signal id t = record t { inbox = retain (λ s. not (s.id == id)) t.inbox }

abbrev pub drop_wait_row : ℕ → ℕ → Text → Option WaitRow → Tables → Tables
drop_wait_row task sequence name none t = t
drop_wait_row task sequence name (some w) t =
    if w.sequence == sequence && text_eq w.signal_name name
    then record t { waits = remove task t.waits }
    else t

abbrev pub drop_wait : ℕ → ℕ → Text → Tables → Tables
drop_wait task sequence name t = drop_wait_row task sequence name (lookup task t.waits) t

unfoldable pub signal_wait : ℕ → Tables → Option SignalWait
signal_wait task t = elim (lookup task t.waits) [
  | none ↦ none
  | some w ↦ some (record { task_id = task; sequence = w.sequence; signal_name = w.signal_name })
]
