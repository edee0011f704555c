-- ===== src/Durable/Load.antt =====
-- `load_history`: the select, its order and limit, and the decoding loop.
use tysel.Base.{
  ℕ, ◌+◌, Option, none, some, List, [], ◌∷◌, leb, ltb, ◌==◌, if◌then◌else◌, length, take, retain,
  Result, ok, err,
}
use tysel.Durable.{
  Json, EventKind, TaskEvent, DurableError, EventRow, Tables, parse, history_event_limit,
  history_byte_limit, invalid_event_kind, json_error, max_history_events, max_history_bytes,
}
use tysel.Durable.Tx.{checked_add}

-- `WHERE task_id = ?1`
unfoldable pub rows_of : ℕ → List EventRow → List EventRow
rows_of task = retain (λ r. r.task_id == task)

-- `ORDER BY sequence`
unfoldable pub insert_by_sequence : EventRow → List EventRow → List EventRow
insert_by_sequence r [] = r ∷ []
insert_by_sequence r (x ∷ xs) =
    let rest = insert_by_sequence r xs in if leb r.sequence x.sequence then r ∷ x ∷ xs else x ∷ rest

unfoldable pub order_by_sequence : List EventRow → List EventRow
order_by_sequence [] = []
order_by_sequence (r ∷ rs) = insert_by_sequence r (order_by_sequence rs)

abbrev pub add_size : ℕ → Option ℕ → Option ℕ
add_size n none = none
add_size n (some total) = checked_add total n

-- `history_bytes.checked_add(key.len()).and_then(..)`
abbrev pub grown : ℕ → EventRow → Option ℕ
grown bytes r = add_size (length r.payload) (checked_add bytes (length r.event_key))

module _ (json : Json) where
  open json use {Value}

  abbrev pub with_payload :
      EventRow → EventKind → Option Value → Result DurableError (TaskEvent Value)
  with_payload r kind none = err json_error
  with_payload r kind (some v) = ok (record {
    task_id = r.task_id;
    sequence = r.sequence;
    kind = kind;
    key = r.event_key;
    payload = v;
    recorded_at_ms = r.recorded_at_ms;
    payload_json = r.payload;
  })

  abbrev pub with_kind : EventRow → Option EventKind → Result DurableError (TaskEvent Value)
  with_kind r none = err (invalid_event_kind r.kind)
  with_kind r (some kind) = with_payload r kind (json.parse r.payload)

  unfoldable pub decode_row : EventRow → Result DurableError (TaskEvent Value)
  decode_row r = with_kind r (parse r.kind)

  abbrev pub cons_ok :
      Result DurableError (TaskEvent Value)
      → Result DurableError (List (TaskEvent Value))
      → Result DurableError (List (TaskEvent Value))
  cons_ok (err e) rest = err e
  cons_ok (ok x) (err e) = err e
  cons_ok (ok x) (ok xs) = ok (x ∷ xs)

  -- The size test of one row; `rest` is the remaining loop at the new total.
  abbrev pub within_bytes :
      EventRow
      → (ℕ → Result DurableError (List (TaskEvent Value)))
      → Option ℕ
      → Result DurableError (List (TaskEvent Value))
  within_bytes r rest none = err history_byte_limit
  within_bytes r rest (some bytes) =
      if ltb max_history_bytes bytes
      then err history_byte_limit
      else cons_ok (decode_row r) (rest bytes)

  -- The loop over the rows, from `count` events and `bytes` bytes on.
  unfoldable pub decode_rows : ℕ → ℕ → List EventRow → Result DurableError (List (TaskEvent Value))
  decode_rows count bytes [] = ok []
  decode_rows count bytes (r ∷ rs) =
      if leb max_history_events count
      then err history_event_limit
      else within_bytes r (λ total. decode_rows (count + 1) total rs) (grown bytes r)

  unfoldable pub load_history : ℕ → Tables → Result DurableError (List (TaskEvent Value))
  load_history task t =
      decode_rows 0 0 (take (max_history_events + 1) (order_by_sequence (rows_of task t.events)))
