-- ===== src/Durable/Loading.antt =====
-- What `load_history` returns on a well-formed log.
use tysel.Base.{
  ℕ, zero, suc, ◌+◌, ◌≤◌, ◌≡◌, refl, Text, some, List, [], ◌∷◌, ◌++◌, Bool, true, ◌&&◌, ◌==◌,
  length, take, arith, Result, ok, err, ap, Bool-cases, inl, inr, ==_iff, Result-cases,
}
use tysel.Durable.{
  Json, TaskEvent, EventRow, Tables, max_history_events, max_history_bytes, NewEvent, DurableError,
}
use tysel.Durable.Tx.{checked_add}
use tysel.Durable.Load.{
  rows_of, insert_by_sequence, order_by_sequence, decode_row, cons_ok, decode_rows, load_history,
}
use tysel.Durable.History.{stored_event}
use tysel.Durable.Kinds.{parse-as_str}
use tysel.Durable.Log.{IsLogAt, IsLog, row_for, row_size, row_count, row_bytes, numbered}

-- The rows carry the numbers `n`, `n + 1`, ….
abbrev pub consecutive : ℕ → List EventRow → Bool
consecutive n [] = true
consecutive n (r ∷ rs) = r.sequence == n && consecutive (n + 1) rs

rows_of-consecutive :
    (k n : ℕ) (xs : List EventRow) → numbered k n xs ≡ true → consecutive n (rows_of k xs) ≡ true
unfolding rows_of
rows_of-consecutive k n [] h = refl
rows_of-consecutive k n (x ∷ xs) h = elim (Bool-cases (x.task_id == k)) [
  | inl same ↦ ground (arith, rows_of-consecutive k (n + 1) xs)
  | inr other ↦ ground (arith, rows_of-consecutive k n xs)
]

insert_by_sequence-first :
    (r : EventRow) (n : ℕ) (rs : List EventRow)
    → r.sequence ≤ n
    → consecutive n rs ≡ true
    → insert_by_sequence r rs ≡ r ∷ rs
unfolding insert_by_sequence
insert_by_sequence-first r n [] h c = refl
insert_by_sequence-first r n (x ∷ xs) h c = ground arith

order_by_sequence-consecutive :
    (n : ℕ) (rs : List EventRow) → consecutive n rs ≡ true → order_by_sequence rs ≡ rs
unfolding order_by_sequence
order_by_sequence-consecutive n [] c = refl
order_by_sequence-consecutive n (x ∷ xs) c =
    ground (arith, order_by_sequence-consecutive (n + 1) xs, insert_by_sequence-first x (n + 1) xs)

length-rows_of : (k : ℕ) (xs : List EventRow) → length (rows_of k xs) ≡ row_count k xs
unfolding rows_of
length-rows_of k [] = refl
length-rows_of k (x ∷ xs) = ground (arith, length-rows_of k xs)

take_all : {A : Type 0} (n : ℕ) (xs : List A) → length xs ≤ n → take n xs ≡ xs
take_all zero [] h = refl
take_all zero (x ∷ xs) h = ground arith
take_all (suc n) [] h = refl
take_all (suc n) (x ∷ xs) h = ap (λ r. x ∷ r) (take_all n xs (omega arith))

abbrev pub total_size : List EventRow → ℕ
total_size [] = 0
total_size (r ∷ rs) = row_size r + total_size rs

total_size-rows_of : (k : ℕ) (xs : List EventRow) → total_size (rows_of k xs) ≡ row_bytes k xs
unfolding rows_of
total_size-rows_of k [] = refl
total_size-rows_of k (x ∷ xs) = ground (arith, total_size-rows_of k xs)

rows_of-append :
    (k : ℕ) (xs ys : List EventRow) → rows_of k (xs ++ ys) ≡ rows_of k xs ++ rows_of k ys
unfolding rows_of
rows_of-append k [] ys = refl
rows_of-append k (x ∷ xs) ys = ground (arith, rows_of-append k xs ys)

module _ (json : Json) where
  open json use {Value}

  -- The decoding loop without its limits.
  unfoldable pub decode_all : List EventRow → Result DurableError (List (TaskEvent Value))
  decode_all [] = ok []
  decode_all (r ∷ rs) = cons_ok json (decode_row json r) (decode_all rs)

  decode_rows-within :
      (count bytes : ℕ) (rs : List EventRow)
      → count + length rs ≤ max_history_events
      → bytes + total_size rs ≤ max_history_bytes
      → decode_rows json count bytes rs ≡ decode_all rs
  unfolding decode_rows decode_all checked_add
  decode_rows-within count bytes [] c b = refl
  decode_rows-within count bytes (r ∷ rs) c b = ground (
    arith,
    decode_rows-within (count + 1) (bytes + length r.event_key + length r.payload) rs (omega arith)
        (omega arith),
  )

  abbrev pub then_event :
      Result DurableError (List (TaskEvent Value))
      → TaskEvent Value
      → Result DurableError (List (TaskEvent Value))
  then_event (err x) e = err x
  then_event (ok es) e = ok (es ++ e ∷ [])

  decode_all-append :
      (xs : List EventRow) (r : EventRow) (e : TaskEvent Value)
      → decode_row json r ≡ ok e
      → decode_all (xs ++ r ∷ []) ≡ then_event (decode_all xs) e
  unfolding decode_all
  decode_all-append [] r e d = ground arith
  decode_all-append (x ∷ xs) r e d = elim (Result-cases (decode_row json x)) [
    | inl (y, here) ↦ elim (Result-cases (decode_all xs)) [
      | inl (ys, there) ↦ ground (arith, decode_all-append xs r e d)
      | inr (_, there) ↦ ground (arith, decode_all-append xs r e d)
    ]
    | inr (_, here) ↦ ground (arith, decode_all-append xs r e d)
  ]

  load_history-decode_all :
      (t : Tables) (k : ℕ) → IsLogAt t k → load_history json k t ≡ decode_all (rows_of k t.events)
  unfolding load_history
  load_history-decode_all t k w =
      let rows = rows_of k t.events in
      let n = length-rows_of k t.events in
      rw
        (
          order_by_sequence-consecutive 0 rows (rows_of-consecutive k 0 t.events w.in_order),
          take_all (max_history_events + 1) rows (omega (arith, n, w.count_bounded)),
        )
        (decode_rows-within 0 0 rows (omega (arith, n, w.count_bounded))
          (omega (arith, total_size-rows_of k t.events, w.bytes_bounded)))

  -- The row of an event decodes to the event.
  pub decode_row-row_for :
      (task sequence : ℕ) (event : NewEvent Value) (payload : Text)
      → json.parse payload ≡ some event.payload
      → decode_row json (row_for task sequence event payload event.recorded_at_ms)
        ≡ ok (stored_event task sequence event payload)
  unfolding decode_row
  decode_row-row_for task sequence event payload p = rw (parse-as_str event.kind, p)

  -- Loading after one more row is loading, and the event of the row at its end.
  pub load_history-append :
      (t u : Tables) (row : EventRow) (e : TaskEvent Value)
      → IsLog t
      → IsLog u
      → u.events ≡ t.events ++ row ∷ []
      → decode_row json row ≡ ok e
      → load_history json row.task_id u ≡ then_event (load_history json row.task_id t) e
  unfolding rows_of
  load_history-append t u row e wt wu grow d =
      let k = row.task_id in
      rw
        (
          load_history-decode_all t k (wt k),
          load_history-decode_all u k (wu k),
          grow,
          rows_of-append k t.events (row ∷ []),
          (==_iff k k).1 refl,
        )
        (decode_all-append (rows_of k t.events) row e d)
