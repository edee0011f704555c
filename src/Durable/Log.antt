-- ===== src/Durable/Log.antt =====
-- The invariant of the event log: for each task the events are numbered without a gap, and the
-- counters agree with the rows and keep to the limits.
use tysel.Base.{
  ℕ, suc, ◌+◌, ◌≤◌, ◌<◌, ◌≡◌, refl, Text, List, [], ◌∷◌, ◌++◌, Bool, true, ◌&&◌, ◌==◌,
  if◌then◌else◌, length, lookup, lookup-insert, arith, ap, Bool-cases, inl, inr, ==_iff,
}
use tysel.Durable.{EventRow, Tables, max_history_events, max_history_bytes, NewEvent, as_str}
use tysel.Durable.History.{next_sequence, stats_or_zero, add_event, grown_stats}

abbrev pub row_count : ℕ → List EventRow → ℕ
row_count k [] = 0
row_count k (r ∷ rs) = let rest = row_count k rs in if r.task_id == k then suc rest else rest

abbrev pub row_size : EventRow → ℕ
row_size r = length r.event_key + length r.payload

abbrev pub row_bytes : ℕ → List EventRow → ℕ
row_bytes k [] = 0
row_bytes k (r ∷ rs) =
    let rest = row_bytes k rs in if r.task_id == k then row_size r + rest else rest

-- The events of task `k` are numbered `n`, `n + 1`, … in the order in which they were written.
abbrev pub numbered : ℕ → ℕ → List EventRow → Bool
numbered k n [] = true
numbered k n (r ∷ rs) =
    let here = numbered k (n + 1) rs in
    let there = numbered k n rs in if r.task_id == k then r.sequence == n && here else there

pub row_count-append :
    (k : ℕ) (xs ys : List EventRow) → row_count k (xs ++ ys) ≡ row_count k xs + row_count k ys
row_count-append k [] ys = omega arith
row_count-append k (x ∷ xs) ys = ground (arith, row_count-append k xs ys)

pub row_bytes-append :
    (k : ℕ) (xs ys : List EventRow) → row_bytes k (xs ++ ys) ≡ row_bytes k xs + row_bytes k ys
row_bytes-append k [] ys = omega arith
row_bytes-append k (x ∷ xs) ys = ground (arith, row_bytes-append k xs ys)

numbered-append :
    (k n : ℕ) (xs : List EventRow) (r : EventRow)
    → numbered k n xs ≡ true
    → (r.task_id ≡ k → r.sequence ≡ n + row_count k xs)
    → numbered k n (xs ++ r ∷ []) ≡ true
numbered-append k n [] r h e = ground arith
numbered-append k n (x ∷ xs) r h e = elim (Bool-cases (x.task_id == k)) [
  | inl same ↦
      ground (arith, numbered-append k (n + 1) xs r (ground arith) (λ o. ground (arith, e o, same)))
  | inr other ↦ ground (arith, numbered-append k n xs r (ground arith) (λ o. ground (arith, e o)))
]

-- On a numbered log `MAX(sequence) + 1` is the number of events.
next_sequence-numbered :
    (k n : ℕ) (xs : List EventRow)
    → numbered k n xs ≡ true
    → next_sequence k xs ≡ (if row_count k xs == 0 then 0 else n + row_count k xs)
unfolding next_sequence
next_sequence-numbered k n [] h = refl
next_sequence-numbered k n (x ∷ xs) h = elim (Bool-cases (x.task_id == k)) [
  | inl same ↦ ground (arith, next_sequence-numbered k (n + 1) xs)
  | inr other ↦ ground (arith, next_sequence-numbered k n xs)
]

pub record IsLogAt (t : Tables) (k : ℕ) : Type 0 where
  pub counted : (stats_or_zero (lookup k t.stats)).event_count ≡ row_count k t.events
  pub sized : (stats_or_zero (lookup k t.stats)).payload_bytes ≡ row_bytes k t.events
  pub in_order : numbered k 0 t.events ≡ true
  pub count_bounded : row_count k t.events ≤ max_history_events
  pub bytes_bounded : row_bytes k t.events ≤ max_history_bytes

abbrev pub IsLog : Tables → Type 0
IsLog t = (k : ℕ) → IsLogAt t k

pub next_sequence-count :
    (t : Tables) (k : ℕ) → IsLogAt t k → next_sequence k t.events ≡ row_count k t.events
next_sequence-count t k w = ground (arith, next_sequence-numbered k 0 t.events w.in_order)

-- The row that `insert_event` writes.
abbrev pub row_for : {V : Type 0} → ℕ → ℕ → NewEvent V → Text → ℕ → EventRow
row_for task sequence event payload recorded = record {
  task_id = task;
  sequence = sequence;
  kind = as_str event.kind;
  event_key = event.key;
  payload = payload;
  recorded_at_ms = recorded;
}

pub add_event-IsLogAt :
    (t : Tables) (row : EventRow) (k : ℕ)
    → IsLogAt t row.task_id
    → IsLogAt t k
    → row.sequence ≡ next_sequence row.task_id t.events
    → row_count row.task_id t.events < max_history_events
    → row_bytes row.task_id t.events + row_size row ≤ max_history_bytes
    → IsLogAt (add_event row (row_size row) t) k
add_event-IsLogAt t row k wr w next room fits = elim (Bool-cases (row.task_id == k)) [
  | inl same ↦
      let e = (==_iff row.task_id k).0 same in
      let stats = lookup-insert k row.task_id (grown_stats row (row_size row) t) t.stats in
      let counts = ap (λ j. row_count j t.events) e in
      let sizes = ap (λ j. row_bytes j t.events) e in
      record {
        counted = ground (arith, stats, counts, row_count-append k t.events (row ∷ []));
        sized = ground (arith, stats, sizes, row_bytes-append k t.events (row ∷ []));
        in_order =
            numbered-append k 0 t.events row w.in_order
              (λ _. omega (arith, next, counts, next_sequence-count t row.task_id wr));
        count_bounded = ground (arith, counts, row_count-append k t.events (row ∷ []));
        bytes_bounded = ground (arith, sizes, row_bytes-append k t.events (row ∷ []));
      }
  | inr other ↦
      let stats = lookup-insert k row.task_id (grown_stats row (row_size row) t) t.stats in
      record {
        counted = ground (arith, stats, row_count-append k t.events (row ∷ []));
        sized = ground (arith, stats, row_bytes-append k t.events (row ∷ []));
        in_order = numbered-append k 0 t.events row w.in_order (λ o. ground (arith, o, other));
        count_bounded = ground (arith, row_count-append k t.events (row ∷ []));
        bytes_bounded = ground (arith, row_bytes-append k t.events (row ∷ []));
      }
]
