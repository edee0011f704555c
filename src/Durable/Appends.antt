-- ===== src/Durable/Appends.antt =====
-- What a successful append to the event log has done.
use tysel.Base.{
  ℕ, ◌+◌, ◌≤◌, ◌<◌, ◌≡◌, Text, Option, none, some, false, length, lookup, arith, ok, err, sym, ◌≢◌,
  subst, ==_iff, Option-cases,
}
use tysel.Durable.{Tables, max_history_events, max_history_bytes, NewEvent, history_conflict}
use tysel.Durable.Tx.{checked_add}
use tysel.Durable.History.{
  next_sequence, stats_or_zero, add_event, insert_event, ensure_open, conflicts,
}
use tysel.Durable.Log.{
  IsLogAt, IsLog, row_for, row_count, row_bytes, next_sequence-count, add_event-IsLogAt,
}

module _ {V : Type 0} where
  -- What `insert_event` has done when it has succeeded with `s` and the tables `u`.
  pub record IsInserted (task : ℕ) (expected : Option ℕ) (event : NewEvent V) (payload : Text)
      (recorded : ℕ) (t : Tables) (s : ℕ) (u : Tables) : Type 0 where
    pub number : s ≡ next_sequence task t.events
    pub as_expected : conflicts expected s ≡ false
    pub open_task : lookup task t.completions ≡ none
    pub room : (stats_or_zero (lookup task t.stats)).event_count < max_history_events
    pub fits :
        (stats_or_zero (lookup task t.stats)).payload_bytes + (length event.key + length payload)
        ≤ max_history_bytes
    pub tables :
        u ≡ add_event (row_for task s event payload recorded) (length event.key + length payload) t

  pub insert_event-IsInserted :
      (task : ℕ) (expected : Option ℕ) (event : NewEvent V) (payload : Text) (recorded : ℕ)
      (t : Tables) (s : ℕ) (u : Tables)
      → insert_event task expected event payload recorded t ≡ ok (s, u)
      → IsInserted task expected event payload recorded t s u
  unfolding insert_event ensure_open checked_add
  insert_event-IsInserted task expected event payload recorded t s u h = record {
    number = ground arith;
    as_expected = ground arith;
    open_task = ground (arith, Option-cases (lookup task t.completions));
    room = ground arith;
    fits = ground arith;
    tables = ground arith;
  }

  pub insert_event-IsLog :
      (task : ℕ) (expected : Option ℕ) (event : NewEvent V) (payload : Text) (recorded : ℕ)
      (t : Tables) (s : ℕ) (u : Tables)
      → IsLog t
      → insert_event task expected event payload recorded t ≡ ok (s, u)
      → IsLog u
  insert_event-IsLog task expected event payload recorded t s u w h k =
      let i = insert_event-IsInserted task expected event payload recorded t s u h in
      let row = row_for task s event payload recorded in
      subst (λ v. IsLogAt v k) (sym i.tables)
        (add_event-IsLogAt t row k (w task) (w k) i.number (omega (arith, i.room, (w task).counted))
          (omega (arith, i.fits, (w task).sized)))

  -- The insertion when nothing stands in the way.
  pub insert_event-writes :
      (task : ℕ) (expected : Option ℕ) (event : NewEvent V) (payload : Text) (recorded : ℕ)
      (t : Tables)
      → IsLog t
      → lookup task t.completions ≡ none
      → row_count task t.events < max_history_events
      → row_bytes task t.events + (length event.key + length payload) ≤ max_history_bytes
      → conflicts expected (next_sequence task t.events) ≡ false
      → insert_event task expected event payload recorded t
        ≡ ok (
          next_sequence task t.events,
          add_event
              (row_for task (next_sequence task t.events) event payload recorded)
              (length event.key + length payload)
              t,
        )
  unfolding insert_event ensure_open checked_add
  insert_event-writes task expected event payload recorded t w active room fits same =
      ground (arith, (w task).counted, (w task).sized)

  -- The refusal of a stale expected number.
  pub insert_event-stale :
      (task expected : ℕ) (event : NewEvent V) (payload : Text) (recorded : ℕ) (t : Tables)
      → IsLog t
      → lookup task t.completions ≡ none
      → row_count task t.events < max_history_events
      → row_bytes task t.events + (length event.key + length payload) ≤ max_history_bytes
      → expected ≢ row_count task t.events
      → insert_event task (some expected) event payload recorded t
        ≡ err (history_conflict expected (row_count task t.events))
  unfolding insert_event ensure_open checked_add
  insert_event-stale task expected event payload recorded t w active room fits other = ground (
    arith,
    (w task).counted,
    (w task).sized,
    next_sequence-count t task (w task),
    ==_iff (row_count task t.events) expected,
  )
