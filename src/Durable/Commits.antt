-- ===== src/Durable/Commits.antt =====
-- What a successful call of an appending method has committed.
use tysel.Base.{
  ℕ, ◌≡◌, refl, Text, Option, none, some, List, [], ◌∷◌, ◌++◌, Bool, true, false, ◌&&◌, ◌==◌,
  lookup, insert, arith, ok, err, ap, sym, ◌∙◌, subst, inl, inr, ◌⊎◌, Option-cases, Result-cases,
}
use tysel.Durable.{
  Json, EventKind, sleep, TaskEvent, ExecutionClaim, WakeupRow, Tables, NewEvent, DurableError,
}
use tysel.Durable.Tx.{to_sql_integer}
use tysel.Durable.History.{
  insert_event, guard_execution, stored_event, upsert_wakeup, set_wakeup, Clock, raw_event,
  validate_event, append_guarded, append_event_json_at, append_event_inner,
  append_event_json_with_wakeup_at, append_event_with_wakeup_inner, conflicts, runs_under,
}
use tysel.Durable.Log.{IsLog, row_for, row_count, next_sequence-count}
use tysel.Durable.Load.{load_history}
use tysel.Durable.Loading.{then_event, load_history-append, decode_row-row_for}
use tysel.Durable.Appends.{insert_event-IsInserted, insert_event-IsLog}

-- A call under a claim holds it: the execution runs under its owner and generation, and its lease
-- has not run out.
abbrev pub holds : Option ExecutionClaim → ℕ → ℕ → Tables → Bool
holds none task now_ms t = true
holds (some c) task now_ms t = task == c.task_id && runs_under c now_ms (lookup task t.executions)

-- The guard passes and changes nothing, or it fails.
pub guard_execution-cases :
    (x : Option ExecutionClaim) (task now_ms : ℕ) (t : Tables)
    → ((guard_execution x task now_ms t ≡ ok (tt, t)) × (holds x task now_ms t ≡ true))
      ⊎ ((e : DurableError) × (guard_execution x task now_ms t ≡ err e))
unfolding guard_execution to_sql_integer
guard_execution-cases none task now_ms t = inl (refl, refl)
guard_execution-cases (some c) task now_ms t =
    elim (Result-cases (guard_execution (some c) task now_ms t)) [
      | inl (_, passed) ↦ inl (ground arith, ground arith)
      | inr failed ↦ inr failed
    ]

abbrev pub woken : ℕ → ℕ → Option ℕ → Tables → List (ℕ × WakeupRow)
woken task sequence none t = t.wakeups
woken task sequence (some at) t =
    insert task
      (record { sequence = sequence; wake_at_ms = at; lease_owner = none; lease_until_ms = none })
      t.wakeups

set_wakeup-IsLog :
    (task sequence : ℕ) (wake : Option ℕ) (t : Tables)
    → IsLog t
    → IsLog (set_wakeup task sequence wake t)
unfolding upsert_wakeup
set_wakeup-IsLog task sequence none t w k = w k
set_wakeup-IsLog task sequence (some at) t w k = record {
  counted = (w k).counted;
  sized = (w k).sized;
  in_order = (w k).in_order;
  count_bounded = (w k).count_bounded;
  bytes_bounded = (w k).bytes_bounded;
}

-- The tables that setting a wakeup leaves alone, and the one that it writes.
set_wakeup-writes :
    (task sequence : ℕ) (wake : Option ℕ) (t : Tables)
    → ((set_wakeup task sequence wake t).events ≡ t.events)
      × ((set_wakeup task sequence wake t).executions ≡ t.executions)
      × ((set_wakeup task sequence wake t).wakeups ≡ woken task sequence wake t)
unfolding upsert_wakeup
set_wakeup-writes task sequence none t = (refl, refl, refl)
set_wakeup-writes task sequence (some at) t = (refl, refl, refl)

holds-executions :
    (x : Option ExecutionClaim) (task now_ms : ℕ) (t u : Tables)
    → u.executions ≡ t.executions
    → holds x task now_ms u ≡ holds x task now_ms t
holds-executions none task now_ms t u e = refl
holds-executions (some c) task now_ms t u e = ground (arith, e)

woken-wakeups :
    (task sequence : ℕ) (wake : Option ℕ) (t u : Tables)
    → u.wakeups ≡ t.wakeups
    → woken task sequence wake u ≡ woken task sequence wake t
woken-wakeups task sequence none t u e = e
woken-wakeups task sequence (some at) t u e = ground (arith, e)

module _ (json : Json) where
  open json use {Value, to_text}

  -- The event `e` of `task` was committed on the tables `t`, and gave `u`.
  pub record IsCommitted (execution : Option ExecutionClaim) (clock : Clock) (task : ℕ)
      (expected : Option ℕ) (event : NewEvent Value) (payload : Text) (wake : Option ℕ) (t : Tables)
      (e : TaskEvent Value) (u : Tables) : Type 0 where
    pub number : e ≡ stored_event task (row_count task t.events) event payload
    pub as_expected : conflicts expected (row_count task t.events) ≡ false
    pub held : holds execution task clock.before t ≡ true
    pub held_after : holds execution task clock.after t ≡ true
    pub was_open : lookup task t.completions ≡ none
    pub grew :
        u.events
        ≡ t.events ++ row_for task (row_count task t.events) event payload event.recorded_at_ms ∷ []
    pub wakeups : u.wakeups ≡ woken task (row_count task t.events) wake t
    pub log : IsLog u
    pub loaded : load_history json task u ≡ then_event json (load_history json task t) e

  append_guarded-tables :
      (execution : Option ExecutionClaim) (clock : Clock) (task : ℕ) (expected : Option ℕ)
      (event : NewEvent Value) (payload : Text) (recorded : ℕ) (wake : Option ℕ) (t : Tables)
      (e : TaskEvent Value) (u : Tables)
      → append_guarded json execution clock task expected event payload recorded wake t ≡ ok (e, u)
      → (s : ℕ) × (v : Tables) × (insert_event task expected event payload recorded t ≡ ok (s, v))
        × (u ≡ set_wakeup task s wake v)
        × (e ≡ stored_event task s event payload)
        × (holds execution task clock.before t ≡ true)
        × (holds execution task clock.after u ≡ true)
  unfolding append_guarded
  append_guarded-tables execution clock task expected event payload recorded wake t e u h =
      elim (guard_execution-cases execution task clock.before t) [
        | inl (passed, held) ↦
            elim (Result-cases (insert_event task expected event payload recorded t)) [
              | inl ((s, v), i) ↦
                  elim (guard_execution-cases execution task clock.after
                    (set_wakeup task s wake v)) [
                      | inl (passed_after, held_after) ↦
                          (s, v, i, ground arith, ground arith, held, ground arith)
                      | inr (_, failed) ↦ ground arith
                    ]
              | inr (_, failed) ↦ ground arith
            ]
        | inr (_, failed) ↦ ground arith
      ]

  append_guarded-IsCommitted :
      (execution : Option ExecutionClaim) (clock : Clock) (task : ℕ) (expected : Option ℕ)
      (event : NewEvent Value) (payload : Text) (wake : Option ℕ) (t : Tables) (e : TaskEvent Value)
      (u : Tables)
      → IsLog t
      → json.parse payload ≡ some event.payload
      → append_guarded json execution clock task expected event payload event.recorded_at_ms wake t
        ≡ ok (e, u)
      → IsCommitted execution clock task expected event payload wake t e u
  unfolding upsert_wakeup
  append_guarded-IsCommitted execution clock task expected event payload wake t e u w p h =
      let (s, v, i, tables, event_of, before, after) =
        append_guarded-tables execution clock task expected event payload event.recorded_at_ms wake
          t e u h in
      let n = insert_event-IsInserted task expected event payload event.recorded_at_ms t s v i in
      let logged = insert_event-IsLog task expected event payload event.recorded_at_ms t s v w i in
      let counted = n.number ∙ next_sequence-count t task (w task) in
      let row = row_for task s event payload event.recorded_at_ms in
      let kept = set_wakeup-writes task s wake v in
      let grew : u.events ≡ t.events ++ row ∷ [] =
        ap (λ x. x.events) tables ∙ kept.0 ∙ ap (λ x. x.events) n.tables in
      let executions : u.executions ≡ t.executions =
        ap (λ x. x.executions) tables ∙ kept.1 ∙ ap (λ x. x.executions) n.tables in
      let log = subst IsLog (sym tables) (set_wakeup-IsLog task s wake v logged) in
      record {
        number = subst (λ k. e ≡ stored_event task k event payload) counted event_of;
        as_expected = rw (← counted) n.as_expected;
        held = before;
        held_after = sym (holds-executions execution task clock.after t u executions) ∙ after;
        was_open = n.open_task;
        grew =
            grew
            ∙ ap (λ k. t.events ++ row_for task k event payload event.recorded_at_ms ∷ []) counted;
        wakeups = rw (← counted) (
            ap (λ x. x.wakeups) tables
            ∙ kept.2
            ∙ woken-wakeups task s wake t v (ap (λ x. x.wakeups) n.tables));
        log = log;
        loaded =
            load_history-append json t u row e w log grew
              (decode_row-row_for json task s event payload p ∙ ap ok (sym event_of));
      }

  -- The event that `append_event_json_at` reads from its arguments.
  abbrev pub event_from : EventKind → Text → Value → ℕ → NewEvent Value
  event_from kind key value recorded_at_ms = record {
    kind = kind;
    key = key;
    payload = value;
    recorded_at_ms = recorded_at_ms;
  }

  -- A successful `append_event_json_at` on a well-formed log has parsed the payload and committed
  -- one event, which it returns: its number is the number of events that the task had, and the
  -- expected one; it stands behind all earlier events; a later `load_history` of the task returns
  -- the earlier history followed by this event; the wakeups are unchanged; the log is well-formed.
  -- The task was open, and the execution claim, if there is one, held at both guards.
  pub append_event_json_at-IsCommitted :
      (execution : Option ExecutionClaim) (clock : Clock) (task expected : ℕ) (kind : EventKind)
      (key payload : Text) (recorded_at_ms : ℕ) (t : Tables) (e : TaskEvent Value) (u : Tables)
      → IsLog t
      → append_event_json_at json execution clock task expected kind key payload recorded_at_ms t
        ≡ ok (e, u)
      → (value : Value) × (json.parse payload ≡ some value)
        × IsCommitted execution clock task
            (some expected)
            (event_from kind key value recorded_at_ms)
            payload
            none
            t
            e
            u
  unfolding append_event_json_at raw_event to_sql_integer
  append_event_json_at-IsCommitted execution clock task expected kind key payload recorded_at_ms t e
        u w h =
      elim (Option-cases (json.parse payload)) [
        | inl absent ↦ ground arith
        | inr (value, p) ↦ (
          value,
          p,
          append_guarded-IsCommitted execution clock task (some expected)
              (event_from kind key value recorded_at_ms) payload none t e u w p (ground arith),
        )
      ]

  -- The same for `append_event_inner`, at any or no expected number, for the payload's own text.
  pub append_event_inner-IsCommitted :
      (execution : Option ExecutionClaim) (clock : Clock) (task : ℕ) (expected : Option ℕ)
      (event : NewEvent Value) (t : Tables) (e : TaskEvent Value) (u : Tables)
      → IsLog t
      → json.parse (to_text event.payload) ≡ some event.payload
      → append_event_inner json execution clock task expected event t ≡ ok (e, u)
      → IsCommitted execution clock task expected event (to_text event.payload) none t e u
  unfolding append_event_inner validate_event to_sql_integer
  append_event_inner-IsCommitted execution clock task expected event t e u w reads_back h =
      append_guarded-IsCommitted execution clock task expected event (to_text event.payload) none t
        e u w reads_back (ground arith)

  -- A successful `append_event_with_wakeup_inner` on a well-formed log, of a payload that reads back
  -- from its text, has committed one event, as
  -- the next event of the task, at the end of the log and of the loaded history, and in the same
  -- step has made the wakeup of the task one at the number of this event and the time asked for,
  -- without a lease. The task was open, and the execution claim, if there is one, held at both
  -- guards.
  pub append_event_with_wakeup_inner-IsCommitted :
      (execution : Option ExecutionClaim) (clock : Clock) (task : ℕ) (expected : Option ℕ)
      (event : NewEvent Value) (wake_at_ms : ℕ) (t : Tables) (e : TaskEvent Value) (u : Tables)
      → IsLog t
      → json.parse (to_text event.payload) ≡ some event.payload
      → append_event_with_wakeup_inner json execution clock task expected event wake_at_ms t
        ≡ ok (e, u)
      → IsCommitted execution clock task expected event
          (to_text event.payload)
          (some wake_at_ms)
          t
          e
          u
  unfolding append_event_with_wakeup_inner validate_event to_sql_integer
  append_event_with_wakeup_inner-IsCommitted execution clock task expected event wake_at_ms t e u w
        reads_back h =
      append_guarded-IsCommitted execution clock task expected event (to_text event.payload)
        (some wake_at_ms) t e u w reads_back (ground arith)

  -- The same for `append_event_json_with_wakeup_at`, which records a sleep.
  pub append_event_json_with_wakeup_at-IsCommitted :
      (execution : Option ExecutionClaim) (clock : Clock) (task expected : ℕ) (key payload : Text)
      (recorded_at_ms wake_at_ms : ℕ) (t : Tables) (e : TaskEvent Value) (u : Tables)
      → IsLog t
      → append_event_json_with_wakeup_at json execution clock task expected key payload
          recorded_at_ms wake_at_ms t
        ≡ ok (e, u)
      → (value : Value) × (json.parse payload ≡ some value)
        × IsCommitted execution clock task
            (some expected)
            (event_from sleep key value recorded_at_ms)
            payload
            (some wake_at_ms)
            t
            e
            u
  unfolding append_event_json_with_wakeup_at raw_event to_sql_integer
  append_event_json_with_wakeup_at-IsCommitted execution clock task expected key payload
        recorded_at_ms wake_at_ms t e u w h =
      elim (Option-cases (json.parse payload)) [
        | inl absent ↦ ground arith
        | inr (value, p) ↦ (
          value,
          p,
          append_guarded-IsCommitted execution clock task (some expected)
              (event_from sleep key value recorded_at_ms) payload (some wake_at_ms) t e u w p
              (ground arith),
        )
      ]
