-- ===== src/Samples/Durability.antt =====
-- Tests of the durable store: one task with a first event, under an execution claim.
use tysel.Base.{
  ◌≡◌, ◌↔◌, refl, List, [], ◌∷◌, Option, none, some, Text, ok, err, lookup, insert, remove, text_eq,
  arith, map, ◌≤◌,
}
use tysel.Durable.{
  Json, step, sleep, NewEvent, TaskEvent, ExecutionClaim, EventRow, running, ExecutionRow, Tables,
  as_str, parse, history_conflict,
}
use tysel.Durable.Tx.{to_sql_integer, checked_add}
use tysel.Durable.History.{
  ensure_open, guard_execution, next_sequence, insert_event, stored_event, upsert_wakeup, Clock,
  raw_event, validate_event, append_guarded, append_event_json_at, append_event_with_wakeup_inner,
  add_event,
}
use tysel.Durable.Log.{IsLog, row_for}
use tysel.Durable.Commits.{
  IsCommitted, event_from, append_event_json_at-IsCommitted,
  append_event_with_wakeup_inner-IsCommitted,
}
use tysel.Durable.Conflicts.{append_event_json_at-compares}
use tysel.Durable.Kinds.{parse_iff}
use tysel.Durable.Replay.{ReplayCursor, replay, consume_through, ensure_consumed}
use tysel.Durable.Replays.{boundary, consume_each, replay-consume_each}
use tysel.Durable.Through.{
  IsThrough, consume_through-IsThrough, consumes, consumes_through, calls_on, replay_never_panics,
}

-- JSON values that are their own text.
abbrev pub plain : Json
plain = record { Value = Text; to_text = λ v. v; parse = some; value_eq = text_eq }

abbrev pub worker : Text
worker = 119 ∷ 49 ∷ []

abbrev row7 : ExecutionRow
row7 = record {
  state = running;
  generation = 2;
  owner = some worker;
  lease_until_ms = some 100;
  admission_key = none;
  request_hash = none;
}

abbrev pub blank : Tables
blank = record {
  events = [];
  stats = [];
  wakeups = [];
  waits = [];
  inbox = [];
  last_signal_id = 0;
  executions = (7, row7) ∷ [];
  receipts = [];
  programs = [];
  program_stats = record { active_count = 0; active_bytes = 0 };
  completions = [];
}

abbrev pub claim7 : ExecutionClaim
claim7 = record { task_id = 7; owner = worker; generation = 2; lease_until_ms = 100; wakeup = none }

abbrev pub clock : Clock
clock = record { before = 10; after = 11 }

blank-IsLog : IsLog blank
unfolding lookup
blank-IsLog k = record {
  counted = refl;
  sized = refl;
  in_order = refl;
  count_bounded = omega arith;
  bytes_bounded = omega arith;
}

abbrev pub word : Text
word = 97 ∷ []

abbrev first_event : NewEvent Text
first_event = event_from plain step word word 5

abbrev first_row : EventRow
first_row = row_for 7 0 first_event word 5

abbrev one_event : Tables
one_event = add_event first_row 2 blank

abbrev stored : TaskEvent Text
stored = stored_event 7 0 first_event word

appended :
    append_event_json_at plain (some claim7) clock 7 0 step word word 5 blank
    ≡ ok (stored, one_event)
unfolding append_event_json_at raw_event to_sql_integer append_guarded guard_execution insert_event
    ensure_open next_sequence checked_add lookup insert text_eq
appended = refl

append_event_json_at-IsCommitted_example :
    (value : Text) × (some word ≡ some value)
    × IsCommitted plain
        (some claim7)
        clock
        7
        (some 0)
        (event_from plain step word value 5)
        word
        none
        blank
        stored
        one_event
append_event_json_at-IsCommitted_example =
    append_event_json_at-IsCommitted plain (some claim7) clock 7 0 step word word 5 blank stored
      one_event blank-IsLog appended

abbrev nap_event : NewEvent Text
nap_event = event_from plain sleep word word 5

abbrev asleep : Tables
asleep = record one_event {
  events = row_for 7 0 nap_event word 5 ∷ [];
  wakeups =
      (7, record { sequence = 0; wake_at_ms = 900; lease_owner = none; lease_until_ms = none })
      ∷ [];
}

fell_asleep :
    append_event_with_wakeup_inner plain (some claim7) clock 7 none nap_event 900 blank
    ≡ ok (stored_event 7 0 nap_event word, asleep)
unfolding append_event_with_wakeup_inner validate_event to_sql_integer append_guarded
    guard_execution insert_event ensure_open next_sequence checked_add lookup insert text_eq
    upsert_wakeup remove
fell_asleep = refl

append_event_with_wakeup_inner-IsCommitted_example :
    IsCommitted plain
      (some claim7)
      clock
      7
      none
      nap_event
      word
      (some 900)
      blank
      (stored_event 7 0 nap_event word)
      asleep
append_event_with_wakeup_inner-IsCommitted_example =
    append_event_with_wakeup_inner-IsCommitted plain (some claim7) clock 7 none nap_event 900 blank
      (stored_event 7 0 nap_event word) asleep blank-IsLog refl fell_asleep

append_event_json_at-compares_example :
    append_event_json_at plain none clock 7 4 step word word 5 blank ≡ err (history_conflict 4 0)
unfolding lookup
append_event_json_at-compares_example =
    append_event_json_at-compares plain clock 7 4 step word word 5 word blank blank-IsLog refl refl
      (omega arith) (omega arith) (omega arith) (omega arith) (omega arith)

parse_iff_example : (parse word ≡ some step) ↔ (word ≡ as_str step)
parse_iff_example = parse_iff word step

abbrev history : List (TaskEvent Text)
history = stored ∷ stored_event 7 1 nap_event word ∷ []

replay-consume_each_example :
    (consume_each (map boundary history) (replay history)
      ≡ (record { events = history; position = 2 }, map (λ e. ok (some e)) history))
    × (ensure_consumed (consume_each (map boundary history) (replay history)).0 ≡ ok tt)
replay-consume_each_example = replay-consume_each history

abbrev second : ReplayCursor Text
second = record { events = history; position = 1 }

consume_through-IsThrough_example :
    (d : ReplayCursor Text) × (found : Option (TaskEvent Text)) × (consume_through sleep word second
      ≡ some (d, found))
    × IsThrough sleep word second d found
consume_through-IsThrough_example = consume_through-IsThrough sleep word second (omega arith)

replay_never_panics_example :
    (d : ReplayCursor Text) × (calls_on
        (consumes step word ∷ consumes_through sleep word ∷ [])
        (some (replay history))
      ≡ some d)
    × (d.events ≡ history)
    × (d.position ≤ 2)
replay_never_panics_example =
    replay_never_panics (consumes step word ∷ consumes_through sleep word ∷ []) history
