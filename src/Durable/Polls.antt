-- ===== src/Durable/Polls.antt =====
-- What sending and polling do to the inbox.
use tysel.Base.{
  ℕ, ◌+◌, ◌≡◌, refl, Text, Option, none, some, [], ◌∷◌, ◌++◌, Bool, true, false, not, ◌==◌, lookup,
  lookup-insert_self, retain, ok, arith, inl, inr, Option-cases, Result-cases, text_eq_iff, ap, ◌∙◌,
}
use tysel.Durable.{Json, TaskEvent, ExecutionClaim, WakeupClaim, SignalRow, WaitRow, Tables}
use tysel.Durable.Tx.{to_sql_integer, checked_add}
use tysel.Durable.History.{ensure_open, next_sequence, insert_event, stored_event}
use tysel.Durable.Signals.{
  validate_signal_name, validate_key, prior_signal, receipt_of, deliver, is_other_wait,
  register_signal_wait, consume_wakeup, drop_signal, drop_wait, wake_waiting, waits_for,
  add_receipt, add_signal,
}
use tysel.Durable.Signalling.{signal_event, consume_signal, suspend_on, poll_checks}
use tysel.Durable.Commits.{holds, guard_execution-cases}
use tysel.Durable.Log.{row_for}
use tysel.Durable.Appends.{insert_event-IsInserted}

wake_waiting-keeps :
    (task at : ℕ) (wait : Option ℕ) (t : Tables)
    → ((wake_waiting task at wait t).inbox ≡ t.inbox)
      × ((wake_waiting task at wait t).last_signal_id ≡ t.last_signal_id)
      × ((wake_waiting task at wait t).events ≡ t.events)
wake_waiting-keeps task at none t = (refl, refl, refl)
wake_waiting-keeps task at (some sequence) t = elim (Option-cases (lookup task t.wakeups)) [
  | inl absent ↦ (ground arith, ground arith, ground arith)
  | inr (_, present) ↦ (ground arith, ground arith, ground arith)
]

add_receipt-keeps :
    (task : ℕ) (name hash : Text) (id : ℕ) (key : Option Text) (t : Tables)
    → ((add_receipt task name hash id key t).inbox ≡ t.inbox)
      × ((add_receipt task name hash id key t).last_signal_id ≡ t.last_signal_id)
      × ((add_receipt task name hash id key t).events ≡ t.events)
add_receipt-keeps task name hash id none t = (refl, refl, refl)
add_receipt-keeps task name hash id (some key) t = (refl, refl, refl)

drop_wait-keeps :
    (task sequence : ℕ) (name : Text) (t : Tables)
    → ((drop_wait task sequence name t).inbox ≡ t.inbox)
      × ((drop_wait task sequence name t).last_signal_id ≡ t.last_signal_id)
      × ((drop_wait task sequence name t).events ≡ t.events)
drop_wait-keeps task sequence name t = elim (Option-cases (lookup task t.waits)) [
  | inl absent ↦ (ground arith, ground arith, ground arith)
  | inr (_, present) ↦ (ground arith, ground arith, ground arith)
]

-- The row that a delivered signal adds.
abbrev pub signal_row : ℕ → ℕ → Text → Text → ℕ → SignalRow
signal_row id task name payload sent = record {
  id = id;
  task_id = task;
  signal_name = name;
  payload = payload;
  sent_at_ms = sent;
}

pub deliver-adds :
    (task : ℕ) (name payload hash : Text) (sent : ℕ) (key : Option Text) (t u : Tables) (id : ℕ)
    → deliver task name payload hash sent key t ≡ ok (id, u)
    → (id ≡ t.last_signal_id + 1)
      × (u.last_signal_id ≡ t.last_signal_id + 1)
      × (u.inbox ≡ t.inbox ++ signal_row (t.last_signal_id + 1) task name payload sent ∷ [])
      × (u.events ≡ t.events)
unfolding deliver ensure_open checked_add
deliver-adds task name payload hash sent key t u id h =
    let added = add_signal (signal_row (t.last_signal_id + 1) task name payload sent) t in
    let woken = wake_waiting task sent (waits_for name (lookup task t.waits)) added in
    let wakes = wake_waiting-keeps task sent (waits_for name (lookup task t.waits)) added in
    let notes = add_receipt-keeps task name hash (t.last_signal_id + 1) key woken in
    (
      ground arith,
      ground (arith, wakes, notes),
      ground (arith, wakes, notes),
      ground (arith, wakes, notes),
    )

pub prior_signal-keeps :
    (task : ℕ) (name hash : Text) (key : Option Text) (t u : Tables) (prior : Option ℕ)
    → prior_signal task name hash key t ≡ ok (prior, u)
    → u ≡ t
unfolding prior_signal validate_key
prior_signal-keeps task name hash none t u prior h = ground arith
prior_signal-keeps task name hash (some key) t u prior h =
    elim (Option-cases (receipt_of task key t.receipts)) [
      | inl absent ↦ ground arith
      | inr (r, found) ↦ ground arith
    ]

pub poll_checks-pass :
    (x : Option ExecutionClaim) (before_ms task expected : ℕ) (name : Text) (now_ms : ℕ)
    (t u : Tables) (a : Unit {0})
    → poll_checks x before_ms task expected name now_ms t ≡ ok (a, u)
    → (u ≡ t)
      × (holds x task before_ms t ≡ true)
      × (next_sequence task t.events ≡ expected)
      × (is_other_wait expected name (lookup task t.waits) ≡ false)
      × (lookup task t.completions ≡ none)
unfolding poll_checks validate_signal_name to_sql_integer ensure_open
poll_checks-pass x before_ms task expected name now_ms t u a h =
    elim (guard_execution-cases x task before_ms t) [
      | inr (_, failed) ↦ ground arith
      | inl (passed, held) ↦ (
        ground arith,
        held,
        ground arith,
        ground arith,
        ground (arith, Option-cases (lookup task t.completions)),
      )
    ]

consume_wakeup-keeps :
    (task expected now_ms : ℕ) (waited : Bool) (claim : Option WakeupClaim) (t u : Tables)
    (a : Unit {0})
    → consume_wakeup task expected now_ms waited claim t ≡ ok (a, u)
    → (u.inbox ≡ t.inbox) × (u.last_signal_id ≡ t.last_signal_id) × (u.events ≡ t.events)
unfolding to_sql_integer
consume_wakeup-keeps task expected now_ms waited none t u a h =
    (ground arith, ground arith, ground arith)
consume_wakeup-keeps task expected now_ms waited (some c) t u a h =
    (ground arith, ground arith, ground arith)

-- What registering a wait leaves behind: the wait of the task on this name, at this number.
abbrev pub awaits : ℕ → Text → WaitRow
awaits expected name = record { sequence = expected; signal_name = name }

register_signal_wait-registers :
    (task expected : ℕ) (name : Text) (t u : Tables) (a : Unit {0})
    → register_signal_wait task expected name t ≡ ok (a, u)
    → (u.inbox ≡ t.inbox)
      × (u.last_signal_id ≡ t.last_signal_id)
      × (u.events ≡ t.events)
      × (u.executions ≡ t.executions)
      × (lookup task u.waits ≡ some (awaits expected name))
unfolding register_signal_wait to_sql_integer
register_signal_wait-registers task expected name t u a h =
    elim (Option-cases (lookup task t.waits)) [
      | inl absent ↦ (
        ground arith,
        ground arith,
        ground arith,
        ground arith,
        ground (arith, lookup-insert_self task (awaits expected name) t.waits),
      )
      | inr (w, present) ↦ (
        ground arith,
        ground arith,
        ground arith,
        ground arith,
        ground (arith, text_eq_iff w.signal_name name),
      )
    ]

pub suspend_on-registers :
    (json : Json) (x : Option ExecutionClaim) (after_ms task expected : ℕ) (name : Text)
    (t u : Tables) (found : Option (TaskEvent json.Value))
    → suspend_on json x after_ms task expected name t ≡ ok (found, u)
    → (found ≡ none)
      × (u.inbox ≡ t.inbox)
      × (u.last_signal_id ≡ t.last_signal_id)
      × (u.events ≡ t.events)
      × (lookup task u.waits ≡ some (awaits expected name))
      × (holds x task after_ms u ≡ true)
unfolding suspend_on
suspend_on-registers json x after_ms task expected name t u found h =
    elim (Result-cases (register_signal_wait task expected name t)) [
      | inr (_, failed) ↦ ground arith
      | inl ((a, v), registered) ↦ elim (guard_execution-cases x task after_ms v) [
        | inr (_, failed) ↦ ground arith
        | inl (passed, held) ↦
            let (box, last, events, executions, waits) =
              register_signal_wait-registers task expected name t v a registered in
            let same : u ≡ v = ground arith in
            (
              ground arith,
              ap (λ w. w.inbox) same ∙ box,
              ap (λ w. w.last_signal_id) same ∙ last,
              ap (λ w. w.events) same ∙ events,
              ap (λ w. lookup task w.waits) same ∙ waits,
              ap (λ w. holds x task after_ms w) same ∙ held,
            )
      ]
    ]

-- What consuming a queued signal does.
pub record IsConsumed (json : Json) (x : Option ExecutionClaim) (after_ms task expected : ℕ)
    (name : Text) (s : SignalRow) (t : Tables) (found : Option (TaskEvent json.Value)) (u : Tables)
    : Type 0 where
  pub payload : json.Value
  pub parsed : json.parse s.payload ≡ some payload
  pub returned :
      found
      ≡ some (stored_event task expected (signal_event json name payload s.sent_at_ms) s.payload)
  pub grew :
      u.events
      ≡ t.events
        ++ row_for task expected
            (signal_event json name payload s.sent_at_ms)
            s.payload
            s.sent_at_ms
          ∷ []
  pub dropped : u.inbox ≡ retain (λ r. not (r.id == s.id)) t.inbox
  pub same_last : u.last_signal_id ≡ t.last_signal_id

pub consume_signal-IsConsumed :
    (json : Json) (x : Option ExecutionClaim) (after_ms task expected : ℕ) (name : Text)
    (now_ms : ℕ) (waited : Bool) (claim : Option WakeupClaim) (s : SignalRow) (t u : Tables)
    (found : Option (TaskEvent json.Value))
    → next_sequence task t.events ≡ expected
    → consume_signal json x after_ms task expected name now_ms waited claim s t ≡ ok (found, u)
    → IsConsumed json x after_ms task expected name s t found u
unfolding consume_signal
consume_signal-IsConsumed json x after_ms task expected name now_ms waited claim s t u found next
      h =
    elim (Result-cases (consume_wakeup task expected now_ms waited claim t)) [
      | inr (_, failed) ↦ ground arith
      | inl ((a, v), consumed) ↦ elim (Option-cases (json.parse s.payload)) [
        | inl bad ↦ ground arith
        | inr (payload, parsed) ↦
            elim (Result-cases (
              insert_event task (some expected) (signal_event json name payload s.sent_at_ms)
                s.payload s.sent_at_ms v)) [
                  | inr (_, failed) ↦ ground arith
                  | inl ((n, w), inserted) ↦
                      let last = drop_wait task n name (drop_signal s.id w) in
                      elim (guard_execution-cases x task after_ms last) [
                        | inr (_, failed) ↦ ground arith
                        | inl (passed, held) ↦
                            let event = signal_event json name payload s.sent_at_ms in
                            let (box, last_id, events) =
                              consume_wakeup-keeps task expected now_ms waited claim t v a
                                consumed in
                            let i =
                              insert_event-IsInserted task (some expected) event s.payload
                                s.sent_at_ms v n w inserted in
                            let (kept_box, kept_last, kept_events) =
                              drop_wait-keeps task n name (drop_signal s.id w) in
                            let number : n ≡ expected =
                              i.number ∙ ap (next_sequence task) events ∙ next in
                            let same : u ≡ last = ground arith in
                            record {
                              payload = payload;
                              parsed = parsed;
                              returned = ground (arith, number);
                              grew =
                                  ap (λ x. x.events) same
                                  ∙ kept_events
                                  ∙ ap (λ x. x.events) i.tables
                                  ∙ ap
                                      (λ es. es ++ row_for task n event s.payload s.sent_at_ms ∷ [])
                                      events
                                  ∙ ap
                                      (λ k.
                                        t.events
                                        ++ row_for task k event s.payload s.sent_at_ms ∷ [])
                                      number;
                              dropped =
                                  ap (λ x. x.inbox) same
                                  ∙ kept_box
                                  ∙ ap (λ x. retain (λ r. not (r.id == s.id)) x.inbox) i.tables
                                  ∙ ap (retain (λ r. not (r.id == s.id))) box;
                              same_last =
                                  ap (λ x. x.last_signal_id) same
                                  ∙ kept_last
                                  ∙ ap (λ x. x.last_signal_id) i.tables
                                  ∙ last_id;
                            }
                      ]
                ]
      ]
    ]
