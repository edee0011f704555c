-- ===== src/Durable/Deliveries.antt =====
-- The outcomes of a send and of a poll.
use tysel.Base.{
  ℕ, ◌+◌, ◌≡◌, Text, Option, none, some, [], ◌∷◌, ◌++◌, false, not, ◌==◌, ◌&&◌, lookup, ok, arith,
  ◌⊎◌, inl, inr, Option-cases, Result-cases, text_eq, text_eq_iff, ==_iff, ap, ◌∙◌,
}
use tysel.Durable.{Json, TaskEvent, ExecutionClaim, WakeupClaim, SignalRow, Tables}
use tysel.Durable.Tx.{to_sql_integer}
use tysel.Durable.History.{Clock, stored_event, next_sequence}
use tysel.Durable.Signals.{validate_signal_name, prior_signal, first_signal, is_some}
use tysel.Durable.Signalling.{send_signal_inner, signal_event, poll_checks, poll_signal}
use tysel.Durable.Inbox.{waiting, IsInbox, ascending-retain, first_signal-none, first_signal-oldest}
use tysel.Durable.Polls.{
  signal_row, deliver-adds, prior_signal-keeps, poll_checks-pass, awaits, suspend_on-registers,
  consume_signal-IsConsumed,
}
use tysel.Durable.Log.{row_for}

module _ (json : Json) (digest : Text → Text) where
  open json use {Value, to_text}

  -- A successful send either repeats an earlier request and changes nothing, or adds one signal.
  pub send_signal_inner_outcomes :
      (task : ℕ) (name : Text) (payload : Value) (sent : ℕ) (key : Option Text) (t u : Tables)
      (id : ℕ)
      → send_signal_inner json digest task name payload sent key t ≡ ok (id, u)
      → (u ≡ t)
        ⊎ ((id ≡ t.last_signal_id + 1)
            × (u.last_signal_id ≡ t.last_signal_id + 1)
            × (u.inbox
                ≡ t.inbox
                  ++ signal_row (t.last_signal_id + 1) task name (to_text payload) sent ∷ [])
            × (u.events ≡ t.events))
  unfolding send_signal_inner validate_signal_name to_sql_integer
  send_signal_inner_outcomes task name payload sent key t u id h =
      let text = to_text payload in
      elim (Result-cases (prior_signal task name (digest text) key t)) [
        | inr (_, failed) ↦ ground arith
        | inl ((prior, v), checked) ↦
            let same = prior_signal-keeps task name (digest text) key t v prior checked in
            elim (Option-cases prior) [
              | inr (old, repeated) ↦ inl (ground (arith, same))
              | inl fresh ↦
                  inr (
                    deliver-adds task name text (digest text) sent key t u id
                      (ground (arith, same)))
            ]
      ]

  -- What a successful poll has done: consumed the oldest signal, or registered a wait.
  pub record Took (task expected : ℕ) (name : Text) (t : Tables) (found : Option (TaskEvent Value))
      (u : Tables) : Type 0 where
    pub row : SignalRow
    pub payload : Value
    pub parsed : json.parse row.payload ≡ some payload
    pub returned :
        found
        ≡ some
            (stored_event task expected (signal_event json name payload row.sent_at_ms) row.payload)
    pub oldest :
        waiting task name t.inbox ≡ (row.payload, row.sent_at_ms) ∷ waiting task name u.inbox
    pub others :
        (j : ℕ) (m : Text)
        → (task == j && text_eq name m) ≡ false
        → waiting j m u.inbox ≡ waiting j m t.inbox
    pub recorded :
        u.events
        ≡ t.events
          ++ row_for task expected
              (signal_event json name payload row.sent_at_ms)
              row.payload
              row.sent_at_ms
            ∷ []

  pub record Suspended (task expected : ℕ) (name : Text) (t : Tables)
      (found : Option (TaskEvent Value)) (u : Tables) : Type 0 where
    pub returned : found ≡ none
    pub nothing : waiting task name t.inbox ≡ []
    pub same_inbox : u.inbox ≡ t.inbox
    pub same_events : u.events ≡ t.events
    pub registered : lookup task u.waits ≡ some (awaits expected name)

  -- A successful poll at the next number of the task either takes the oldest signal of this name
  -- from the inbox of the task, leaves every other queue alone, and returns and records it as the
  -- event of that number; or, if no signal of this name waits, it returns nothing, leaves the inbox
  -- and the log alone, and the task waits on this name at that number.
  pub poll_signal_outcomes :
      (x : Option ExecutionClaim) (clock : Clock) (task expected : ℕ) (name : Text) (now_ms : ℕ)
      (claim : Option WakeupClaim) (t u : Tables) (found : Option (TaskEvent Value))
      → IsInbox t
      → poll_signal json x clock task expected name now_ms claim t ≡ ok (found, u)
      → (next_sequence task t.events ≡ expected)
        × IsInbox u
        × (Took task expected name t found u ⊎ Suspended task expected name t found u)
  unfolding poll_signal
  poll_signal_outcomes x clock task expected name now_ms claim t u found w h =
      elim (Result-cases (poll_checks x clock.before task expected name now_ms t)) [
        | inr (_, failed) ↦ ground arith
        | inl ((a, v), checked) ↦
            let (same, held, next, free, active) =
              poll_checks-pass x clock.before task expected name now_ms t v a checked in
            elim (Option-cases (first_signal task name t.inbox)) [
              | inl absent ↦
                  let (r, box, last, events, waits, _) =
                    suspend_on-registers json x clock.after task expected name t u found
                      (ground (arith, same)) in
                  (
                    next,
                    ground (arith, box, last),
                    inr (record {
                      returned = r;
                      nothing = first_signal-none task name t.inbox absent;
                      same_inbox = box;
                      same_events = events;
                      registered = waits;
                    }),
                  )
              | inr (s, queued) ↦
                  let c =
                    consume_signal-IsConsumed json x clock.after task expected name now_ms
                      (is_some (lookup task t.waits)) claim s t u found next
                      (ground (arith, same)) in
                  let (mine, front, others) =
                    first_signal-oldest task name 0 t.last_signal_id t.inbox s w queued in
                  (
                    next,
                    ground (
                      arith,
                      c.dropped,
                      c.same_last,
                      ascending-retain (λ r. not (r.id == s.id)) 0 t.last_signal_id t.inbox w,
                    ),
                    inl (record {
                      row = s;
                      payload = c.payload;
                      parsed = c.parsed;
                      returned = c.returned;
                      oldest = ground (arith, front, c.dropped);
                      others = λ j m o.
                          ap (waiting j m) c.dropped
                          ∙ others j m (
                              ground (
                                arith,
                                o,
                                mine,
                                ==_iff s.task_id task,
                                text_eq_iff s.signal_name name,
                              ));
                      recorded = c.grew;
                    }),
                  )
            ]
      ]
