-- ===== src/Samples/Inboxes.antt =====
-- Tests of the signal inbox: a signal is sent to a task, and polled twice.
use tysel.Base.{
  ◌≡◌, ◌⊎◌, refl, List, [], ◌∷◌, ◌++◌, none, some, Text, ok, lookup, insert, remove, text_eq,
}
use tysel.Durable.{Tables, TaskEvent}
use tysel.Durable.Tx.{to_sql_integer, checked_add}
use tysel.Durable.History.{guard_execution, ensure_open, next_sequence, insert_event, stored_event}
use tysel.Durable.Signals.{
  validate_signal_name, prior_signal, deliver, first_signal, pending_count, pending_bytes,
}
use tysel.Durable.Signalling.{send_signal_inner, poll_signal, consume_signal, signal_event}
use tysel.Durable.Log.{row_for}
use tysel.Durable.Inbox.{waiting, IsInbox}
use tysel.Durable.Deliveries.{Took, Suspended, poll_signal_outcomes}
use tysel.Durable.Fifo.{SignalCall, sends, polls, run_signals, all_accepted, all_received, run_fifo}
use tysel.Samples.Durability.{plain, blank, clock, word, claim7}

abbrev as_digest : Text → Text
as_digest text = text

abbrev traffic : List (SignalCall plain as_digest)
traffic =
    sends 7 word word 5 none
    ∷ polls (some claim7) clock 7 0 word 10 none
    ∷ polls none clock 7 1 word 12 none
    ∷ []

run_fifo_example :
    IsInbox (run_signals plain as_digest blank traffic)
    × (all_received plain as_digest 7 word blank traffic
          ++ waiting 7 word (run_signals plain as_digest blank traffic).inbox
        ≡ waiting 7 word blank.inbox ++ all_accepted plain as_digest 7 word blank traffic)
run_fifo_example = run_fifo plain as_digest 7 word traffic blank refl

abbrev sent : Tables
sent = record blank {
  inbox = record { id = 1; task_id = 7; signal_name = word; payload = word; sent_at_ms = 5 } ∷ [];
  last_signal_id = 1;
}

sent-by : send_signal_inner plain as_digest 7 word word 5 none blank ≡ ok (1, sent)
unfolding send_signal_inner validate_signal_name to_sql_integer prior_signal deliver ensure_open
    lookup checked_add pending_count pending_bytes
sent-by = refl

abbrev event : TaskEvent Text
event = stored_event 7 0 (signal_event plain word word 5) word

abbrev drained : Tables
drained = record sent {
  events = row_for 7 0 (signal_event plain word word 5) word 5 ∷ [];
  stats = (7, record { event_count = 1; payload_bytes = 2 }) ∷ [];
  inbox = [];
}

polled : poll_signal plain (some claim7) clock 7 0 word 10 none sent ≡ ok (some event, drained)
unfolding poll_signal validate_signal_name to_sql_integer guard_execution lookup text_eq ensure_open
    next_sequence first_signal consume_signal insert_event checked_add insert remove
polled = refl

poll_signal_outcomes_example :
    (next_sequence 7 sent.events ≡ 0)
    × IsInbox drained
    × (Took plain as_digest 7 0 word sent (some event) drained
        ⊎ Suspended plain as_digest 7 0 word sent (some event) drained)
poll_signal_outcomes_example =
    poll_signal_outcomes plain as_digest (some claim7) clock 7 0 word 10 none sent drained
      (some event) refl polled
