-- ===== src/Durable/Fifo.antt =====
-- The inbox of each task and name is a first-in-first-out queue, over all sequences of calls.
use tysel.Base.{
  ℕ, ◌+◌, ◌≡◌, Text, Option, none, some, List, [], ◌∷◌, ◌++◌, Bool, true, false, ltb, ◌==◌, ◌&&◌,
  Result, ok, err, arith, inl, inr, Bool-cases, Result-cases, text_eq, text_eq_iff, ==_iff, ap, ◌∙◌,
  sym,
}
use mathlib.Core.List.{append-nil, append_assoc}
use tysel.Durable.{Json, TaskEvent, ExecutionClaim, WakeupClaim, DurableError, Tables}
use tysel.Durable.History.{Clock}
use tysel.Durable.Signalling.{send_signal_inner, poll_signal}
use tysel.Durable.Inbox.{waiting, IsInbox, waiting-append, ascending-append}
use tysel.Durable.Polls.{signal_row}
use tysel.Durable.Leasing.{tables_after}
use tysel.Durable.Deliveries.{send_signal_inner_outcomes, poll_signal_outcomes}

module _ (json : Json) (digest : Text → Text) where
  open json use {Value, to_text}

  pub data SignalCall : Type 0 where
    sends :
        (task : ℕ)
        → (name : Text) → (payload : Value) → (sent : ℕ) → (key : Option Text) → SignalCall
    polls :
        Option ExecutionClaim
        → Clock
        → (task expected : ℕ) → (name : Text) → (now_ms : ℕ) → Option WakeupClaim
        → SignalCall

  -- A failing call is rolled back.
  unfoldable pub after_signal : SignalCall → Tables → Tables
  after_signal (sends task name payload sent key) t =
      tables_after (send_signal_inner json digest task name payload sent key t) t
  after_signal (polls x clock task expected name now_ms claim) t =
      tables_after (poll_signal json x clock task expected name now_ms claim t) t

  abbrev pub only_if : Bool → Text × ℕ → List (Text × ℕ)
  only_if true p = p ∷ []
  only_if false p = []

  -- What a call puts into the queue of a task and name: a send that issues a new identifier.
  unfoldable pub accepted : ℕ → Text → SignalCall → Tables → List (Text × ℕ)
  accepted k n (sends task name payload sent key) t =
      only_if
        (ltb t.last_signal_id (after_signal (sends task name payload sent key) t).last_signal_id
          && (task == k && text_eq name n))
        (to_text payload, sent)
  accepted k n (polls x clock task expected name now_ms claim) t = []

  abbrev pub taken_from :
      Result DurableError (Option (TaskEvent Value) × Tables) → Bool → List (Text × ℕ)
  taken_from (err _) mine = []
  taken_from (ok (none, _)) mine = []
  taken_from (ok (some e, _)) mine = only_if mine (e.payload_json, e.recorded_at_ms)

  -- What a call takes from it: the event that a poll returns.
  unfoldable pub received : ℕ → Text → SignalCall → Tables → List (Text × ℕ)
  received k n (sends task name payload sent key) t = []
  received k n (polls x clock task expected name now_ms claim) t =
      taken_from (poll_signal json x clock task expected name now_ms claim t)
        (task == k && text_eq name n)

  abbrev pub run_signals : Tables → List SignalCall → Tables
  run_signals t [] = t
  run_signals t (x ∷ xs) = run_signals (after_signal x t) xs

  abbrev pub all_accepted : ℕ → Text → Tables → List SignalCall → List (Text × ℕ)
  all_accepted k n t [] = []
  all_accepted k n t (x ∷ xs) = accepted k n x t ++ all_accepted k n (after_signal x t) xs

  abbrev pub all_received : ℕ → Text → Tables → List SignalCall → List (Text × ℕ)
  all_received k n t [] = []
  all_received k n t (x ∷ xs) = received k n x t ++ all_received k n (after_signal x t) xs

  step_fifo :
      (k : ℕ) (n : Text) (x : SignalCall) (t : Tables)
      → IsInbox t
      → IsInbox (after_signal x t)
        × (received k n x t ++ waiting k n (after_signal x t).inbox
            ≡ waiting k n t.inbox ++ accepted k n x t)
  unfolding after_signal accepted received
  step_fifo k n (sends task name payload sent key) t w =
      let nil = append-nil (waiting k n t.inbox) in
      elim (Result-cases (send_signal_inner json digest task name payload sent key t)) [
        | inr (_, failed) ↦ (ground (arith, w), ground (arith, nil))
        | inl ((id, u), done) ↦
            elim (send_signal_inner_outcomes json digest task name payload sent key t u id done) [
              | inl same ↦ (ground (arith, w), ground (arith, nil))
              | inr (_, last, box, _) ↦
                  let row = signal_row (t.last_signal_id + 1) task name (to_text payload) sent in
                  (
                    ground (arith, ascending-append 0 t.last_signal_id t.inbox row w),
                    ground (arith, waiting-append k n t.inbox row),
                  )
            ]
      ]
  step_fifo k n (polls x clock task expected name now_ms claim) t w =
      let nil = append-nil (waiting k n t.inbox) in
      elim (Result-cases (poll_signal json x clock task expected name now_ms claim t)) [
        | inr (_, failed) ↦ (ground (arith, w), ground (arith, nil))
        | inl ((found, u), done) ↦
            let (_, wu, taken) =
              poll_signal_outcomes json digest x clock task expected name now_ms claim t u found w
                done in
            (
              ground (arith, wu),
              elim taken [
                | inl took ↦ elim (Bool-cases (task == k && text_eq name n)) [
                  | inl mine ↦
                      let e1 = (==_iff task k).0 (ground arith) in
                      let e2 = (text_eq_iff name n).0 (ground (arith, mine)) in
                      let oldest : waiting k n t.inbox
                          ≡ (took.row.payload, took.row.sent_at_ms) ∷ waiting k n u.inbox =
                        ap (λ j. waiting j n t.inbox) (sym e1)
                        ∙ ap (λ m. waiting task m t.inbox) (sym e2)
                        ∙ took.oldest
                        ∙ ap (λ m. (took.row.payload, took.row.sent_at_ms) ∷ waiting task m u.inbox)
                            e2
                        ∙ ap (λ j. (took.row.payload, took.row.sent_at_ms) ∷ waiting j n u.inbox)
                            e1 in
                      ground (arith, nil, took.returned, oldest)
                  | inr other ↦ ground (arith, nil, took.others k n other, took.returned)
                ]
                | inr stays ↦ ground (arith, nil, stays.returned, stays.same_inbox)
              ],
            )
      ]

  -- For each task and name the inbox is a queue, over every sequence of sends and polls, whichever of
  -- them fail: what the polls received so far, followed by what still waits, is what waited at the
  -- start followed by what the sends added, each signal once and in the order in which it was sent.
  pub run_fifo :
      (k : ℕ) (n : Text) (xs : List SignalCall) (t : Tables)
      → IsInbox t
      → IsInbox (run_signals t xs)
        × (all_received k n t xs ++ waiting k n (run_signals t xs).inbox
            ≡ waiting k n t.inbox ++ all_accepted k n t xs)
  run_fifo k n [] t w = (w, sym (append-nil (waiting k n t.inbox)))
  run_fifo k n (x ∷ xs) t w =
      let (wx, here) = step_fifo k n x t w in
      let (wr, rest) = run_fifo k n xs (after_signal x t) wx in
      (
        wr,
        append_assoc (received k n x t) (all_received k n (after_signal x t) xs)
              (waiting k n (run_signals (after_signal x t) xs).inbox)
            ∙ ap (λ l. received k n x t ++ l) rest
            ∙ sym (
                append_assoc (received k n x t) (waiting k n (after_signal x t).inbox)
                  (all_accepted k n (after_signal x t) xs))
            ∙ ap (λ l. l ++ all_accepted k n (after_signal x t) xs) here
            ∙ append_assoc (waiting k n t.inbox) (accepted k n x t)
                (all_accepted k n (after_signal x t) xs),
      )
