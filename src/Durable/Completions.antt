-- ===== src/Durable/Completions.antt =====
-- Completion of a task, and the pruning of completed tasks.
use tysel.Base.{
  ℕ, ◌+◌, Text, Option, none, some, List, [], ◌∷◌, Bool, true, false, not, leb, ltb, ◌==◌,
  if◌then◌else◌, ◌&&◌, ◌||◌, min, length, take, lookup, insert, remove, retain, ok, err, codes,
}
use tysel.Durable.{
  Json, ExecutionClaim, CompletionRow, TaskCompletion, ProgramRow, ReceiptRow, Tables, completed,
  task_completed, task_suspended, event_payload_too_large, history_conflict, json_error,
  max_event_payload_bytes, max_history_bytes,
}
use tysel.Durable.Tx.{Tx, ◌>>=◌, ◌>>◌, return, fail, refuse_if, ok_or, read, write, to_sql_integer}
use tysel.Durable.History.{guard_execution, next_sequence, stats_or_zero}
use tysel.Durable.Signals.{is_some, pending_bytes}
use tysel.Durable.Programs.{retire_program}
use tysel.Durable.Executions.{end_execution}

-- `completion_time`, at the clock's reading `now_ms`.
unfoldable pub completion_time : ℕ → ℕ → Option ℕ → ℕ → Tx ℕ
completion_time task timestamp none now_ms t = ok (timestamp, t)
completion_time task timestamp (some until) now_ms t =
    if leb until now_ms then err (task_suspended task) else ok (now_ms, t)

-- The clock as `finish_task` reads it.
pub record FinishClock : Type 0 where
  pub before : ℕ
  pub first : ℕ
  pub second : ℕ
  pub after : ℕ

abbrev pub is_suspended : ℕ → Tables → Bool
is_suspended task t = is_some (lookup task t.wakeups) || is_some (lookup task t.waits)

abbrev pub add_completion : ℕ → CompletionRow → Tables → Tables
add_completion task r t = record t { completions = insert task r t.completions }

unfoldable pub complete_program :
    Option ExecutionClaim → FinishClock → ℕ → ℕ → Text → ℕ → Option ℕ → ProgramRow → Tx Bool
unfolding completion_time
complete_program execution clock task expected result completed_at_ms until p = do
  actual ← read (λ t. next_sequence task t.events)
  refuse_if (not (actual == expected)) (history_conflict expected actual)
  waits ← read (is_suspended task)
  refuse_if waits (task_suspended task)
  at ← completion_time task completed_at_ms until clock.first
  recorded ← to_sql_integer at (codes "completed_at_ms")
  write (
      add_completion task
        (record { next_sequence = actual; result_json = result; completed_at_ms = recorded }))
  retire_program (length p.source)
  completion_time task at until clock.second
  guard_execution execution task clock.after
  write (end_execution task completed)
  return true

abbrev pub complete_found :
    Option ExecutionClaim → FinishClock → ℕ → ℕ → Text → ℕ → Option ℕ → Option ProgramRow → Tx Bool
complete_found execution clock task expected result completed_at_ms until none = return false
complete_found execution clock task expected result completed_at_ms until (some p) =
    complete_program execution clock task expected result completed_at_ms until p

unfoldable pub complete_open :
    Option ExecutionClaim → FinishClock → ℕ → ℕ → Text → ℕ → Option ℕ → Tx Bool
unfolding complete_program
complete_open execution clock task expected result completed_at_ms until = do
  guard_execution execution task clock.before
  found ← read (λ t. lookup task t.programs)
  complete_found execution clock task expected result completed_at_ms until found

module _ (json : Json) where
  open json use {Value, to_text}

  abbrev pub is_same_value : Value → Option Value → Tx Bool
  is_same_value value none = fail json_error
  is_same_value value (some v) = return (json.value_eq v value)

  -- A completion that is there already: an equal one is confirmed, any other is refused. The
  -- stored value is read only if the numbers agree.
  abbrev pub confirm : ℕ → ℕ → Value → CompletionRow → Tx Bool
  confirm task expected value r = do
    number ← to_sql_integer expected (codes "next_sequence")
    refuse_if (not (r.next_sequence == number)) (task_completed task)
    same ← is_same_value value (json.parse r.result_json)
    refuse_if (not same) (task_completed task)
    return true

  abbrev pub finish_beside :
      Option ExecutionClaim
      → FinishClock
      → ℕ
      → ℕ
      → Value
      → ℕ
      → Option ℕ
      → Option CompletionRow
      → Tx Bool
  finish_beside execution clock task expected value completed_at_ms until (some r) =
      confirm task expected value r
  finish_beside execution clock task expected value completed_at_ms until none =
      complete_open execution clock task expected (to_text value) completed_at_ms until

  unfoldable pub finish_task :
      Option ExecutionClaim → FinishClock → ℕ → ℕ → Value → ℕ → Option ℕ → Tx Bool
  unfolding complete_open
  finish_task execution clock task expected value completed_at_ms until = do
    refuse_if (ltb max_event_payload_bytes (length (to_text value))) event_payload_too_large
    old ← read (λ t. lookup task t.completions)
    finish_beside execution clock task expected value completed_at_ms until old

  abbrev pub completion_of : ℕ → CompletionRow → Tx (Option (TaskCompletion Value))
  completion_of task r = do
    value ← ok_or (json.parse r.result_json) json_error
    return (
        some (record {
          task_id = task;
          next_sequence = r.next_sequence;
          value = value;
          completed_at_ms = r.completed_at_ms;
        }))

  abbrev pub completion_found : ℕ → Option CompletionRow → Tx (Option (TaskCompletion Value))
  completion_found task none = return none
  completion_found task (some r) = completion_of task r

  unfoldable pub completion : ℕ → Tx (Option (TaskCompletion Value))
  completion task = do found ← read (λ t. lookup task t.completions); completion_found task found

abbrev pub source_size : Option ProgramRow → ℕ
source_size none = 0
source_size (some p) = length p.source

abbrev pub receipt_size : ReceiptRow → ℕ
receipt_size r = length r.request_key + length r.signal_name + length r.payload

unfoldable pub receipt_bytes : ℕ → List ReceiptRow → ℕ
receipt_bytes task [] = 0
receipt_bytes task (r ∷ rs) =
    let rest = receipt_bytes task rs in if r.task_id == task then receipt_size r + rest else rest

-- What a completed task keeps stored.
abbrev pub retained_bytes : ℕ → CompletionRow → Tables → ℕ
retained_bytes task r t =
    (stats_or_zero (lookup task t.stats)).payload_bytes
    + source_size (lookup task t.programs)
    + length r.result_json
    + pending_bytes task t.inbox
    + receipt_bytes task t.receipts

-- `ORDER BY c.completed_at_ms, c.task_id`
unfoldable pub completed_before : ℕ × CompletionRow → ℕ × CompletionRow → Bool
completed_before (i, r) (j, s) =
    ltb r.completed_at_ms s.completed_at_ms || (r.completed_at_ms == s.completed_at_ms && leb i j)

unfoldable pub insert_completed :
    ℕ × CompletionRow → List (ℕ × CompletionRow) → List (ℕ × CompletionRow)
insert_completed c [] = c ∷ []
insert_completed c (x ∷ xs) =
    let rest = insert_completed c xs in if completed_before c x then c ∷ x ∷ xs else x ∷ rest

unfoldable pub prunable : ℕ → List (ℕ × CompletionRow) → List (ℕ × CompletionRow)
prunable before_ms [] = []
prunable before_ms ((i, r) ∷ cs) =
    let rest = prunable before_ms cs in
    if ltb r.completed_at_ms before_ms then insert_completed (i, r) rest else rest

-- `DELETE FROM {table} WHERE task_id = ?1` for the seven tables.
unfoldable pub delete_task : ℕ → Tables → Tables
delete_task task t = record t {
  programs = remove task t.programs;
  events = retain (λ e. not (e.task_id == task)) t.events;
  stats = remove task t.stats;
  inbox = retain (λ s. not (s.task_id == task)) t.inbox;
  completions = remove task t.completions;
  executions = remove task t.executions;
  receipts = retain (λ r. not (r.task_id == task)) t.receipts;
}

-- The candidates with the bytes that the query found for each.
unfoldable pub weighed : Tables → List (ℕ × CompletionRow) → List (ℕ × ℕ)
weighed t [] = []
weighed t ((i, r) ∷ cs) = (i, retained_bytes i r t) ∷ weighed t cs

-- The loop over the candidates; the rest of the loop goes on from what was deleted so far.
unfoldable pub prune_candidates : ℕ → ℕ → List (ℕ × ℕ) → Tables → ℕ × Tables
prune_candidates deleted bytes [] t = (deleted, t)
prune_candidates deleted bytes ((i, size) ∷ cs) t =
    let skipped = prune_candidates deleted bytes cs t in
    let pruned = prune_candidates (deleted + 1) (bytes + size) cs (delete_task i t) in
    if ltb 0 deleted && ltb max_history_bytes (bytes + size)
    then (deleted, t)
    else if is_suspended i t
    then skipped
    else pruned

unfoldable pub prune_completed : ℕ → ℕ → Tx ℕ
unfolding prune_candidates
prune_completed before_ms limit = if limit == 0 then return 0 else (do
  before ← to_sql_integer before_ms (codes "before_ms")
  candidates ← read (λ t. weighed t (take (min limit 100) (prunable before t.completions)))
  λ t. ok (prune_candidates 0 0 candidates t))
