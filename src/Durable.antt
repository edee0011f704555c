-- ===== src/Durable.antt =====
-- crates/tysel-durable/src/lib.rs and execution.rs: the records, errors and tables of the durable
-- store. A table with a primary key is a map; the event log and the signal inbox are lists in
-- order of insertion. JSON values and their text are the interface `Json` (serde_json).
pub mod Tx
pub mod Replay
pub mod History
pub mod Load
pub mod Log
pub mod Appends
pub mod Loading
pub mod Kinds
pub mod Commits
pub mod Conflicts
pub mod Replays
pub mod Through
pub mod Wakeups
pub mod Leasing
pub mod Overwrites
pub mod Holding
pub mod Granting
pub mod Signals
pub mod Signalling
pub mod Inbox
pub mod Polls
pub mod Deliveries
pub mod Fifo
pub mod Programs
pub mod Executions
pub mod Completions
pub mod Catalog
pub mod Quota
pub mod Pruning
pub mod CatalogRuns
pub mod Runs
pub mod Fencing
pub mod Superseded
use tysel.Base.{
  ℕ, Text, Option, none, some, List, Bool, true, false, codes, text_eq, if◌then◌else◌, ◌≡◌,
}

pub data EventKind : Type 0 where
  step effect sleep signal retry now random : EventKind

-- `serde_json`: values, the text of a value, the value of a text, and `==` on values.
pub record Json : Type 1 where
  pub Value : Type 0
  pub to_text : Value → Text
  pub parse : Text → Option Value
  pub value_eq : Value → Value → Bool

pub record NewEvent (V : Type 0) : Type 0 where
  pub kind : EventKind
  pub key : Text
  pub payload : V
  pub recorded_at_ms : ℕ

pub record TaskEvent (V : Type 0) : Type 0 where
  pub task_id : ℕ
  pub sequence : ℕ
  pub kind : EventKind
  pub key : Text
  pub payload : V
  pub recorded_at_ms : ℕ
  pub payload_json : Text

pub record Wakeup : Type 0 where
  pub task_id : ℕ
  pub sequence : ℕ
  pub wake_at_ms : ℕ

pub record WakeupClaim : Type 0 where
  pub task_id : ℕ
  pub sequence : ℕ
  pub wake_at_ms : ℕ
  pub lease_owner : Text
  pub lease_until_ms : ℕ

pub record SignalWait : Type 0 where
  pub task_id : ℕ
  pub sequence : ℕ
  pub signal_name : Text

pub record ExecutionClaim : Type 0 where
  pub task_id : ℕ
  pub owner : Text
  pub generation : ℕ
  pub lease_until_ms : ℕ
  pub wakeup : Option WakeupClaim

-- The errors that the modelled methods return.
pub data DurableError : Type 0 where
  event_key_too_large event_payload_too_large : DurableError
  history_event_limit history_byte_limit : DurableError
  history_conflict : (expected actual : ℕ) → DurableError
  integer_range : (field : Text) → DurableError
  task_completed : (task_id : ℕ) → DurableError
  execution_lease_lost invalid_lease_owner invalid_signal_name : DurableError
  signal_wait_conflict wakeup_claim_required signal_inbox_limit : DurableError
  admission_conflict invalid_idempotency_key : DurableError
  task_suspended program_conflict program_in_use : (task_id : ℕ) → DurableError
  invalid_program program_limit program_byte_limit invalid_program_digest : DurableError
  invalid_program_kind : Text → DurableError
  -- A `CHECK` or key constraint of the schema.
  sqlite : DurableError
  invalid_event_kind : Text → DurableError
  json_error : DurableError

unfoldable pub as_str : EventKind → Text
as_str step = codes "step"
as_str effect = codes "effect"
as_str sleep = codes "sleep"
as_str signal = codes "signal"
as_str retry = codes "retry"
as_str now = codes "now"
as_str random = codes "random"

unfoldable pub parse : Text → Option EventKind
unfolding text_eq
parse raw =
    if text_eq raw (codes "step")
    then some step
    else if text_eq raw (codes "effect")
    then some effect
    else if text_eq raw (codes "sleep")
    then some sleep
    else if text_eq raw (codes "signal")
    then some signal
    else if text_eq raw (codes "retry")
    then some retry
    else if text_eq raw (codes "now")
    then some now
    else if text_eq raw (codes "random")
    then some random
    else none

pub record EventRow : Type 0 where
  pub task_id : ℕ
  pub sequence : ℕ
  pub kind : Text
  pub event_key : Text
  pub payload : Text
  pub recorded_at_ms : ℕ

pub record WakeupRow : Type 0 where
  pub sequence : ℕ
  pub wake_at_ms : ℕ
  pub lease_owner : Option Text
  pub lease_until_ms : Option ℕ

pub record HistoryStats : Type 0 where
  pub event_count : ℕ
  pub payload_bytes : ℕ

pub record SignalRow : Type 0 where
  pub id : ℕ
  pub task_id : ℕ
  pub signal_name : Text
  pub payload : Text
  pub sent_at_ms : ℕ

pub record WaitRow : Type 0 where
  pub sequence : ℕ
  pub signal_name : Text

pub data RunState : Type 0 where
  ready running suspended failed completed : RunState

pub record ExecutionRow : Type 0 where
  pub state : RunState
  pub generation : ℕ
  pub owner : Option Text
  pub lease_until_ms : Option ℕ
  pub admission_key : Option Text
  pub request_hash : Option Text

pub record ReceiptRow : Type 0 where
  pub task_id : ℕ
  pub request_key : Text
  pub signal_name : Text
  pub payload : Text
  pub signal_id : ℕ

pub record ProgramRow : Type 0 where
  pub program_kind : Text
  pub source : Text
  pub source_sha256 : Text
  pub registered_at_ms : ℕ

pub record CompletionRow : Type 0 where
  pub next_sequence : ℕ
  pub result_json : Text
  pub completed_at_ms : ℕ

-- The single row of `durable_program_stats`.
pub record ProgramStats : Type 0 where
  pub active_count : ℕ
  pub active_bytes : ℕ

pub record Tables : Type 0 where
  pub events : List EventRow
  pub stats : List (ℕ × HistoryStats)
  pub wakeups : List (ℕ × WakeupRow)
  pub waits : List (ℕ × WaitRow)
  pub inbox : List SignalRow
  pub last_signal_id : ℕ
  pub executions : List (ℕ × ExecutionRow)
  pub receipts : List ReceiptRow
  pub programs : List (ℕ × ProgramRow)
  pub program_stats : ProgramStats
  pub completions : List (ℕ × CompletionRow)

abbrev pub max_event_key_bytes : ℕ
max_event_key_bytes = 256

abbrev pub max_event_payload_bytes : ℕ
max_event_payload_bytes = 1048576

abbrev pub max_history_events : ℕ
max_history_events = 10000

abbrev pub max_history_bytes : ℕ
max_history_bytes = 16777216

abbrev pub max_pending_signals : ℕ
max_pending_signals = 1000

abbrev pub max_lease_owner_bytes : ℕ
max_lease_owner_bytes = 128

abbrev pub i64_max : ℕ
i64_max = 9223372036854775807

abbrev pub max_durable_programs : ℕ
max_durable_programs = 10000

abbrev pub max_durable_program_bytes : ℕ
max_durable_program_bytes = 1048576

abbrev pub max_durable_program_total_bytes : ℕ
max_durable_program_total_bytes = 67108864

-- `sha2`: the digest of a text, and its hexadecimal form.
pub record Sha256 : Type 0 where
  pub digest : Text → Text
  pub hex_digest : Text → Text

pub data DurableProgramKind : Type 0 where
  script module_kind : DurableProgramKind

pub record DurableProgram : Type 0 where
  pub task_id : ℕ
  pub kind : DurableProgramKind
  pub source : Text
  pub source_sha256 : Text
  pub registered_at_ms : ℕ

pub record TaskCompletion (V : Type 0) : Type 0 where
  pub task_id : ℕ
  pub next_sequence : ℕ
  pub value : V
  pub completed_at_ms : ℕ
