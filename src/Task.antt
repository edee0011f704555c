-- ===== src/Task.antt =====
-- crates/tysel-task/src/lib.rs: the task model and its lifecycle.
-- Identifiers (`u128`), counters and times are natural numbers. A text is the list of its bytes.
-- `serde_json::Value` is the parameter `J`, with its `Null` an argument of `new`.
pub mod Lifecycle
use tysel.Base.{
  ℕ, ◌+◌, Text, Bool, true, false, leb, min, Option, none, some, Result, ok, err, if◌then◌else◌,
}

pub data TaskTrigger : Type 0 where
  http : (method path : Text) → TaskTrigger
  cron : (name expression : Text) → TaskTrigger
  queue : (name handler : Text) → (message_id : Option Text) → TaskTrigger
  mcp : (tool : Text) → TaskTrigger
  agent : (name : Text) → TaskTrigger

pub data TaskState : Type 0 where
  created queued running waiting_io suspended retrying : TaskState
  completed failed canceled timed_out : TaskState

unfoldable pub is_terminal : TaskState → Bool
is_terminal completed = true
is_terminal failed = true
is_terminal canceled = true
is_terminal timed_out = true
is_terminal _ = false

unfoldable pub can_transition_to : TaskState → TaskState → Bool
can_transition_to created queued = true
can_transition_to created canceled = true
can_transition_to queued running = true
can_transition_to queued canceled = true
can_transition_to queued timed_out = true
can_transition_to running waiting_io = true
can_transition_to running suspended = true
can_transition_to running retrying = true
can_transition_to running completed = true
can_transition_to running failed = true
can_transition_to running canceled = true
can_transition_to running timed_out = true
can_transition_to waiting_io running = true
can_transition_to waiting_io suspended = true
can_transition_to waiting_io retrying = true
can_transition_to waiting_io failed = true
can_transition_to waiting_io canceled = true
can_transition_to waiting_io timed_out = true
can_transition_to suspended queued = true
can_transition_to suspended canceled = true
can_transition_to suspended timed_out = true
can_transition_to retrying queued = true
can_transition_to retrying canceled = true
can_transition_to retrying timed_out = true
can_transition_to _ _ = false

pub record TaskMeta : Type 0 where
  pub id : ℕ
  pub application_id : Text
  pub tenant_id : Option Text
  pub idempotency_key : Option Text
  pub trace_id : Option Text

pub record Task (J : Type 0) : Type 0 where
  pub meta : TaskMeta
  pub trigger : TaskTrigger
  pub input : J
  pub state : TaskState
  pub attempt : ℕ
  pub deadline_ms : Option ℕ

pub record TaskTransitionError : Type 0 where
  pub id : ℕ
  pub from_state : TaskState
  pub to_state : TaskState

abbrev pub u32_max : ℕ
u32_max = 4294967295

module _ {J : Type 0} where
  unfoldable pub new : J → TaskMeta → TaskTrigger → Option ℕ → Task J
  new null meta trigger deadline_ms = record {
    meta = meta;
    trigger = trigger;
    input = null;
    state = created;
    attempt = 0;
    deadline_ms = deadline_ms;
  }

  unfoldable pub with_input : Task J → J → Task J
  with_input t input = record t { input = input }

  -- On an error the task is as it was, so only success carries the new task.
  unfoldable pub transition : Task J → TaskState → Result TaskTransitionError (Task J)
  transition t next =
      if can_transition_to t.state next
      then ok (record t { state = next })
      else err (record { id = t.meta.id; from_state = t.state; to_state = next })

  abbrev pub count_attempt :
      Result TaskTransitionError (Task J) → Result TaskTransitionError (Task J)
  count_attempt (err e) = err e
  count_attempt (ok t) = ok (record t { attempt = min (t.attempt + 1) u32_max })

  unfoldable pub begin_attempt : Task J → Result TaskTransitionError (Task J)
  unfolding transition
  begin_attempt t = count_attempt (transition t running)

  unfoldable pub deadline_reached : Task J → ℕ → Bool
  deadline_reached t now_ms = elim t.deadline_ms [
    | none ↦ false
    | some deadline ↦ leb deadline now_ms
  ]
