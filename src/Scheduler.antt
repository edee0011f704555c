-- ===== src/Scheduler.antt =====
-- crates/tysel-scheduler/src/lib.rs: the bounded task queue with leases on claimed tasks.
-- The hash maps are association lists; `VecDeque` is a list with its front first. A method on
-- `&mut self` returns the scheduler beside its result, also when it fails.
pub mod Methods
pub mod Leases
pub mod Invariant
pub mod Writes
pub mod Runs
pub mod Claiming
pub mod LeaseRuns
pub mod Reclaim
pub mod Calls
pub mod Kept
pub mod Fencing
pub mod Issue
pub mod Outcomes
pub mod Release
pub mod Order
pub mod Requeue
pub mod Sweep
use tysel.Base.{
  ℕ, ◌+◌, Text, List, Bool, true, false, ◌||◌, leb, Option, none, some, Result, ok, err,
  if◌then◌else◌, length, ◌==◌, ltb, ◌&&◌, all, [], ◌∷◌,
}
use tysel.Task.{
  TaskState, queued, suspended, retrying, completed, failed, canceled, timed_out, Task,
  TaskTransitionError,
}

pub record ActiveClaim : Type 0 where
  pub generation : ℕ
  pub lease_owner : Text
  pub lease_until_ms : ℕ

pub record TaskClaim (J : Type 0) : Type 0 where
  pub task : Task J
  pub generation : ℕ
  pub lease_owner : Text
  pub lease_until_ms : ℕ

pub record Scheduler (J : Type 0) : Type 0 where
  pub capacity : ℕ
  pub queue : List ℕ
  pub tasks : List (ℕ × Task J)
  pub claims : List (ℕ × ActiveClaim)
  pub generations : List (ℕ × ℕ)

pub data SchedulerError : Type 0 where
  invalid_capacity : SchedulerError
  full : (capacity : ℕ) → SchedulerError
  duplicate unknown : (id : ℕ) → SchedulerError
  invalid_lease_owner invalid_lease_duration time_range : SchedulerError
  generation_exhausted lease_lost : SchedulerError
  invalid_claim_outcome : TaskState → SchedulerError
  invalid_transition : TaskTransitionError → SchedulerError

abbrev pub max_lease_owner_bytes : ℕ
max_lease_owner_bytes = 128

abbrev pub max_lease_ms : ℕ
max_lease_ms = 86400000

abbrev pub u64_max : ℕ
u64_max = 18446744073709551615

-- `u64::checked_add`
unfoldable pub checked_add : ℕ → ℕ → Option ℕ
checked_add a b = if leb (a + b) u64_max then some (a + b) else none

-- `next == TaskState::Queued`
unfoldable pub is_queued : TaskState → Bool
is_queued queued = true
is_queued _ = false

-- The states that a worker may commit by `finish_claim`.
unfoldable pub is_claim_outcome : TaskState → Bool
is_claim_outcome suspended = true
is_claim_outcome completed = true
is_claim_outcome failed = true
is_claim_outcome canceled = true
is_claim_outcome timed_out = true
is_claim_outcome _ = false

-- `matches!(next, Queued | Suspended | Retrying)`
unfoldable pub is_parked : TaskState → Bool
is_parked queued = true
is_parked suspended = true
is_parked retrying = true
is_parked _ = false

unfoldable pub is_owner_byte : ℕ → Bool
is_owner_byte b =
    (leb b'0' b && leb b b'9')
    || (leb b'A' b && leb b b'Z')
    || (leb b'a' b && leb b b'z')
    || b == b'.'
    || b == b'_'
    || b == b':'
    || b == b'@'
    || b == b'-'

unfoldable pub validate_lease_owner : Text → Result SchedulerError (Unit {0})
unfolding is_owner_byte
validate_lease_owner owner =
    if length owner == 0
      || ltb max_lease_owner_bytes (length owner)
      || (if all is_owner_byte owner then false else true)
    then err invalid_lease_owner
    else ok tt

unfoldable pub check_duration : ℕ → Result SchedulerError (Unit {0})
check_duration lease_ms =
    if lease_ms == 0 || ltb max_lease_ms lease_ms then err invalid_lease_duration else ok tt

abbrev pub after_owner : ℕ → Result SchedulerError (Unit {0}) → Result SchedulerError (Unit {0})
after_owner lease_ms (err e) = err e
after_owner lease_ms (ok _) = check_duration lease_ms

unfoldable pub validate_lease : Text → ℕ → Result SchedulerError (Unit {0})
validate_lease owner lease_ms = after_owner lease_ms (validate_lease_owner owner)

unfoldable pub new : {J : Type 0} → ℕ → Result SchedulerError (Scheduler J)
new capacity =
    if capacity == 0
    then err invalid_capacity
    else ok (record { capacity = capacity; queue = []; tasks = []; claims = []; generations = [] })
