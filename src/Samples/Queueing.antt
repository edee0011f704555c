-- ===== src/Samples/Queueing.antt =====
-- Tests of the scheduler: two tasks in a queue of two, the first leased to a worker.
use tysel.Base.{ℕ, ◌≡◌, refl, List, [], ◌∷◌, Option, none, some, Text, lookup, insert, remove}
use tysel.Task
use tysel.Task.{
  Task, TaskMeta, TaskTrigger, TaskState, agent, created, queued, running, completed, waiting_io,
  canceled, timed_out, is_terminal, can_transition_to, deadline_reached, begin_attempt,
}
use tysel.Scheduler
use tysel.Scheduler.{Scheduler, ActiveClaim, TaskClaim, lease_lost, SchedulerError}
use tysel.Scheduler.Methods.{enqueue, claim, peek_loop, peek_runnable}
use tysel.Scheduler.Leases.{claim_with_lease, last_generation}
use tysel.Scheduler.Calls.{Call, enqueues, leases, run, after}

abbrev pub meta_of : ℕ → TaskMeta
meta_of id = record {
  id = id;
  application_id = 97 ∷ [];
  tenant_id = none;
  idempotency_key = none;
  trace_id = none;
}

abbrev pub task_of : ℕ → Option ℕ → TaskState → ℕ → Task ℕ
task_of id deadline state attempt = record {
  meta = meta_of id;
  trigger = agent [];
  input = 0;
  state = state;
  attempt = attempt;
  deadline_ms = deadline;
}

abbrev pub worker : Text
worker = 119 ∷ 49 ∷ []

abbrev pub first_calls : List (Call ℕ)
first_calls =
    enqueues (task_of 7 none created 0)
    ∷ enqueues (task_of 8 (some 50) created 0)
    ∷ leases 10 worker 1000
    ∷ []

abbrev pub fresh : Scheduler ℕ
fresh = record { capacity = 2; queue = []; tasks = []; claims = []; generations = [] }

abbrev pub lease_of : ℕ → ActiveClaim
lease_of until = record { generation = 1; lease_owner = worker; lease_until_ms = until }

abbrev pub busy : Scheduler ℕ
busy = record {
  capacity = 2;
  queue = 8 ∷ [];
  tasks = (7, task_of 7 none running 1) ∷ (8, task_of 8 (some 50) queued 0) ∷ [];
  claims = (7, lease_of 1010) ∷ [];
  generations = (7, 1) ∷ [];
}

abbrev pub claim7 : TaskClaim ℕ
claim7 = record {
  task = task_of 7 none running 1;
  generation = 1;
  lease_owner = worker;
  lease_until_ms = 1010;
}

pub busy-run : run fresh first_calls ≡ busy
unfolding run after enqueue Task.transition Task.begin_attempt Task.can_transition_to
    claim_with_lease Scheduler.validate_lease Scheduler.validate_lease_owner
    Scheduler.check_duration Scheduler.checked_add claim peek_runnable peek_loop
    Task.deadline_reached lookup insert remove last_generation
busy-run = refl
