-- ===== src/Lib.antt =====
-- A model of the core of the tysel runtime, with the theorems that make it correct.
--
-- The program. An application submits tasks; the scheduler queues them, hands them to workers under
-- leases and takes them back when a lease runs out; the durable store keeps the event log of a task,
-- from which a run that was interrupted is replayed, the wakeups of tasks that sleep, the signals
-- sent to them, the catalog of programs and the leases of executions. An application is shipped as
-- a package, embedded behind a runtime executable. The scheduler works in memory on the task
-- records; the durable store works on SQLite tables. They share only the task identifiers; the
-- package format, the frames between host and worker, and the permissions of a profile stand by
-- themselves.
--
-- Where what is modelled:
--   Base          shared names, tests on numbers and text, lists, maps, results, the method monad
--   Task          crates/tysel-task/src/lib.rs: the task record and its lifecycle
--   Scheduler     crates/tysel-scheduler/src/lib.rs: types and checks; Scheduler/Methods the queue
--                 (enqueue, transition, peek_runnable, claim), Scheduler/Leases the leased claims
--                 (claim_with_lease, renew_claim, finish_claim, release_claim, requeue_expired,
--                 requeue_owner_claims, cancel). The other files below Scheduler hold proofs:
--                 Invariant, Writes, Runs, Claiming, LeaseRuns, Reclaim and Calls reduce every
--                 method to a sequence of atomic writes, each of which keeps the invariant; Kept,
--                 Fencing, Issue, Outcomes, Release, Order, Requeue and Sweep use that.
--   Durable       crates/tysel-durable/src/lib.rs with execution.rs and lifecycle.rs beside it:
--                 records, errors and tables. Durable/Tx the transactions, Durable/History
--                 appending, Durable/Load load_history, Durable/Replay the replay cursor,
--                 Durable/Wakeups the wakeups, Durable/Signals and Durable/Signalling the signals
--                 (send_signal_inner, poll_signal, register_signal_wait), Durable/Programs the
--                 program catalog (put_program_inner, remove_program, program_count,
--                 select_program), Durable/Executions admission and the leases of executions
--                 (admit, claim_run, release_run), Durable/Completions completion and retention
--                 (finish_task, completion, prune_completed). The other files hold proofs: Log,
--                 Appends, Loading, Kinds, Commits and Conflicts on the event log, Replays and
--                 Through on the cursor, Leasing, Granting, Overwrites and Holding on wakeups, Inbox, Polls,
--                 Deliveries and Fifo on signals, Catalog, Quota, Pruning and CatalogRuns on the
--                 catalog, Runs, Fencing and Superseded on executions.
--   Package       crates/tysel-package/src/tap.rs: types, limits and errors. Package/Components the
--                 component index and its blobs, Package/Envelope encode and decode,
--                 Package/Executables embed_into, extract and from_path, Package/Reports
--                 compatibility_report. Blobs, Entries, Reading, Writing, RoundTrip, Embedding,
--                 Paths, Decisions and Integrity hold proofs.
--   Ipc           crates/tysel-ipc/src/lib.rs: frames and messages; Ipc/Values the wire form of the
--                 values of crates/tysel-engine/src/lib.rs, Ipc/Streams proofs
--   Policy        crates/tysel-policy/src/lib.rs: the permissions of a profile
--   Samples       tests, and each theorem at a concrete input.
--
-- How the code corresponds. A method with `&mut self` is a function from the state to the new state
-- and a result, so that an error keeps what was written before it. A method of the store is a
-- function from the tables to a result with new tables: a transaction that fails is rolled back and
-- carries none. Each SQL statement is written as the function on tables that it denotes: `WHERE`
-- as a test of the row under its key, `MAX(sequence) + 1` as a fold, `ORDER BY` as an insertion sort
-- and `LIMIT` as `take`. Hash maps and tables with a primary key are association lists. Task
-- identifiers are numbers in their byte order. Clocks are arguments; a method that reads the clock
-- twice takes both readings. Text is the list of its bytes.
--
-- Numbers. Counters are natural numbers with the bounds of the source written out: `u32` attempts
-- saturate, `u64` times and generations go through checked additions, and numbers that SQL stores
-- are at most `i64::MAX`.
--
-- Fuel. The loop of `peek_runnable` takes one identifier off the queue in each turn but the last, so
-- the length of the queue is enough. An integer of 64 bits has at most the 20 digits that `decimal`
-- prints. Every other loop is recursion on a list or a bound.
--
-- Not modelled. JSON values and their text are the interface `Json`; a theorem that needs a payload
-- to read back from its text says so. SHA-256 is the interface `Sha256`, the crates that the package
-- format calls are the interface `Crates`, the JSON of IPC messages is `MessageJson`, and the random
-- owner token of an execution claim is an argument. The clock is taken to give times that SQL can
-- store. Locks and SQLite's own failures are left out: transactions are immediate and so run one
-- after the other. The lists of due programs, the schema's creation and its upgrade, the PostgreSQL
-- store, the engines, the variants of the IPC messages, the task RPC, manifest files and the command
-- line are not modelled.
pub mod Base
pub mod Durable
pub mod Ipc
pub mod Package
pub mod Policy
pub mod Samples
pub mod Scheduler
pub mod Task
