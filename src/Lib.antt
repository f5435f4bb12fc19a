-- ===== src/Lib.antt =====
-- A model of Agent-Harness-Runtime, a Go library that runs a language model and its tools under a durable,
-- resumable and fenced execution.
--
-- The parts of the program and the files that model them:
--   Errors       the sentinel errors of all files and the wrapping that errors.Is and errors.As look through
--   Status       runtime.go: Status, validTransition, execution and its transition
--   Types        runtime.go: decisions, tool calls, steps, requests, results, snapshot
--   Checkpoint   checkpoint.go: Checkpoint, checkpointRevision; recovery.go: validateRecoveryState;
--                file_store.go: validateCheckpoint. Specification says which checkpoints are well formed;
--                History, Validity, Updates, Revision and Terminal are about these too. Checkpoint/Signed has the
--                record and validateCheckpoint with numbers that may be negative.
--   Ports        the interfaces that the runtime calls: CheckpointStore with its optional capabilities, Model,
--                ToolExecutor, Observer, contexts; and the log of what a run does to the outside
--   Writing      checkpoint.go: writeCheckpoint; Writing/Cases tells its outcomes apart
--   Retry        model_retry.go: IsTransientModelError, canRetryModel
--   Runtime      runtime.go: the method run. State holds its local variables, Effects its closure persist and
--                its calls, Loop one round and the loop, Run the deferred functions and the whole. Log,
--                Invariant, Steps, Rounds, Turns, Answers, Outcomes and Guarantees lead to Promises.
--   Ownership    execution_lease.go: acquireExecutionOwnership; execution_lease_renewal.go: the tests of
--                startExecutionLeaseRenewal
--   Executors    sandbox_executor.go and mcp_executor.go; Executors/Interrupted is about a recovery with them
--   Renewal      execution_lease_renewal.go: the goroutine that renews, and the function that stops it, as steps;
--                Renewal/Quiet is about the stop
--   Resume       runtime.go: Run; recovery.go: Resume; tool_reconciliation.go and tool_replay.go;
--                Resume/Evidence says what the log shows of a pending call
--   MemoryLeaseStore   memory_lease_store.go, with the operations of all workers as steps in MemoryLeaseStore/Steps
--   Timeouts     callback_timeout.go: the model and the tool executor with a deadline; Resume/Deadlines is
--                recovery under one
--   Setup        runtime.go: New; the options of checkpoint.go, model_retry.go, callback_timeout.go, observer.go
--   Sqlite       sqlite_store.go: rows and statements; Sqlite/Operations has the operations, Sqlite/Steps those of
--                all processes as steps. Views relates a table to a store in memory; Memory, Operations/Cases,
--                Operations/Refines, Laws, Agreement and Bounds lead to what holds.
--   FileStore    file_store.go; FileStore/Lock is file_store_lock_linux.go; FileStore/Disk says what is relied on of
--                the file system; Writes, Atomic and Reads are about what is written and read
--   OpenaiModel  openai_model.go: the configuration and the messages; OpenaiModel/Next is Next. Conversation,
--                Configured and Next/Decisions are about these.
--   Trace        trace.go: TraceRecord, classifyTraceError; Trace/Reader is trace_reader.go: InspectTrace, ReadTrace;
--                Trace/Diff is trace_diff.go: DiffTrace; what they find is in Trace/Compare.
--                Trace/Recorder is trace.go: FileTraceRecorder; Recorded is about what it writes.
--   Base, Examples     shared names; the theorems at concrete inputs
--
-- How they interact: Run and Resume acquire ownership, put the fencing token into the context and call run.
-- run saves a checkpoint before each model call and before each tool call, through writeCheckpoint, which
-- refuses to write after a lost lease. Resume loads a checkpoint, settles a pending tool call by the tool's
-- own evidence or an idempotent replay, and continues with run.
--
-- How the code is read: the outside of the runtime is an arbitrary type W, which every call may change, and
-- stores, models, tools, observers, contexts and the clock are arbitrary functions on it. What a run does is
-- recorded in a log, newest first, which nothing reads. A return from the middle of run leaves a monad. A
-- Go int is a natural number, or an integer of Base/Int where a caller, an event or a trace may give a
-- negative one. The counts of a checkpoint that a store or a file gives may be negative too, and
-- validateCheckpoint rejects those: Checkpoint/Signed has its tests on integers. Everywhere else a checkpoint
-- has natural numbers, so a decoder of a store gives an error where Go would decode a negative count and
-- reject it in the next statement, and the index of a step in a checkpoint of schema 1, which that function does
-- not look at, is natural. The uint64 of a revision and of a token wraps around at 2 ^ 64. Slices are
-- copied wherever the code keeps them, and so are lists. The loop of run recurs on fuel, one more than the
-- attempts that are left; each attempt is counted before the next round, so the loop always ends by its test.
-- An execution starts with a step budget of at most 2 ^ 60 wherever revisions are compared, which keeps them
-- far from wrapping around.
--
-- Not modelled: panics of callbacks, nil contexts of Run and Resume, the time at which a renewal ticks (in
-- the model of run, the renewal is a function of the platform that derives the run's context), cloning
-- (values are not shared), and the programs under examples. SQLite itself is outside the repository: a
-- statement is one step on a row, whose end is an argument. The calls of a file system, of HTTP, of a
-- sandbox, of an MCP client and of JSON are parameters.
mod Base
pub mod Errors
pub mod Status
pub mod Types
pub mod Checkpoint
pub mod Ports
pub mod Retry
pub mod Writing
pub mod Runtime
pub mod Ownership
pub mod Resume
mod Examples
pub mod MemoryLeaseStore
pub mod Trace
pub mod Timeouts
pub mod Setup
pub mod Sqlite
pub mod FileStore
pub mod OpenaiModel
pub mod Renewal
pub mod Executors
