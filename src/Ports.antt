-- ===== src/Ports.antt =====
-- What the runtime calls and does not implement, over an arbitrary state `W` of everything outside
-- it: contexts, stores (checkpoint.go, execution_lease.go, execution_lease_renewal.go), models and
-- tool executors (runtime.go, tool_replay.go, tool_reconciliation.go), observers and events
-- (observer.go). An optional interface, which the Go code finds by a type assertion, is a field
-- that may be `none`. Each call may change `W`, also a reading of the context: time passes.
use agent_harness_runtime.Base.{ℕ, ℤ, String, Option, none, some, List, ◌==◌, if◌then◌else◌}
use agent_harness_runtime.Errors.{Error, Reply}
use agent_harness_runtime.Status.{Status}
use agent_harness_runtime.Types.{ToolCall, Decision, ModelInput}
use agent_harness_runtime.Checkpoint.{Checkpoint}

-- A `context.Context`: `context.Cause`, `Err`, and the fencing token among its values, 0 for none.
pub record Context (W : Type 0) : Type 0 where
  pub cause : W → Option Error × W
  pub err : W → Option Error × W
  pub fencing_token : ℕ

-- `executionFencingToken`.
abbrev pub execution_fencing_token : {W : Type 0} → Context W → ℕ
execution_fencing_token ctx = ctx.fencing_token

-- `withExecutionFencingToken`.
abbrev pub with_execution_fencing_token : {W : Type 0} → Context W → ℕ → Context W
with_execution_fencing_token ctx token =
    if token == 0 then ctx else record ctx { fencing_token = token }

or_err : {W : Type 0} → Context W → Option Error × W → Option Error × W
or_err ctx (none, w) = ctx.err w
or_err ctx (some e, w) = (some e, w)

-- `executionContextErr`.
unfoldable pub execution_context_err : {W : Type 0} → Context W → W → Option Error × W
unfolding or_err
execution_context_err ctx w = or_err ctx (ctx.cause w)

-- `EventType`; `unset_event` is the empty string, `other_event` any other unknown string.
pub data EventType : Type 0 where
  execution_started model_started model_completed tool_started tool_completed : EventType
  execution_completed execution_failed execution_cancelled : EventType
  unset_event : EventType
  other_event : String → EventType

pub record Event : Type 0 where
  pub type : EventType
  pub execution_id : String
  pub status : Status
  pub model_attempt : ℤ
  pub tool_call_id : String
  pub tool_name : String
  pub duration : ℤ
  pub error : Option Error

-- `FencedCheckpointStore`.
pub record FencedStore (W : Type 0) : Type 0 where
  pub create_fenced : Context W → Checkpoint → ℕ → W → Option Error × W
  pub save_fenced : Context W → Checkpoint → ℕ → W → Option Error × W

-- What an acquisition returns: a fencing token, and the function that releases it, if there is one.
pub record Lease (W : Type 0) : Type 0 where
  pub token : ℕ
  pub release : Option (W → W)

-- `CheckpointStore` with the optional `FencedCheckpointStore`, `ExecutionLeaser`, `ExecutionLocker`
-- and the renewal interval of an `ExecutionLeaseRenewer`.
pub record Store (W : Type 0) : Type 0 where
  pub create : Context W → Checkpoint → W → Option Error × W
  pub save : Context W → Checkpoint → W → Option Error × W
  pub load : Context W → String → W → Reply Checkpoint × W
  pub fenced : Option (FencedStore W)
  pub leaser : Option (Context W → String → W → Reply (Lease W) × W)
  pub locker : Option (Context W → String → W → Reply (Option (W → W)) × W)
  pub renewal_interval : Option ℕ

-- The type is a string in Go: `other_state` is any string but the two constants.
pub data ToolOutcomeState : Type 0 where
  outcome_unknown outcome_completed : ToolOutcomeState
  other_state : String → ToolOutcomeState

pub record ToolOutcome : Type 0 where
  pub state : ToolOutcomeState
  pub output : String

-- `ToolExecutor` with the optional `ToolOutcomeReconciler` and `IdempotentToolExecutor`.
pub record ToolExecutor (W : Type 0) : Type 0 where
  pub execute : Context W → ToolCall → W → Reply String × W
  pub reconcile : Option (Context W → ToolCall → W → Reply ToolOutcome × W)
  pub replay : Option (Context W → ToolCall → W → Reply String × W)

pub record Model (W : Type 0) : Type 0 where
  pub next : Context W → ModelInput → W → Reply Decision × W

-- An `Observer` as `deliverObserver` calls it: a panic of the observer is recovered there, so that
-- all that is left of a delivery is what it did to the outside.
pub record Observer (W : Type 0) : Type 0 where
  pub on_event : Context W → Event → W → W

-- What the runtime uses of Go's library: the clock, the text of an error, the derived contexts, and
-- the `select` between a timer and a context, with `ctx.Err()` if the context was chosen.
pub record Platform (W : Type 0) : Type 0 where
  pub now : W → ℕ
  pub error_text : Error → String
  pub without_cancel : Context W → Context W
  pub with_timeout : ℕ → Context W → Context W
  pub renewing : ℕ → Context W → Context W
  pub wait : Context W → ℕ → W → Option Error × W

-- What a run does to the outside, as its log records it. `polled` is a reading of the context.
pub data Effect : Type 0 where
  polled : Option Error → Effect
  wrote : Checkpoint → Option Error → Effect
  called_model : ModelInput → Reply Decision → Effect
  executed : ToolCall → Reply String → Effect
  reconciled : ToolCall → Reply ToolOutcome → Effect
  replayed : ToolCall → Reply String → Effect
  observed : Event → Effect

-- The outside with the log of a run, newest first.
pub record Machine (W : Type 0) : Type 0 where
  pub world : W
  pub log : List Effect
