-- ===== src/Checkpoint.antt =====
-- checkpoint.go (the record and its revision), recovery.go (`validateRecoveryState`) and file_store.go
-- (`validateCheckpoint`). An `int` is a natural number here: the tests for negative values, which only a
-- file or a store not written by this code can hold, stand in the definitions and are never met; Signed has the
-- record and the tests with integers. `utf8_valid` is the library's `utf8.ValidString`.
pub mod History
pub mod Validity
pub mod Specification
pub mod Updates
pub mod Revision
pub mod Terminal
pub mod Signed
use agent_harness_runtime.Base.{
  ℕ, suc, ◌+◌, ◌%◌, ◌^◌, String, Bool, true, false, not, ◌&&◌, ◌||◌, Option, none, some, List, [],
  ◌∷◌, ◌++◌, str_eq, ltb, leb, ◌==◌, if◌then◌else◌, length, get_last?,
}
use agent_harness_runtime.Errors.{Error, sentinel, detail, index_out_of_range, invalid_checkpoint}
use agent_harness_runtime.Status.{
  Status, created, running_model, running_tool, completed, failed, cancelled, unset, status_eq,
  Transition, valid_transition, is_terminal,
}
use agent_harness_runtime.Types.{
  ToolCall, tool_call, Decision, validate_decision, Step, Request, Result,
}

abbrev pub schema_version : ℕ
schema_version = 3

pub record Checkpoint : Type 0 where
  pub schema : ℕ
  pub revision : ℕ  -- uint64
  pub execution_id : String
  pub request : Request
  pub max_steps : ℕ
  pub model_iterations : ℕ
  pub max_model_retries : ℕ
  pub model_retries : ℕ
  pub result : Result
  pub pending_tool : Option ToolCall
  pub error : String

abbrev pub count : (Transition → Bool) → List Transition → ℕ
count p [] = 0
count p (t ∷ ts) = (if p t then 1 else 0) + count p ts

abbrev pub starts_tool : Transition → Bool
starts_tool t = status_eq t.to running_tool

abbrev pub finishes_tool : Transition → Bool
finishes_tool t = status_eq t.from running_tool && status_eq t.to running_model

-- `checkpointRevision`, in uint64.
unfoldable pub checkpoint_revision : Checkpoint → ℕ
checkpoint_revision cp =
    (1
      + cp.model_iterations
      + cp.model_retries
      + count (λ t. starts_tool t || finishes_tool t) cp.result.transitions
      + (if is_terminal cp.result.status then 1 else 0))
    % 2 ^ 64

-- An early return with an error, and the code after it.
abbrev pub check : Bool → Error → Option Error
check b e = if b then some e else none

infixr 3 ◌⨾◌
abbrev pub ◌⨾◌ : Option Error → Option Error → Option Error
none ⨾ rest = rest
some e ⨾ rest = some e

abbrev pub invalid : String → Error
invalid reason = detail (sentinel invalid_checkpoint) reason

-- `seen[id]`.
unfoldable pub contains : List String → String → Bool
contains [] id = false
contains (x ∷ xs) id = str_eq x id || contains xs id

abbrev pub call_ids : List Step → List String
call_ids [] = []
call_ids (s ∷ ss) = s.call.id ∷ call_ids ss

abbrev pub valid_call : ToolCall → Option Error
valid_call call = validate_decision (record { kind = tool_call; output = ""; call = call })

-- An error of `Validate` becomes the reason given.
abbrev replaced : Option Error → String → Option Error
replaced none reason = none
replaced (some e) reason = some (invalid reason)

-- The loop over the completed steps: `i` is the loop's index, `seen` its map.
unfoldable pub check_steps : ℕ → List String → List Step → Option Error
check_steps i seen [] = none
check_steps i seen (step ∷ steps) =
    let rest = check_steps (i + 1) (step.call.id ∷ seen) steps in
    check
      (not (step.index == i + 1)
        || not (str_eq step.result.call_id step.call.id)
        || contains seen step.call.id)
      (invalid "inconsistent or duplicate tool step identity")
    ⨾ replaced (valid_call step.call) "invalid completed tool call"
    ⨾ rest

unfoldable pub check_pending : Option ToolCall → ℕ → List Step → Option Error
check_pending none iterations steps = none
check_pending (some call) iterations steps =
    replaced (valid_call call) "invalid pending tool call"
    ⨾ check (contains (call_ids steps) call.id || leb iterations (length steps))
        (invalid "pending tool has no distinct reserved model decision")

abbrev pub pending_count : Option ToolCall → ℕ
pending_count none = 0
pending_count (some call) = 1

check_terminal : Option Transition → ℕ → Option Error
check_terminal none pending = some index_out_of_range
check_terminal (some last) pending =
    check (if status_eq last.from running_tool then not (pending == 1) else pending == 1)
      (invalid "terminal pending tool does not match its prior state")

-- The `switch` on the status.
check_status : Status → Checkpoint → ℕ → Option Error
unfolding check_terminal
check_status created cp pending =
    check (not (cp.model_iterations == 0) || not (cp.model_retries == 0) || not (pending == 0))
      (invalid "created execution has progress")
check_status running_model cp pending =
    check (not (pending == 0)) (invalid "model state has a pending tool")
check_status running_tool cp pending =
    check (not (pending == 1)) (invalid "tool state has no pending call")
check_status completed cp pending =
    check (not (pending == 0) || leb cp.model_iterations (length cp.result.steps))
      (invalid "completion has no final model decision")
check_status failed cp pending =
    check (str_eq cp.error "") (invalid "terminal error text is missing")
    ⨾ check_terminal (get_last? cp.result.transitions) pending
check_status cancelled cp pending =
    check (str_eq cp.error "") (invalid "terminal error text is missing")
    ⨾ check_terminal (get_last? cp.result.transitions) pending
check_status unset cp pending = none

-- The tests of `validateRecoveryState` after its loop.
check_progress : Checkpoint → Option Error
unfolding check_pending check_status
check_progress cp =
    let steps = cp.result.steps in
    let pending = pending_count cp.pending_tool in
    let started = count starts_tool cp.result.transitions in
    let finished = count finishes_tool cp.result.transitions in
    check_pending cp.pending_tool cp.model_iterations steps
    ⨾ check (not (finished == length steps) || not (started == finished + pending))
        (invalid "tool history does not match transitions")
    ⨾ check_status cp.result.status cp pending
    ⨾ check (not (status_eq cp.result.status completed) && not (str_eq cp.result.output ""))
        (invalid "noncompleted execution has final output")
    ⨾ check
        (not (status_eq cp.result.status failed)
          && not (status_eq cp.result.status cancelled)
          && not (str_eq cp.error ""))
        (invalid "nonfailed execution has error text")

-- `validateRecoveryState`.
unfoldable pub validate_recovery_state : Checkpoint → Option Error
unfolding check_steps check_progress
validate_recovery_state cp =
    check (ltb cp.model_iterations (length cp.result.steps))
      (invalid "completed steps exceed reserved model iterations")
    ⨾ check_steps 0 [] cp.result.steps
    ⨾ check_progress cp

-- The loop over the transition history: the status it ends in, `none` for an invalid transition.
unfoldable pub history_from : Status → List Transition → Option Status
history_from status [] = some status
history_from status (t ∷ ts) =
    let rest = history_from t.to ts in
    if not (status_eq t.from status) || not (valid_transition status t.to) then none else rest

check_history : Option Status → Status → Option Error
check_history none status = some (invalid "invalid transition history")
check_history (some s) status =
    check (not (status_eq s status)) (invalid "status does not match transition history")

call_texts : ToolCall → List String
call_texts call = call.id ∷ call.name ∷ call.arguments ∷ []

pending_texts : Option ToolCall → List String
unfolding call_texts
pending_texts none = []
pending_texts (some call) = call_texts call

step_texts : List Step → List String
unfolding call_texts
step_texts [] = []
step_texts (s ∷ ss) = call_texts s.call ++ (s.result.call_id ∷ s.result.output ∷ step_texts ss)

pub texts : Checkpoint → List String
unfolding pending_texts step_texts
texts cp =
    (cp.execution_id ∷ cp.request.prompt ∷ cp.result.output ∷ cp.error ∷ [])
    ++ (pending_texts cp.pending_tool ++ step_texts cp.result.steps)

check_texts : (String → Bool) → List String → Option Error
check_texts utf8_valid [] = none
check_texts utf8_valid (value ∷ values) =
    let rest = check_texts utf8_valid values in
    check (not (utf8_valid value)) (invalid "checkpoint strings must be valid UTF-8") ⨾ rest

-- The tests of `validateCheckpoint`, in its order.
check_schema : Checkpoint → Option Error
check_schema cp =
    check (ltb cp.schema 1 || ltb schema_version cp.schema) (invalid "unsupported schema version")

check_identity : Checkpoint → Option Error
check_identity cp =
    check
      (str_eq cp.execution_id ""
        || not (str_eq cp.execution_id cp.request.execution_id)
        || not (str_eq cp.execution_id cp.result.execution_id))
      (invalid "inconsistent execution ID")

check_budget : Checkpoint → Option Error
check_budget cp =
    check
      (str_eq cp.request.prompt ""
        || leb cp.max_steps 0
        || ltb cp.model_iterations 0
        || ltb cp.max_steps cp.model_iterations)
      (invalid "invalid request or iteration budget")

check_retries : Checkpoint → Option Error
check_retries cp =
    check
      (ltb cp.max_model_retries 0
        || ltb cp.model_retries 0
        || ltb cp.max_model_retries cp.model_retries
        || ltb cp.model_iterations cp.model_retries)
      (invalid "invalid model retry budget")
    ⨾ check (ltb cp.schema 3 && (not (cp.max_model_retries == 0) || not (cp.model_retries == 0)))
        (invalid "retry state requires checkpoint schema version 3")

check_recovery : Checkpoint → Option Error
unfolding validate_recovery_state
check_recovery cp = if leb 2 cp.schema then validate_recovery_state cp else none

check_revision : Checkpoint → Option Error
unfolding checkpoint_revision
check_revision cp =
    check (not (cp.revision == 0) && not (cp.revision == checkpoint_revision cp))
      (invalid "checkpoint revision does not match durable progress")

-- `validateCheckpoint`.
unfoldable pub validate_checkpoint : (String → Bool) → Checkpoint → Option Error
unfolding check_schema check_identity check_budget check_retries history_from check_history
    check_recovery check_revision texts check_texts
validate_checkpoint utf8_valid cp =
    check_schema cp
    ⨾ check_identity cp
    ⨾ check_budget cp
    ⨾ check_retries cp
    ⨾ check_history (history_from created cp.result.transitions) cp.result.status
    ⨾ check_recovery cp
    ⨾ check_revision cp
    ⨾ check_texts utf8_valid (texts cp)
