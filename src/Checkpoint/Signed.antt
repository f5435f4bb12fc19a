-- ===== src/Checkpoint/Signed.antt =====
-- checkpoint.go and file_store.go (`validateCheckpoint`): the record with numbers as a file or a store
-- may hold them, and the tests on those. Beside it, `Checkpoint` has the numbers that pass.
pub mod Natural
use agent_harness_runtime.Base.{
  ℕ, ◌+◌, ◌≡◌, refl, sym, ap, ◌∙◌, ◌↔◌, String, Bool, true, false, not, ◌&&◌, ◌||◌, Option, none,
  some, List, [], ◌∷◌, map, All, ℤ, pos, negsuc, int_eq, int_lt, is_negative, is_positive,
  magnitude, arith, str_eq, if◌then◌else◌, length, ltb, leb, ◌==◌,
}
use agent_harness_runtime.Errors.{Error}
use agent_harness_runtime.Status.{Status, created, Transition}
use agent_harness_runtime.Types.{ToolCall, ToolResult, Step, Request}
use agent_harness_runtime.Checkpoint.{
  Checkpoint, schema_version, check, ◌⨾◌, invalid, contains, replaced, valid_call, check_steps,
  check_progress, check_history, history_from, check_revision, check_texts, texts, check_schema,
  check_identity, check_budget, check_retries, check_recovery, validate_recovery_state,
  validate_checkpoint,
}

pub record StoredStep : Type 0 where
  pub index : ℤ
  pub call : ToolCall
  pub result : ToolResult

pub record StoredCheckpoint : Type 0 where
  pub schema : ℤ
  pub revision : ℕ
  pub execution_id : String
  pub request : Request
  pub max_steps : ℤ
  pub model_iterations : ℤ
  pub max_model_retries : ℤ
  pub model_retries : ℤ
  pub result_id : String
  pub status : Status
  pub output : String
  pub steps : List StoredStep
  pub transitions : List Transition
  pub pending_tool : Option ToolCall
  pub error : String

abbrev pub stored_step : Step → StoredStep
stored_step s = record { index = pos s.index; call = s.call; result = s.result }

abbrev pub natural_step : StoredStep → Step
natural_step s = record { index = magnitude s.index; call = s.call; result = s.result }

-- A checkpoint as it is stored.
abbrev pub stored_form : Checkpoint → StoredCheckpoint
stored_form cp = record {
  schema = pos cp.schema;
  revision = cp.revision;
  execution_id = cp.execution_id;
  request = cp.request;
  max_steps = pos cp.max_steps;
  model_iterations = pos cp.model_iterations;
  max_model_retries = pos cp.max_model_retries;
  model_retries = pos cp.model_retries;
  result_id = cp.result.execution_id;
  status = cp.result.status;
  output = cp.result.output;
  steps = map stored_step cp.result.steps;
  transitions = cp.result.transitions;
  pending_tool = cp.pending_tool;
  error = cp.error;
}

-- The checkpoint in numbers that are not negative.
abbrev pub natural : StoredCheckpoint → Checkpoint
natural s = record {
  schema = magnitude s.schema;
  revision = s.revision;
  execution_id = s.execution_id;
  request = s.request;
  max_steps = magnitude s.max_steps;
  model_iterations = magnitude s.model_iterations;
  max_model_retries = magnitude s.max_model_retries;
  model_retries = magnitude s.model_retries;
  result = record {
    execution_id = s.result_id;
    status = s.status;
    output = s.output;
    steps = map natural_step s.steps;
    transitions = s.transitions;
  };
  pending_tool = s.pending_tool;
  error = s.error;
}

-- The loop over the completed steps.
unfoldable pub check_stored_steps : ℕ → List String → List StoredStep → Option Error
check_stored_steps i seen [] = none
check_stored_steps i seen (step ∷ steps) =
    let rest = check_stored_steps (i + 1) (step.call.id ∷ seen) steps in
    check
      (not (int_eq step.index (pos (i + 1)))
        || not (str_eq step.result.call_id step.call.id)
        || contains seen step.call.id)
      (invalid "inconsistent or duplicate tool step identity")
    ⨾ replaced (valid_call step.call) "invalid completed tool call"
    ⨾ rest

abbrev stored_schema : StoredCheckpoint → Option Error
stored_schema s =
    check (int_lt s.schema (pos 1) || int_lt (pos schema_version) s.schema)
      (invalid "unsupported schema version")

abbrev stored_budget : StoredCheckpoint → Option Error
stored_budget s =
    check
      (str_eq s.request.prompt ""
        || not (is_positive s.max_steps)
        || is_negative s.model_iterations
        || int_lt s.max_steps s.model_iterations)
      (invalid "invalid request or iteration budget")

abbrev stored_retries : StoredCheckpoint → Option Error
stored_retries s =
    check
      (is_negative s.max_model_retries
        || is_negative s.model_retries
        || int_lt s.max_model_retries s.model_retries
        || int_lt s.model_iterations s.model_retries)
      (invalid "invalid model retry budget")
    ⨾ check
        (int_lt s.schema (pos 3)
          && (not (int_eq s.max_model_retries (pos 0)) || not (int_eq s.model_retries (pos 0))))
        (invalid "retry state requires checkpoint schema version 3")

-- `validateRecoveryState`; the tests after the loop come when no number is negative.
stored_recovery : StoredCheckpoint → Option Error
unfolding check_stored_steps check_progress
stored_recovery s =
    if int_lt s.schema (pos 2)
    then none
    else check (int_lt s.model_iterations (pos (length s.steps)))
        (invalid "completed steps exceed reserved model iterations")
      ⨾ check_stored_steps 0 [] s.steps
      ⨾ check_progress (natural s)

-- `validateCheckpoint`; the revision and the texts come when no number is negative.
unfoldable pub validate_stored : (String → Bool) → StoredCheckpoint → Option Error
unfolding check_identity history_from check_history stored_recovery check_revision texts check_texts
validate_stored utf8_valid s =
    stored_schema s
    ⨾ check_identity (natural s)
    ⨾ stored_budget s
    ⨾ stored_retries s
    ⨾ check_history (history_from created s.transitions) s.status
    ⨾ stored_recovery s
    ⨾ check_revision (natural s)
    ⨾ check_texts utf8_valid (texts (natural s))
