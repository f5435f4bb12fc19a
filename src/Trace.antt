-- ===== src/Trace.antt =====
-- trace.go (`TraceRecord`, `classifyTraceError`); Trace/Recorder has the recorder. A time is
-- `none` where it is Go's zero time.
pub mod Reader
pub mod Diff
pub mod Compare
pub mod Recorder
use agent_harness_runtime.Base.{
  ℤ, pos, negsuc, int_eq, is_negative, int_lt, nat_sub, int_sub, ℕ, suc, ◌+◌, ◌-◌, String, Bool,
  true, false, not, ◌&&◌, ◌||◌, Option, none, some, List, [], ◌∷◌, str_eq, ltb, ◌==◌, if◌then◌else◌,
  length,
}
use agent_harness_runtime.Errors.{
  Sentinel, Error, sentinel, detail, during, both, opaque, is, as_provider_http, Reply, ok, err,
  invalid_trace, model_timeout, tool_timeout, context_canceled, context_deadline_exceeded,
  step_limit_exceeded, duplicate_tool_call, invalid_decision, invalid_transition, invalid_request,
  tool_executor_missing, checkpoint_store, execution_busy, recovery_unsupported, execution_terminal,
  tool_outcome_unknown, mcp_input_required, model_adapter_config, model_provider, model_response,
}
use agent_harness_runtime.Status.{
  Status, created, running_model, running_tool, completed, failed, cancelled, unset, status_eq,
}
use agent_harness_runtime.Ports.{
  EventType, Event, execution_started, model_started, model_completed, tool_started, tool_completed,
  execution_completed, execution_failed, execution_cancelled, unset_event, other_event,
}

-- `==` of two event types.
abbrev pub event_type_eq : EventType → EventType → Bool
event_type_eq execution_started execution_started = true
event_type_eq model_started model_started = true
event_type_eq model_completed model_completed = true
event_type_eq tool_started tool_started = true
event_type_eq tool_completed tool_completed = true
event_type_eq execution_completed execution_completed = true
event_type_eq execution_failed execution_failed = true
event_type_eq execution_cancelled execution_cancelled = true
event_type_eq unset_event unset_event = true
event_type_eq (other_event a) (other_event b) = str_eq a b
event_type_eq _ _ = false

pub record TraceRecord : Type 0 where
  pub schema_version : ℤ
  pub sequence : ℕ
  pub recorded_at : Option ℕ
  pub type : EventType
  pub execution_id : String
  pub status : Status
  pub model_attempt : ℤ
  pub tool_call_id : String
  pub tool_name : String
  pub duration_nanos : ℤ
  pub error_code : String
  pub http_status : ℤ

abbrev pub trace_schema_version : ℕ
trace_schema_version = 1

-- The first sentinel of a list that the error wraps gives the code.
first_code : List (Sentinel × String) → Error → Option String
first_code [] e = none
first_code ((s, code) ∷ rest) e = if is e s then some code else first_code rest e

abbrev codes : List (Sentinel × String)
codes =
    (model_timeout, "model_timeout")
    ∷ (tool_timeout, "tool_timeout")
    ∷ (context_canceled, "context_canceled")
    ∷ (context_deadline_exceeded, "context_deadline_exceeded")
    ∷ (step_limit_exceeded, "step_limit_exceeded")
    ∷ (duplicate_tool_call, "duplicate_tool_call")
    ∷ (invalid_decision, "invalid_model_decision")
    ∷ (invalid_transition, "invalid_execution_transition")
    ∷ (invalid_request, "invalid_request")
    ∷ (tool_executor_missing, "tool_executor_missing")
    ∷ (checkpoint_store, "checkpoint_store_error")
    ∷ (execution_busy, "execution_busy")
    ∷ (recovery_unsupported, "recovery_unsupported")
    ∷ (execution_terminal, "execution_terminal")
    ∷ (tool_outcome_unknown, "tool_outcome_unknown")
    ∷ (mcp_input_required, "mcp_input_required")
    ∷ (model_adapter_config, "model_adapter_config_error")
    ∷ (model_provider, "model_provider_error")
    ∷ (model_response, "model_response_error")
    ∷ []

fallback_code : EventType → String
fallback_code model_completed = "model_callback_error"
fallback_code tool_completed = "tool_callback_error"
fallback_code _ = "execution_error"

abbrev by_code : Option String → EventType → String × ℤ
by_code none type = (fallback_code type, pos 0)
by_code (some code) type = (code, pos 0)

abbrev by_http : Option ℤ → Error → EventType → String × ℤ
by_http none e type = by_code (first_code codes e) type
by_http (some status) e type = ("model_provider_http_error", status)

-- `classifyTraceError`.
unfoldable pub classify_trace_error : Event → String × ℤ
unfolding first_code fallback_code
classify_trace_error event = elim event.error [
  | none ↦ ("", pos 0)
  | some e ↦ by_http (as_provider_http e) e event.type
]
