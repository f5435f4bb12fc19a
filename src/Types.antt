-- ===== src/Types.antt =====
-- runtime.go: decisions, tool calls, steps, requests and results.
use agent_harness_runtime.Base.{ℕ, String, Option, none, some, List, [], str_eq, if◌then◌else◌}
use agent_harness_runtime.Errors.{Error, sentinel, detail, invalid_decision}
use agent_harness_runtime.Status.{Status, unset, Transition, Execution}

-- The Go type is a string: `other_kind` is any string but the two constants.
pub data DecisionKind : Type 0 where
  final tool_call : DecisionKind
  other_kind : String → DecisionKind

pub record ToolCall : Type 0 where
  pub id : String
  pub name : String
  pub arguments : String

pub record ToolResult : Type 0 where
  pub call_id : String
  pub output : String

pub record Decision : Type 0 where
  pub kind : DecisionKind
  pub output : String
  pub call : ToolCall

pub validate_kind : DecisionKind → ToolCall → Option Error
validate_kind final call = none
validate_kind tool_call call =
    if str_eq call.id ""
    then some (detail (sentinel invalid_decision) "tool call ID is required")
    else if str_eq call.name ""
    then some (detail (sentinel invalid_decision) "tool name is required")
    else none
validate_kind (other_kind k) call =
    some (detail (sentinel invalid_decision) "unknown decision kind")

-- The method `Decision.Validate`, nil as `none`.
unfoldable pub validate_decision : Decision → Option Error
unfolding validate_kind
validate_decision d = validate_kind d.kind d.call

pub record Step : Type 0 where
  pub index : ℕ
  pub call : ToolCall
  pub result : ToolResult

pub record ModelInput : Type 0 where
  pub prompt : String
  pub steps : List Step

pub record Request : Type 0 where
  pub execution_id : String
  pub prompt : String

pub record Result : Type 0 where
  pub execution_id : String
  pub status : Status
  pub output : String
  pub steps : List Step
  pub transitions : List Transition

-- `Result{}`.
abbrev pub zero_result : Result
zero_result = record {
  execution_id = "";
  status = unset;
  output = "";
  steps = [];
  transitions = [];
}

-- `snapshot`. A copy of a slice is the list itself: no list of the model is ever written in place.
unfoldable pub snapshot : Execution → List Step → String → Result
snapshot exec steps output = record {
  execution_id = "";
  status = exec.status;
  output = output;
  steps = steps;
  transitions = exec.transitions;
}
