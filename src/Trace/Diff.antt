-- ===== src/Trace/Diff.antt =====
-- trace_diff.go: signatures and `DiffTrace`.
use agent_harness_runtime.Base.{
  ℤ, int_eq, nat_sub, int_sub, ℕ, ◌+◌, String, Bool, true, false, ◌&&◌, Option, none, some, List,
  [], ◌∷◌, str_eq, if◌then◌else◌,
}
use agent_harness_runtime.Errors.{during, Reply, ok, err}
use agent_harness_runtime.Status.{Status, status_eq}
use agent_harness_runtime.Ports.{EventType}
use agent_harness_runtime.Trace.{event_type_eq, TraceRecord}
use agent_harness_runtime.Trace.Reader.{TraceInspection, inspect_trace}

pub record TraceEventSignature : Type 0 where
  pub type : EventType
  pub status : Status
  pub model_attempt : ℤ
  pub tool_name : String
  pub error_code : String
  pub http_status : ℤ

-- `traceEventSignature`.
abbrev pub trace_event_signature : TraceRecord → TraceEventSignature
trace_event_signature r = record {
  type = r.type;
  status = r.status;
  model_attempt = r.model_attempt;
  tool_name = r.tool_name;
  error_code = r.error_code;
  http_status = r.http_status;
}

-- `==` of two signatures.
unfoldable pub signature_eq : TraceEventSignature → TraceEventSignature → Bool
signature_eq a b =
    event_type_eq a.type b.type
    && status_eq a.status b.status
    && int_eq a.model_attempt b.model_attempt
    && str_eq a.tool_name b.tool_name
    && str_eq a.error_code b.error_code
    && int_eq a.http_status b.http_status

pub record TraceDivergence : Type 0 where
  pub sequence : ℕ
  pub left : Option TraceEventSignature
  pub right : Option TraceEventSignature

pub record TraceDiff : Type 0 where
  pub equivalent : Bool
  pub left : TraceInspection
  pub right : TraceInspection
  pub model_attempt_delta : ℤ
  pub tool_call_delta : ℤ
  pub first_divergence : Option TraceDivergence

-- The loop over the shared records, and what follows it where one trace has more.
unfoldable pub divergence_from : ℕ → List TraceRecord → List TraceRecord → Option TraceDivergence
unfolding signature_eq
divergence_from index [] [] = none
divergence_from index (l ∷ ls) [] =
    some (record { sequence = index + 1; left = some (trace_event_signature l); right = none })
divergence_from index [] (r ∷ rs) =
    some (record { sequence = index + 1; left = none; right = some (trace_event_signature r) })
divergence_from index (l ∷ ls) (r ∷ rs) =
    let rest = divergence_from (index + 1) ls rs in
    if signature_eq (trace_event_signature l) (trace_event_signature r)
    then rest
    else some (record {
      sequence = index + 1;
      left = some (trace_event_signature l);
      right = some (trace_event_signature r);
    })

abbrev is_none : Option TraceDivergence → Bool
is_none none = true
is_none (some d) = false

abbrev compared :
    List TraceRecord
    → List TraceRecord
    → Reply TraceInspection
    → Reply TraceInspection
    → Reply TraceDiff
compared ls rs (err e) right = err (during "left trace" e)
compared ls rs (ok left) (err e) = err (during "right trace" e)
compared ls rs (ok left) (ok right) =
    let divergence = divergence_from 0 ls rs in
    ok (record {
      equivalent = is_none divergence;
      left = left;
      right = right;
      model_attempt_delta = int_sub right.model_attempts left.model_attempts;
      tool_call_delta = nat_sub right.tool_calls left.tool_calls;
      first_divergence = divergence;
    })

-- `DiffTrace`.
unfoldable pub diff_trace : List TraceRecord → List TraceRecord → Reply TraceDiff
unfolding inspect_trace divergence_from
diff_trace ls rs = compared ls rs (inspect_trace ls) (inspect_trace rs)
