-- ===== src/Examples/Traces.antt =====
-- trace_reader.go and trace_diff.go: the theorems on two traces.
use agent_harness_runtime.Base.{
  pos, map, false, ◌≡◌, ◌↔◌, refl, inl, String, true, none, some, List, [], ◌∷◌,
}
use agent_harness_runtime.Errors.{ok}
use agent_harness_runtime.Status.{unset, created, running_tool}
use agent_harness_runtime.Ports.{execution_started, tool_started}
use agent_harness_runtime.Trace.{TraceRecord}
use agent_harness_runtime.Trace.Diff.{
  TraceDiff, trace_event_signature, signature_eq, divergence_from, diff_trace,
}
use agent_harness_runtime.Trace.Reader.{
  TraceInspection, known_trace_event, valid_trace_event_status, terminal_trace_event,
  validate_trace_record, inspect_from, inspect_trace,
}
use agent_harness_runtime.Trace.Compare.{
  Consistent, tool_starts, inspect_trace-Consistent, Consistent-inspect_trace,
  diff_trace-equivalent,
}

-- A trace of an execution that stopped before it ended, and the same one of another execution.
abbrev started : String → TraceRecord
started id = record {
  schema_version = pos 1;
  sequence = 1;
  recorded_at = some 7;
  type = execution_started;
  execution_id = id;
  status = created;
  model_attempt = pos 0;
  tool_call_id = "";
  tool_name = "";
  duration_nanos = pos 0;
  error_code = "";
  http_status = pos 0;
}

abbrev searched : String → TraceRecord
searched id = record {
  schema_version = pos 1;
  sequence = 2;
  recorded_at = some 9;
  type = tool_started;
  execution_id = id;
  status = running_tool;
  model_attempt = pos 1;
  tool_call_id = id;
  tool_name = "search";
  duration_nanos = pos 0;
  error_code = "";
  http_status = pos 0;
}

abbrev trace_of : String → List TraceRecord
trace_of id = started id ∷ searched id ∷ []

trace_of-Consistent : Consistent "run-1" 0 (trace_of "run-1")
unfolding validate_trace_record known_trace_event valid_trace_event_status terminal_trace_event
trace_of-Consistent = (refl, refl, inl refl, (refl, refl, inl refl, tt))

Consistent-inspect_trace_example : (i : TraceInspection) × (inspect_trace (trace_of "run-1") ≡ ok i)
Consistent-inspect_trace_example =
    Consistent-inspect_trace (started "run-1") (searched "run-1" ∷ []) trace_of-Consistent

abbrev summary : String → TraceInspection
summary id = record {
  record_count = 2;
  execution_id = id;
  started_at = some 7;
  last_recorded_at = some 9;
  model_attempts = pos 1;
  tool_calls = 1;
  last_status = running_tool;
  complete = false;
  terminal_status = unset;
  error_code = "";
  http_status = pos 0;
}

inspected : inspect_trace (trace_of "run-1") ≡ ok (summary "run-1")
unfolding inspect_trace inspect_from validate_trace_record known_trace_event
    valid_trace_event_status terminal_trace_event
inspected = refl

inspect_trace-Consistent_example :
    Consistent "run-1" 0 (trace_of "run-1") × (1 ≡ tool_starts (trace_of "run-1"))
inspect_trace-Consistent_example =
    inspect_trace-Consistent (started "run-1") (searched "run-1" ∷ []) (summary "run-1") inspected

abbrev same : TraceDiff
same = record {
  equivalent = true;
  left = summary "run-1";
  right = summary "run-2";
  model_attempt_delta = pos 0;
  tool_call_delta = pos 0;
  first_divergence = none;
}

compared : diff_trace (trace_of "run-1") (trace_of "run-2") ≡ ok same
unfolding diff_trace inspect_trace inspect_from validate_trace_record known_trace_event
    valid_trace_event_status terminal_trace_event divergence_from signature_eq
compared = refl

diff_trace-equivalent_example :
    (true ≡ true)
    ↔ (map trace_event_signature (trace_of "run-1") ≡ map trace_event_signature (trace_of "run-2"))
diff_trace-equivalent_example =
    diff_trace-equivalent (trace_of "run-1") (trace_of "run-2") same compared
