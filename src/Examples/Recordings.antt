-- ===== src/Examples/Recordings.antt =====
-- trace.go: the theorem on the recording of two events, in a file that is a list of records.
use agent_harness_runtime.Base.{◌≡◌, refl, arith, pos, none, List, [], ◌∷◌, ◌++◌, map, All}
use agent_harness_runtime.Errors.{ok}
use agent_harness_runtime.Status.{created, running_model}
use agent_harness_runtime.Ports.{Event, execution_started, model_started}
use agent_harness_runtime.Trace.{TraceRecord, classify_trace_error}
use agent_harness_runtime.Trace.Reader.{read_trace, known_trace_event, valid_trace_event_status}
use agent_harness_runtime.Trace.Recorder.{TraceFile, new_recorder, on_event, record_all}
use agent_harness_runtime.Trace.Recorder.Recorded.{Matches, Reportable, record_all-read}

abbrev file : TraceFile (List TraceRecord) TraceRecord
file = record {
  absolute = λ path w. (ok path, w);
  create = λ path w. (none, w);
  sync_parent = λ path w. (none, w);
  discard = λ path w. w;
  marshal = λ r. ok r;
  append = λ r w. (none, w ++ r ∷ []);
  sync = λ w. (none, w);
  close = λ w. (none, w);
  now = λ w. 7;
}

abbrev events : List Event
events =
    record {
      type = execution_started;
      execution_id = "run-1";
      status = created;
      model_attempt = pos 0;
      tool_call_id = "";
      tool_name = "";
      duration = pos 0;
      error = none;
    }
    ∷ record {
      type = model_started;
      execution_id = "run-1";
      status = running_model;
      model_attempt = pos 1;
      tool_call_id = "";
      tool_name = "";
      duration = pos 0;
      error = none;
    }
    ∷ []

events-Reportable : All (Reportable "run-1") events
unfolding known_trace_event valid_trace_event_status classify_trace_error
events-Reportable =
    ((refl, refl, refl, refl, refl, refl), ((refl, refl, refl, refl, refl, refl), tt))

without_error : (record_all file events new_recorder []).0.error ≡ none
unfolding on_event
without_error = refl

abbrev lines : List TraceRecord → List TraceRecord
lines w = w

appends :
    (r line : TraceRecord) (w : List TraceRecord)
    → file.marshal r ≡ ok line
    → (file.append line w).0 ≡ none
    → lines (file.append line w).1 ≡ lines w ++ r ∷ []
appends r line w q h = cc

record_all-read_example :
    let written = (record_all file events new_recorder []).1 in
    (read_trace "trace.jsonl" (ok (map (λ r. ok r) written)) ≡ ok written)
    × Matches file.now 0 "run-1" written events
record_all-read_example =
    record_all-read file lines appends (λ w. refl) "run-1" events [] events-Reportable (omega arith)
      refl without_error
