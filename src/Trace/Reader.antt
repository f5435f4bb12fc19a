-- ===== src/Trace/Reader.antt =====
-- trace_reader.go: the validation of records and `InspectTrace`.
use agent_harness_runtime.Base.{
  ℤ, pos, int_eq, is_negative, int_lt, ℕ, ◌+◌, String, Bool, true, false, not, ◌&&◌, Option, none,
  some, List, [], ◌∷◌, str_eq, ◌==◌, if◌then◌else◌, length,
}
use agent_harness_runtime.Errors.{
  Error, sentinel, detail, both, opaque, Reply, ok, err, invalid_request, invalid_trace,
}
use agent_harness_runtime.Status.{
  Status, created, running_model, running_tool, completed, failed, cancelled, unset, status_eq,
}
use agent_harness_runtime.Ports.{
  EventType, execution_started, model_started, model_completed, tool_started, tool_completed,
  execution_completed, execution_failed, execution_cancelled, unset_event, other_event,
}
use agent_harness_runtime.Trace.{event_type_eq, TraceRecord, trace_schema_version}

unfoldable pub known_trace_event : EventType → Bool
known_trace_event unset_event = false
known_trace_event (other_event s) = false
known_trace_event _ = true

unfoldable pub valid_trace_event_status : EventType → Status → Bool
valid_trace_event_status execution_started status = status_eq status created
valid_trace_event_status model_started status = status_eq status running_model
valid_trace_event_status model_completed status = status_eq status running_model
valid_trace_event_status tool_started status = status_eq status running_tool
valid_trace_event_status tool_completed status = status_eq status running_tool
valid_trace_event_status execution_completed status = status_eq status completed
valid_trace_event_status execution_failed status = status_eq status failed
valid_trace_event_status execution_cancelled status = status_eq status cancelled
valid_trace_event_status _ status = false

unfoldable pub terminal_trace_event : EventType → Bool
terminal_trace_event execution_completed = true
terminal_trace_event execution_failed = true
terminal_trace_event execution_cancelled = true
terminal_trace_event _ = false

abbrev is_zero_time : Option ℕ → Bool
is_zero_time none = true
is_zero_time (some t) = false

-- `validateTraceRecord`.
unfoldable pub validate_trace_record : TraceRecord → ℕ → Option Error
unfolding known_trace_event valid_trace_event_status
validate_trace_record r expected =
    if not (int_eq r.schema_version (pos trace_schema_version))
    then some (opaque "schema version")
    else if not (r.sequence == expected)
    then some (opaque "sequence")
    else if is_zero_time r.recorded_at
    then some (opaque "recorded_at is required")
    else if not (known_trace_event r.type)
    then some (opaque "unknown event type")
    else if not (valid_trace_event_status r.type r.status)
    then some (opaque "invalid status")
    else if is_negative r.model_attempt
    then some (opaque "model_attempt must not be negative")
    else if is_negative r.duration_nanos
    then some (opaque "duration_ns must not be negative")
    else if is_negative r.http_status
    then some (opaque "http_status must not be negative")
    else if not (int_eq r.http_status (pos 0))
        && not (str_eq r.error_code "model_provider_http_error")
    then some (opaque "http_status requires model_provider_http_error")
    else none

pub record TraceInspection : Type 0 where
  pub record_count : ℕ
  pub execution_id : String
  pub started_at : Option ℕ
  pub last_recorded_at : Option ℕ
  pub model_attempts : ℤ
  pub tool_calls : ℕ
  pub last_status : Status
  pub complete : Bool
  pub terminal_status : Status
  pub error_code : String
  pub http_status : ℤ

abbrev trace_error : Error → Error
trace_error e = both (sentinel invalid_trace) e

-- What one record adds to the summary before the test for a terminal event.
abbrev pub noticed : TraceInspection → TraceRecord → TraceInspection
noticed i r = record i {
  last_recorded_at = r.recorded_at;
  last_status = r.status;
  model_attempts =
      if int_lt i.model_attempts r.model_attempt then r.model_attempt else i.model_attempts;
  tool_calls = if event_type_eq r.type tool_started then i.tool_calls + 1 else i.tool_calls;
}

abbrev pub concluded : TraceInspection → TraceRecord → TraceInspection
concluded i r = record i {
  complete = true;
  terminal_status = r.status;
  error_code = r.error_code;
  http_status = r.http_status;
}

-- The loop of `InspectTrace` over the records from an index on.
unfoldable pub inspect_from : ℕ → TraceInspection → List TraceRecord → Reply TraceInspection
unfolding validate_trace_record terminal_trace_event
inspect_from index i [] = ok i
inspect_from index i (r ∷ rest) =
    let going = inspect_from (index + 1) (noticed i r) rest in
    let ending = inspect_from (index + 1) (concluded (noticed i r) r) rest in
    elim (validate_trace_record r (index + 1)) [
      | some e ↦ err (trace_error e)
      | none ↦
          if not (str_eq r.execution_id i.execution_id)
          then err (trace_error (opaque "execution ID changed"))
          else if not (terminal_trace_event r.type)
          then going
          else if not (index + 1 == i.record_count)
          then err (trace_error (opaque "terminal event is not last"))
          else ending
    ]

-- The summary before the loop.
abbrev pub empty_inspection : TraceRecord → ℕ → TraceInspection
empty_inspection r count = record {
  record_count = count;
  execution_id = r.execution_id;
  started_at = r.recorded_at;
  last_recorded_at = none;
  model_attempts = pos 0;
  tool_calls = 0;
  last_status = unset;
  complete = false;
  terminal_status = unset;
  error_code = "";
  http_status = pos 0;
}

-- `InspectTrace`.
unfoldable pub inspect_trace : List TraceRecord → Reply TraceInspection
unfolding inspect_from
inspect_trace [] = err (detail (sentinel invalid_trace) "trace contains no records")
inspect_trace (r ∷ rest) = inspect_from 0 (empty_inspection r (length (r ∷ rest))) (r ∷ rest)

abbrev pub if_none : Option String → String → String
if_none none id = id
if_none (some first) id = first

abbrev pub with_record : TraceRecord → Reply (List TraceRecord) → Reply (List TraceRecord)
with_record r (err e) = err e
with_record r (ok rest) = ok (r ∷ rest)

-- The loop of `ReadTrace` over what the decoder returns up to the end of the file: the ID is that of the
-- first record.
unfoldable pub read_from : ℕ → Option String → List (Reply TraceRecord) → Reply (List TraceRecord)
unfolding validate_trace_record
read_from index known [] = ok []
read_from index known (err e ∷ rest) = err (trace_error e)
read_from index known (ok r ∷ rest) =
    let below = read_from (index + 1) (some (if_none known r.execution_id)) rest in
    elim (validate_trace_record r (index + 1)) [
      | some e ↦ err (trace_error e)
      | none ↦
          if not (str_eq r.execution_id (if_none known r.execution_id))
          then err (trace_error (opaque "execution ID changed"))
          else with_record r below
    ]

-- `ReadTrace`, of a file that is there or not.
unfoldable pub read_trace : String → Reply (List (Reply TraceRecord)) → Reply (List TraceRecord)
unfolding read_from
read_trace path opened =
    if str_eq path ""
    then err (detail (sentinel invalid_request) "trace path is required")
    else elim opened [ err e ↦ err e | ok decoded ↦ read_from 0 none decoded ]
