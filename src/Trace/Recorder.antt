-- ===== src/Trace/Recorder.antt =====
-- trace.go: the recorder of a trace file. Its file and JSON are fields of a record, over an
-- arbitrary state W of the outside. The mutex makes each call one step; a nil recorder, which does
-- nothing, is left out.
pub mod Recorded
use agent_harness_runtime.Base.{
  ℕ, ◌+◌, ◌%◌, ◌^◌, String, Bool, true, false, ◌||◌, Option, none, some, List, [], ◌∷◌, pos, str_eq,
  if◌then◌else◌,
}
use agent_harness_runtime.Errors.{Error, sentinel, detail, during, Reply, ok, err, invalid_request}
use agent_harness_runtime.Ports.{Event}
use agent_harness_runtime.Trace.{TraceRecord, trace_schema_version, classify_trace_error}

-- What the recorder calls: `append` is the writing of a line, `now` the clock.
pub record TraceFile (W : Type 0) (B : Type 0) : Type 0 where
  pub absolute : String → W → Reply String × W
  pub create : String → W → Option Error × W
  pub sync_parent : String → W → Option Error × W
  pub discard : String → W → W
  pub marshal : TraceRecord → Reply B
  pub append : B → W → Option Error × W
  pub sync : W → Option Error × W
  pub close : W → Option Error × W
  pub now : W → ℕ

-- `FileTraceRecorder`, without its file.
pub record FileTraceRecorder : Type 0 where
  pub sequence : ℕ
  pub error : Option Error
  pub closed : Bool

abbrev pub new_recorder : FileTraceRecorder
new_recorder = record { sequence = 0; error = none; closed = false }

abbrev pub given {ℓ} : {A : Type ℓ} → Option A → Bool
given none = false
given (some a) = true

-- The record of an event.
abbrev pub record_of : ℕ → Event → ℕ → TraceRecord
record_of sequence event now =
    let code = classify_trace_error event in
    record {
      schema_version = pos trace_schema_version;
      sequence = (sequence + 1) % 2 ^ 64;
      recorded_at = some now;
      type = event.type;
      execution_id = event.execution_id;
      status = event.status;
      model_attempt = event.model_attempt;
      tool_call_id = event.tool_call_id;
      tool_name = event.tool_name;
      duration_nanos = event.duration;
      error_code = code.0;
      http_status = code.1;
    }

module _ {W : Type 0} {B : Type 0} (file : TraceFile W B) where
  abbrev parent_synced : String → Option Error × W → Reply FileTraceRecorder × W
  parent_synced path (some e, w) = (err e, file.discard path w)
  parent_synced path (none, w) = (ok new_recorder, w)

  abbrev created : String → Option Error × W → Reply FileTraceRecorder × W
  created path (some e, w) = (err e, w)
  created path (none, w) = parent_synced path (file.sync_parent path w)

  abbrev at_absolute : Reply String × W → Reply FileTraceRecorder × W
  at_absolute (err e, w) = (err e, w)
  at_absolute (ok path, w) = created path (file.create path w)

  -- `NewFileTraceRecorder`.
  unfoldable pub new_file_trace_recorder : String → W → Reply FileTraceRecorder × W
  new_file_trace_recorder path w =
      if str_eq path ""
      then (err (detail (sentinel invalid_request) "trace path is required"), w)
      else at_absolute (file.absolute path w)

  failed : FileTraceRecorder → String → Error → FileTraceRecorder
  failed r text e = record r { error = some (during text e) }

  synced : FileTraceRecorder → Option Error × W → FileTraceRecorder × W
  unfolding failed
  synced r (some e, w) = (failed r "syncing execution trace" e, w)
  synced r (none, w) = (record r { sequence = (r.sequence + 1) % 2 ^ 64 }, w)

  appended : FileTraceRecorder → Option Error × W → FileTraceRecorder × W
  unfolding failed synced
  appended r (some e, w) = (failed r "writing execution trace" e, w)
  appended r (none, w) = synced r (file.sync w)

  line_of : FileTraceRecorder → Reply B → W → FileTraceRecorder × W
  unfolding failed appended
  line_of r (err e) w = (failed r "encoding execution trace" e, w)
  line_of r (ok line) w = appended r (file.append line w)

  -- `OnEvent`.
  unfoldable pub on_event : FileTraceRecorder → Event → W → FileTraceRecorder × W
  unfolding line_of
  on_event r event w =
      if r.closed || given r.error
      then (r, w)
      else line_of r (file.marshal (record_of r.sequence event (file.now w))) w

  first_error : Option Error → String → Option Error → Option Error
  first_error (some e) text o = some e
  first_error none text none = none
  first_error none text (some e) = some (during text e)

  -- `Close`: the error, which `Err` reads too, is the one of the recorder.
  unfoldable pub close_recorder : FileTraceRecorder → W → FileTraceRecorder × W
  unfolding first_error
  close_recorder r w =
      let synced = file.sync w in
      let closed = file.close synced.1 in
      if r.closed then (r, w) else (
        record r {
          closed = true;
          error =
              first_error (first_error r.error "syncing execution trace on close" synced.0)
                "closing execution trace" closed.0;
        },
        closed.1,
      )

  -- The events of an execution, one after another.
  abbrev pub record_all : List Event → FileTraceRecorder → W → FileTraceRecorder × W
  record_all [] r w = (r, w)
  record_all (event ∷ rest) r w = let after = on_event r event w in record_all rest after.0 after.1
