-- ===== src/Examples.antt =====
-- A runtime with a store, a model that asks for one tool call and then answers, and a tool: the theorems
-- at this input.
mod Leases
mod Traces
mod Settings
mod Databases
mod Files
mod Providers
mod Recordings
mod Renewals
use agent_harness_runtime.Base.{
  ℤ, pos, map, false, ℕ, ◌+◌, ◌*◌, length, if◌then◌else◌, ◌≤◌, ◌<◌, ◌≡◌, ◌≢◌, ◌↔◌, refl, ◌⊎◌, inl,
  String, Bool, true, none, some, List, [], ◌∷◌, ◌++◌, arith,
}
use agent_harness_runtime.Errors.{ok, err, sentinel, execution_not_found, execution_busy}
use agent_harness_runtime.Status.{
  unset, Transition, created, running_model, running_tool, completed, is_terminal, new_execution,
  valid_transition,
}
use agent_harness_runtime.Types.{
  ToolCall, Decision, final, tool_call, Step, Request, snapshot, validate_decision,
}
use agent_harness_runtime.Checkpoint.{
  Checkpoint, call_ids, checkpoint_revision, validate_checkpoint, history_from, contains,
  pending_count,
}
use agent_harness_runtime.Checkpoint.Specification.WellFormed.{
  WellFormed, validate_checkpoint-WellFormed,
}
use agent_harness_runtime.Checkpoint.Signed.{stored_form, validate_stored}
use agent_harness_runtime.Checkpoint.Signed.Natural.{validate_stored_iff}
use agent_harness_runtime.Checkpoint.Validity.{IsSound, validate_checkpoint-IsSound}
use agent_harness_runtime.Checkpoint.Revision.{checkpoint_revision_lem}
use agent_harness_runtime.Checkpoint.Terminal.{history_from-terminal}
use agent_harness_runtime.Ports.{execution_started, tool_started, Context, Store, Platform}
use agent_harness_runtime.Runtime.State.{Runtime, Frame}
use agent_harness_runtime.Runtime.Run.{run}
use agent_harness_runtime.Runtime.Log.{
  Distinct, executed_ids, model_calls, last_write, WritesValid, RevisionsRise, ModelCallsReserved,
  ToolCallsSaved,
}
use agent_harness_runtime.Runtime.Invariant.{stored, newest_result, is_some}
use agent_harness_runtime.Runtime.Promises.{
  Gives, run-ToolCallsSaved, run-ModelCallsReserved, run-Distinct, run-RevisionsRise,
  run-newest_result, run-completed,
}
use agent_harness_runtime.Resume.{
  initial_checkpoint, run_request, resume_loaded, reconcile_pending_tool,
}
use agent_harness_runtime.Resume.Evidence.{Settled}
use agent_harness_runtime.Resume.Pending.{reconcile_pending_tool-Settled}
use agent_harness_runtime.Resume.Starts.{
  Answers, initial_checkpoint-IsSound, resume_loaded-Answers, run_request-Answers,
}
use agent_harness_runtime.Trace.{TraceRecord}
use agent_harness_runtime.Trace.Diff.{
  TraceDiff, trace_event_signature, signature_eq, divergence_from, diff_trace,
}
use agent_harness_runtime.Trace.Reader.{
  TraceInspection, known_trace_event, valid_trace_event_status, terminal_trace_event,
  validate_trace_record, inspect_from, inspect_trace,
}
use agent_harness_runtime.Trace.Compare.{
  Consistent, tool_starts, inspect_trace-Consistent, Consistent-inspect_trace,
  diff_trace-equivalent,
}
use agent_harness_runtime.MemoryLeaseStore.{
  MemoryLeaseStore, acquire_execution_lease, renew_execution_lease, write_fenced, load,
  check_memory_lease_context,
}
use agent_harness_runtime.MemoryLeaseStore.Steps.{done, next, acquires, writes}
use agent_harness_runtime.MemoryLeaseStore.Fencing.{stale_worker-refused}
use agent_harness_runtime.MemoryLeaseStore.Writes.{
  StoredValid, Advances, Steps-Advances, acquired-exclusive,
}

-- The world counts the writes.
abbrev pub platform : Platform ℕ
platform = record {
  now = λ w. w;
  error_text = λ e. "error";
  without_cancel = λ ctx. ctx;
  with_timeout = λ n ctx. ctx;
  renewing = λ n ctx. ctx;
  wait = λ ctx n w. (none, w);
}

abbrev pub context : Context ℕ
context = record { cause = λ w. (none, w); err = λ w. (none, w); fencing_token = 0 }

abbrev pub store : Store ℕ
store = record {
  create = λ ctx cp w. (none, w + 1);
  save = λ ctx cp w. (none, w + 1);
  load = λ ctx id w. (err (sentinel execution_not_found), w);
  fenced = none;
  leaser = none;
  locker = none;
  renewal_interval = none;
}

abbrev pub call : ToolCall
call = record { id = "call-1"; name = "search"; arguments = "{}" }

abbrev decide : List Step → Decision
decide [] = record { kind = tool_call; output = ""; call = call }
decide (s ∷ ss) = record { kind = final; output = "answer"; call = call }

abbrev pub runtime : Runtime ℕ
runtime = record {
  store = some store;
  model = record { next = λ ctx input w. (ok (decide input.steps), w) };
  tools = some (record { execute = λ ctx c w. (ok "found", w); reconcile = none; replay = none });
  observer = none;
  max_steps = 3;
  model_retry = record { max_retries = 1; delay = 0 };
}

abbrev pub request : Request
request = record { execution_id = "run-1"; prompt = "find it" }

abbrev pub utf8_valid : String → Bool
utf8_valid t = true

abbrev frame : Frame ℕ
frame = record {
  platform = platform;
  runtime = runtime;
  context = context;
  initial = initial_checkpoint platform runtime request;
}

frame-IsSound : IsSound utf8_valid (record frame.initial { revision = 0 })
frame-IsSound =
    initial_checkpoint-IsSound platform runtime utf8_valid (λ t. refl) (λ e. refl) request refl refl
      (omega arith)

frame-small : frame.initial.max_steps ≤ 1152921504606846976
unfolding initial_checkpoint
frame-small = omega arith

frame-idle : frame.initial.pending_tool ≡ none
unfolding initial_checkpoint
frame-idle = refl

frame-resumable :
    (frame.initial.result.status ≡ created) ⊎ (frame.initial.result.status ≡ running_model)
unfolding initial_checkpoint new_execution snapshot
frame-resumable = inl refl

run-ToolCallsSaved_example :
    Gives
      (λ result e s. ToolCallsSaved (stored frame) s.machine.log)
      (run frame true (record { world = 0; log = [] }))
run-ToolCallsSaved_example =
    run-ToolCallsSaved frame utf8_valid (λ t. refl) (λ e. refl) frame-small frame-IsSound frame-idle
      frame-resumable true 0

run-ModelCallsReserved_example :
    Gives
      (λ result e s.
        ModelCallsReserved (stored frame) frame.initial.model_iterations s.machine.log
        × (frame.initial.model_iterations + model_calls s.machine.log ≤ frame.initial.max_steps))
      (run frame true (record { world = 0; log = [] }))
run-ModelCallsReserved_example =
    run-ModelCallsReserved frame utf8_valid (λ t. refl) (λ e. refl) frame-small frame-IsSound
      frame-idle frame-resumable true 0

run-Distinct_example :
    Gives
      (λ result e s. Distinct (call_ids frame.initial.result.steps ++ executed_ids s.machine.log))
      (run frame true (record { world = 0; log = [] }))
run-Distinct_example =
    run-Distinct frame utf8_valid (λ t. refl) (λ e. refl) frame-small frame-IsSound frame-idle
      frame-resumable true 0

run-RevisionsRise_example :
    Gives
      (λ result e s. WritesValid utf8_valid s.machine.log × RevisionsRise s.machine.log)
      (run frame true (record { world = 0; log = [] }))
run-RevisionsRise_example =
    run-RevisionsRise frame utf8_valid (λ t. refl) (λ e. refl) frame-small frame-IsSound frame-idle
      frame-resumable true 0

run-newest_result_example :
    Gives
      (λ result e s. result ≡ newest_result frame (last_write s.machine.log))
      (run frame true (record { world = 0; log = [] }))
run-newest_result_example =
    run-newest_result frame utf8_valid (λ t. refl) (λ e. refl) frame-small frame-IsSound frame-idle
      frame-resumable true 0 refl

run-completed_example :
    Gives
      (λ result e s. (result.status ≡ completed) ⊎ (is_some e ≡ true))
      (run frame true (record { world = 0; log = [] }))
run-completed_example =
    run-completed frame utf8_valid (λ t. refl) (λ e. refl) frame-small frame-IsSound frame-idle
      frame-resumable true 0

run_request-Answers_example : Answers (run_request platform runtime context request 0)
run_request-Answers_example =
    run_request-Answers platform runtime utf8_valid (λ t. refl) (λ e. refl) context request 0 refl
      (omega arith) (omega arith)

-- A checkpoint that waits for the tool.
abbrev pub pending : Checkpoint
pending = record {
  schema = 3;
  revision = 0;
  execution_id = "run-1";
  request = request;
  max_steps = 3;
  model_iterations = 1;
  max_model_retries = 1;
  model_retries = 0;
  result = record {
    execution_id = "run-1";
    status = running_tool;
    output = "";
    steps = [];
    transitions =
        record { from = created; to = running_model }
        ∷ record { from = running_model; to = running_tool }
        ∷ [];
  };
  pending_tool = some call;
  error = "";
}

resume_loaded-Answers_example : Answers (
    resume_loaded platform runtime utf8_valid store context "run-1" pending
      (record { world = 0; log = [] }))
resume_loaded-Answers_example =
    resume_loaded-Answers platform runtime utf8_valid (λ t. refl) (λ e. refl) store context "run-1"
      pending (record { world = 0; log = [] }) (omega arith) (omega arith)

reconcile_pending_tool-Settled_example :
    Settled platform runtime call [] pending (
      reconcile_pending_tool platform runtime store context pending
        (record { world = 0; log = [] }))
reconcile_pending_tool-Settled_example =
    reconcile_pending_tool-Settled platform runtime store context pending call
      (record { world = 0; log = [] }) refl

pub pending-valid : validate_checkpoint utf8_valid pending ≡ none
unfolding validate_checkpoint valid_transition validate_decision contains
pending-valid = refl

pending-IsSound : IsSound utf8_valid pending
pending-IsSound = validate_checkpoint-IsSound utf8_valid pending (omega arith) pending-valid

checkpoint_revision_lem_example :
    checkpoint_revision pending
    ≡ 1
      + 1
      + 0
      + 2 * length pending.result.steps
      + pending_count pending.pending_tool
      + (if is_terminal pending.result.status then 1 else 0)
checkpoint_revision_lem_example =
    checkpoint_revision_lem utf8_valid pending pending-IsSound (omega arith)

validate_checkpoint-WellFormed_example :
    (validate_checkpoint utf8_valid pending ≡ none) ↔ WellFormed utf8_valid pending
validate_checkpoint-WellFormed_example =
    validate_checkpoint-WellFormed utf8_valid pending (omega arith)

validate_stored_iff_example : (validate_stored utf8_valid (stored_form pending) ≡ none) ↔ (
    (cp : Checkpoint) × (stored_form pending ≡ stored_form cp)
    × (validate_checkpoint utf8_valid cp ≡ none))
validate_stored_iff_example = validate_stored_iff utf8_valid (stored_form pending) refl

abbrev no_transition : List Transition
no_transition = []

abbrev first_transition : Transition
first_transition = record { from = created; to = running_model }

abbrev last_transition : Transition
last_transition = record { from = running_model; to = completed }

short_history : history_from created (first_transition ∷ last_transition ∷ []) ≡ some completed
unfolding history_from valid_transition
short_history = refl

history_from-terminal_example : no_transition ≡ []
history_from-terminal_example =
    history_from-terminal created completed (first_transition ∷ []) last_transition no_transition
      short_history refl
