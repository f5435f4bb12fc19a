-- ===== src/Resume.antt =====
-- runtime.go (`Run`), recovery.go (`Resume`), tool_reconciliation.go and tool_replay.go: how an
-- execution is started or continued under ownership. A nil context is not modelled.
pub mod Evidence
pub mod Pending
pub mod Starts
pub mod Deadlines
pub mod Interrupted
use agent_harness_runtime.Base.{
  ℕ, ◌+◌, String, Bool, true, false, not, ◌&&◌, ◌||◌, Option, none, some, List, [], ◌∷◌, ◌++◌,
  str_eq, ltb, leb, ◌==◌, if◌then◌else◌, length,
}
use agent_harness_runtime.Errors.{
  Sentinel, Error, sentinel, detail, both, is, Reply, ok, err, error_of, invalid_request,
  checkpoint_store, invalid_checkpoint, recovery_unsupported, execution_terminal,
  tool_outcome_unknown, tool_replay, tool_replay_unsupported, tool_reconciliation,
}
use agent_harness_runtime.Status.{
  Status, created, running_model, running_tool, completed, failed, cancelled, unset, new_execution,
}
use agent_harness_runtime.Types.{ToolCall, Step, Request, Result, zero_result, snapshot}
use agent_harness_runtime.Checkpoint.{Checkpoint, schema_version, validate_checkpoint, invalid}
use agent_harness_runtime.Ports.{
  Context, with_execution_fencing_token, Store, ToolExecutor, ToolOutcome, ToolOutcomeState,
  outcome_unknown, outcome_completed, other_state, Platform, replayed, reconciled, Machine,
}
use agent_harness_runtime.Writing.{note, poll_context, write_checkpoint, checkpoint_write_timeout}
use agent_harness_runtime.Ownership.{
  ExecutionOwnership, acquire_execution_ownership, start_execution_lease_renewal,
}
use agent_harness_runtime.Runtime.State.{Runtime, State, Frame}
use agent_harness_runtime.Runtime.Run.{run}

abbrev because : Sentinel → String → Option Error
because s text = some (detail (sentinel s) text)

-- The checkpoint with its pending call completed.
abbrev pub completed_call : Checkpoint → ToolCall → String → Checkpoint
completed_call cp call output = record cp {
  result = record cp.result {
    status = running_model;
    steps =
        cp.result.steps
        ++ record {
          index = length cp.result.steps + 1;
          call = call;
          result = record { call_id = call.id; output = output };
        }
          ∷ [];
    transitions = cp.result.transitions ++ record { from = running_tool; to = running_model } ∷ [];
  };
  pending_tool = none;
}

module _ {W : Type 0} (p : Platform W) (r : Runtime W) where
  -- A checkpoint, an error, and the outside: what the functions for a pending tool return.
  abbrev pub Outcome : Type 0
  Outcome = Checkpoint × Option Error × Machine W

  abbrev written : Checkpoint → Checkpoint → Option Error × Machine W → Outcome
  written cp next (none, m) = (next, none, m)
  written cp next (some e, m) = (cp, some e, m)

  abbrev completing :
      Store W → Context W → Checkpoint → String → Machine W → Option ToolCall → Outcome
  completing store ctx cp output m none = (cp, none, m)
  completing store ctx cp output m (some call) =
      let next = completed_call cp call output in
      written cp next (write_checkpoint p ctx store next false m)

  -- `completePendingTool`. `Resume` has tested that there is a store.
  unfoldable pub complete_pending_tool :
      Store W → Context W → Checkpoint → String → Machine W → Outcome
  complete_pending_tool store ctx cp output m = completing store ctx cp output m cp.pending_tool

  after_replay :
      Store W → Context W → Checkpoint → Reply String → Option Error × Machine W → Outcome
  unfolding complete_pending_tool
  after_replay store ctx cp reply (some e, m) = (cp, some e, m)
  after_replay store ctx cp (ok output) (none, m) = complete_pending_tool store ctx cp output m
  after_replay store ctx cp (err e) (none, m) =
      if is e tool_replay_unsupported
      then (cp, because tool_outcome_unknown "call", m)
      else (cp, some (both (sentinel tool_replay) e), m)

  abbrev replayer : Option (ToolExecutor W) → Option (Context W → ToolCall → W → Reply String × W)
  replayer none = none
  replayer (some tools) = tools.replay

  replaying :
      Store W
      → Context W
      → Checkpoint
      → Machine W
      → Option ToolCall
      → Option (Context W → ToolCall → W → Reply String × W)
      → Outcome
  unfolding after_replay
  replaying store ctx cp m none o = (cp, none, m)
  replaying store ctx cp m (some call) none = (cp, because tool_outcome_unknown "call", m)
  replaying store ctx cp m (some call) (some replay) =
      let (reply, m') =
        note (λ a n. record n { log = replayed call a ∷ n.log }) (replay ctx call m.world) m in
      after_replay store ctx cp reply (poll_context ctx m')

  -- `replayPendingTool`.
  unfoldable pub replay_pending_tool : Store W → Context W → Checkpoint → Machine W → Outcome
  unfolding replaying
  replay_pending_tool store ctx cp m = replaying store ctx cp m cp.pending_tool (replayer r.tools)

  by_state : Store W → Context W → Checkpoint → ToolOutcomeState → String → Machine W → Outcome
  unfolding complete_pending_tool replay_pending_tool
  by_state store ctx cp outcome_unknown output m =
      if str_eq output ""
      then replay_pending_tool store ctx cp m
      else (cp, because tool_reconciliation "unknown call returned output", m)
  by_state store ctx cp outcome_completed output m = complete_pending_tool store ctx cp output m
  by_state store ctx cp (other_state s) output m =
      (cp, because tool_reconciliation "unknown state", m)

  after_reconcile :
      Store W → Context W → Checkpoint → Reply ToolOutcome → Option Error × Machine W → Outcome
  unfolding by_state
  after_reconcile store ctx cp reply (some e, m) = (cp, some e, m)
  after_reconcile store ctx cp (err e) (none, m) =
      (cp, some (both (sentinel tool_reconciliation) e), m)
  after_reconcile store ctx cp (ok outcome) (none, m) =
      by_state store ctx cp outcome.state outcome.output m

  abbrev reconciler :
      Option (ToolExecutor W) → Option (Context W → ToolCall → W → Reply ToolOutcome × W)
  reconciler none = none
  reconciler (some tools) = tools.reconcile

  reconciling :
      Store W
      → Context W
      → Checkpoint
      → Machine W
      → Option ToolCall
      → Option (Context W → ToolCall → W → Reply ToolOutcome × W)
      → Outcome
  unfolding replay_pending_tool after_reconcile
  reconciling store ctx cp m none o = (cp, none, m)
  reconciling store ctx cp m (some call) none = replay_pending_tool store ctx cp m
  reconciling store ctx cp m (some call) (some reconcile) =
      let (reply, m') =
        note (λ a n. record n { log = reconciled call a ∷ n.log }) (reconcile ctx call m.world) m in
      after_reconcile store ctx cp reply (poll_context ctx m')

  -- `reconcilePendingTool`.
  unfoldable pub reconcile_pending_tool : Store W → Context W → Checkpoint → Machine W → Outcome
  unfolding reconciling
  reconcile_pending_tool store ctx cp m =
      reconciling store ctx cp m cp.pending_tool (reconciler r.tools)

  -- What `Run` and `Resume` return, with the outside; `none` stands for a loop out of fuel.
  abbrev pub Returned : Type 0
  Returned = Option (Result × Option Error × Machine W)

  abbrev pub fresh : W → Machine W
  fresh w = record { world = w; log = [] }

  -- The machine of a run, its log on top of the log before.
  abbrev after_run : Machine W → Option (Result × Option Error × State W) → Returned
  after_run m none = none
  after_run m (some (result, e, s)) =
      some (result, e, record { world = s.machine.world; log = s.machine.log ++ m.log })

  abbrev pub frame : Context W → Checkpoint → Frame W
  frame ctx cp = record { platform = p; runtime = r; context = ctx; initial = cp }

  -- The method `run`, from a machine that has a log already.
  abbrev pub run_on : Context W → Checkpoint → Bool → Machine W → Returned
  run_on ctx cp create m = after_run m (run (frame ctx cp) create (fresh m.world))

  -- `defer ownership.release()`.
  abbrev release_after : (W → W) → Returned → Returned
  release_after release none = none
  release_after release (some (result, e, m)) =
      some (result, e, record m { world = release m.world })

  abbrev refuse : Sentinel → String → W → Returned
  refuse s text w = some (zero_result, because s text, fresh w)

  abbrev in_lease : W → (Context W → Machine W → Returned) → Reply (Context W) → Returned
  in_lease w body (err e) = some (zero_result, some e, fresh w)
  in_lease w body (ok run_ctx) = body run_ctx (fresh w)

  -- What follows the acquisition, with `body` in the context of the lease.
  owned :
      Context W → (Context W → Machine W → Returned) → Reply (ExecutionOwnership W) × W → Returned
  owned ctx body (err e, w) = some (zero_result, some e, fresh w)
  owned ctx body (ok ownership, w) = release_after ownership.release (
      in_lease w body (
        start_execution_lease_renewal p r (with_execution_fencing_token ctx ownership.fencing_token)
          ownership.fencing_token))

  -- The checkpoint of a new execution.
  unfoldable pub initial_checkpoint : Request → Checkpoint
  unfolding snapshot
  initial_checkpoint request =
      let result = snapshot new_execution [] "" in
      record {
        schema = schema_version;
        revision = 0;
        execution_id = request.execution_id;
        request = request;
        max_steps = r.max_steps;
        model_iterations = 0;
        max_model_retries = r.model_retry.max_retries;
        model_retries = 0;
        result = record result { execution_id = request.execution_id };
        pending_tool = none;
        error = "";
      }

  abbrev has_store : Option (Store W) → Bool
  has_store none = false
  has_store (some store) = true

  -- The method `Run`.
  unfoldable pub run_request : Context W → Request → W → Returned
  unfolding owned
  run_request ctx request w =
      let acquired =
        acquire_execution_ownership r
          (p.with_timeout checkpoint_write_timeout (p.without_cancel ctx)) request.execution_id
          false w in
      if str_eq request.prompt ""
      then refuse invalid_request "prompt is required" w
      else if has_store r.store && str_eq request.execution_id ""
      then refuse invalid_request "execution ID is required with a checkpoint store" w
      else owned ctx (λ run_ctx. run_on run_ctx (initial_checkpoint request) true) acquired

  abbrev continued : Context W → Outcome → Returned
  continued ctx (cp, some e, m) = some (cp.result, some e, m)
  continued ctx (cp, none, m) = run_on ctx cp false m

  -- The tests of `Resume` after the switch on the status.
  resume_open : Store W → Context W → Checkpoint → Machine W → Returned
  unfolding reconcile_pending_tool
  resume_open store ctx cp m =
      let pending = reconcile_pending_tool store ctx cp m in
      if ltb cp.schema 2
      then some (cp.result, because recovery_unsupported "no durable model-attempt reservations", m)
      else if leb 3 cp.schema
          && ltb 0 cp.max_model_retries
          && not (r.model_retry.max_retries == cp.max_model_retries)
      then some (cp.result, because recovery_unsupported "saved model retry budget", m)
      else continued ctx pending

  by_status : Store W → Context W → Status → Checkpoint → Machine W → Returned
  unfolding resume_open
  by_status store ctx completed cp m = some (cp.result, none, m)
  by_status store ctx failed cp m = some (cp.result, because execution_terminal "failed", m)
  by_status store ctx cancelled cp m = some (cp.result, because execution_terminal "cancelled", m)
  by_status store ctx created cp m = resume_open store ctx cp m
  by_status store ctx running_model cp m = resume_open store ctx cp m
  by_status store ctx running_tool cp m = resume_open store ctx cp m
  by_status store ctx unset cp m = resume_open store ctx cp m

  module _ (utf8_valid : String → Bool) where
    -- The tests of what was loaded.
    unfoldable pub resume_loaded : Store W → Context W → String → Checkpoint → Machine W → Returned
    unfolding by_status
    resume_loaded store ctx id cp m = elim (validate_checkpoint utf8_valid cp) [
      | some e ↦ some (zero_result, some e, m)
      | none ↦
          if not (str_eq cp.execution_id id)
          then some (zero_result, some (invalid "execution ID mismatch"), m)
          else by_status store ctx cp.result.status cp m
    ]

    abbrev not_loaded : Error → Option Error × Machine W → Returned
    not_loaded e (some cause, m) = some (zero_result, some cause, m)
    not_loaded e (none, m) = some (zero_result, some (both (sentinel checkpoint_store) e), m)

    load_and_resume : Store W → String → Context W → Machine W → Returned
    unfolding resume_loaded
    load_and_resume store id ctx m =
        let loaded = store.load ctx id m.world in
        let m' : Machine W = record m { world = loaded.1 } in
        elim loaded.0 [
          | err e ↦ not_loaded e (poll_context ctx m')
          | ok cp ↦ resume_loaded store ctx id cp m'
        ]

    -- The method `Resume`.
    unfoldable pub resume : Context W → String → W → Returned
    unfolding owned load_and_resume
    resume ctx id w = elim r.store [
      | none ↦ refuse invalid_request "resume requires a checkpoint store" w
      | some store ↦
          let acquired = acquire_execution_ownership r ctx id true w in
          if str_eq id ""
          then refuse invalid_request "resume requires an execution ID" w
          else owned ctx (load_and_resume store id) acquired
    ]
