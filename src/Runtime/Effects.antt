-- ===== src/Runtime/Effects.antt =====
-- runtime.go: what `run` does to the outside (its closure `persist`, the readings of the context, the
-- calls of the model and of a tool), `observe` of observer.go and `waitModelRetry` of model_retry.go.
use agent_harness_runtime.Base.{
  ℕ, pos, ◌-◌, String, Bool, true, false, Option, none, some, ◌∷◌, ◌==◌, if◌then◌else◌,
}
use agent_harness_runtime.Errors.{Error, Reply, error_of}
use agent_harness_runtime.Status.{running_model, running_tool, cancelled}
use agent_harness_runtime.Types.{ToolCall, Decision, ModelInput, Result, snapshot}
use agent_harness_runtime.Checkpoint.{Checkpoint, schema_version}
use agent_harness_runtime.Ports.{
  EventType, model_started, model_completed, tool_started, tool_completed, Event, ToolExecutor,
  called_model, executed, observed, Machine,
}
use agent_harness_runtime.Writing.{poll_context, write_checkpoint}
use agent_harness_runtime.Runtime.State.{State, Flow, goes, returns, M, follow, stop, Frame}

module _ {W : Type 0} (f : Frame W) where
  -- The checkpoint that `persist` builds.
  unfoldable pub checkpoint_of : State W → Result → Option Error → Checkpoint
  checkpoint_of s current cause = record {
    schema = schema_version;
    revision = 0;
    execution_id = f.initial.request.execution_id;
    request = f.initial.request;
    max_steps = f.initial.max_steps;
    model_iterations = s.iterations;
    max_model_retries = f.initial.max_model_retries;
    model_retries = s.model_retries;
    result = record current { execution_id = f.initial.request.execution_id };
    pending_tool = s.pending_tool;
    error = elim cause [ none ↦ "" | some e ↦ f.platform.error_text e ];
  }

  abbrev pub persisted : Result → Option Error × Machine W → State W → Option Error × State W
  persisted current (none, m) s = (
    none,
    record s {
      machine = m;
      last_saved = record current { execution_id = f.initial.request.execution_id };
    },
  )
  persisted current (some e, m) s = (some e, record s { machine = m; store_failed = true })

  -- The closure `persist`.
  unfoldable pub persist : Result → Option Error → Bool → State W → Option Error × State W
  persist current cause create s = elim f.runtime.store [
    | none ↦ (none, s)
    | some store ↦
        persisted current
          (write_checkpoint f.platform f.context store (checkpoint_of s current cause) create
            s.machine)
          s
  ]

  abbrev pub or_last_saved : Option Error × State W → Flow W (Unit {0})
  or_last_saved (none, s) = goes tt s
  or_last_saved (some e, s) = returns s.last_saved (some e) s

  -- `if err := persist(snapshot(exec, steps, ""), nil, false); err != nil { return lastSaved, err }`.
  unfoldable pub save_progress : M W (Unit {0})
  save_progress s = or_last_saved (persist (snapshot s.exec s.steps "") none false s)

  unfoldable pub poll : State W → Option Error × State W
  poll s = let (cause, m) = poll_context f.context s.machine in (cause, record s { machine = m })

  abbrev pub or_cancelled : Option Error × State W → Flow W (Unit {0})
  or_cancelled (none, s) = goes tt s
  or_cancelled (some e, s) = stop cancelled e s

  -- `if ctxErr := executionContextErr(ctx); ctxErr != nil { … StatusCancelled … }`.
  unfoldable pub unless_cancelled : M W (Unit {0})
  unless_cancelled s = or_cancelled (poll s)

  -- The method `observe`.
  unfoldable pub observe : Event → State W → State W
  observe event s = elim f.runtime.observer [
    | none ↦ s
    | some o ↦ record s {
      machine = record {
        world = o.on_event f.context event s.machine.world;
        log = observed event ∷ s.machine.log;
      };
    }
  ]

  abbrev pub now : State W → ℕ
  now s = f.platform.now s.machine.world

  abbrev pub model_event : EventType → ℕ → Option Error → State W → Event
  model_event type duration e s = record {
    type = type;
    execution_id = f.initial.request.execution_id;
    status = running_model;
    model_attempt = pos s.iterations;
    tool_call_id = "";
    tool_name = "";
    duration = pos duration;
    error = e;
  }

  abbrev pub tool_event : EventType → ToolCall → ℕ → Option Error → State W → Event
  tool_event type call duration e s = record {
    type = type;
    execution_id = f.initial.request.execution_id;
    status = running_tool;
    model_attempt = pos s.iterations;
    tool_call_id = call.id;
    tool_name = call.name;
    duration = pos duration;
    error = e;
  }

  -- The call of `Next`.
  unfoldable pub call_model : M W (Reply Decision)
  call_model s =
      let input : ModelInput = record { prompt = f.initial.request.prompt; steps = s.steps } in
      let (reply, w) = f.runtime.model.next f.context input s.machine.world in
      goes reply (record s {
        machine = record { world = w; log = called_model input reply ∷ s.machine.log };
      })

  -- The model's turn, between its two events.
  unfoldable pub ask_model : M W (Reply Decision)
  ask_model s =
      let s' = observe (model_event model_started 0 none s) s in
      follow (call_model s') λ reply s''.
        goes reply
          (observe (model_event model_completed (now s'' - now s') (error_of reply) s'') s'')

  -- The call of `Execute`.
  unfoldable pub call_tool : ToolExecutor W → ToolCall → M W (Reply String)
  call_tool tools call s =
      let (reply, w) = tools.execute f.context call s.machine.world in
      goes reply
        (record s { machine = record { world = w; log = executed call reply ∷ s.machine.log } })

  unfoldable pub ask_tool : ToolExecutor W → ToolCall → M W (Reply String)
  ask_tool tools call s =
      let s' = observe (tool_event tool_started call 0 none s) s in
      follow (call_tool tools call s') λ reply s''.
        goes reply
          (observe (tool_event tool_completed call (now s'' - now s') (error_of reply) s'') s'')

  -- `waitModelRetry`.
  unfoldable pub wait_model_retry : State W → Option Error × State W
  wait_model_retry s =
      let delay = f.runtime.model_retry.delay in
      let (e, w) = f.platform.wait f.context delay s.machine.world in
      if delay == 0 then (none, s) else (e, record s { machine = record s.machine { world = w } })
