-- ===== src/Runtime/Run.antt =====
-- runtime.go: the whole of `run`, its deferred functions included.
use agent_harness_runtime.Base.{
  ℕ, pos, suc, ◌-◌, Bool, true, false, Option, none, some, if◌then◌else◌,
}
use agent_harness_runtime.Errors.{Error, both}
use agent_harness_runtime.Status.{created, running_model, status_eq, transition, is_terminal}
use agent_harness_runtime.Types.{Result}
use agent_harness_runtime.Ports.{execution_started, Event, Machine}
use agent_harness_runtime.Runtime.State.{terminal_event_type, State, Flow, goes, returns, M, Frame}
use agent_harness_runtime.Runtime.Effects.{persist, observe, now}
use agent_harness_runtime.Runtime.Loop.{loop}

module _ {W : Type 0} (f : Frame W) where
  abbrev pub joined : Option Error → Error → Option Error
  joined none e = some e
  joined (some a) e = some (both a e)

  abbrev pub reported :
      Result → Option Error → Option Error × State W → Result × Option Error × State W
  reported result e (none, s) = (result, e, s)
  reported result e (some failure, s) = (s.last_saved, joined e failure, s)

  -- The deferred function that saves a terminal outcome.
  unfoldable pub save_outcome : Result → Option Error → State W → Result × Option Error × State W
  save_outcome result e s =
      let named : Result = record result { execution_id = f.initial.request.execution_id } in
      let saved = persist f named e false s in
      if s.store_failed
      then (named, e, s)
      else if is_terminal result.status
      then reported named e saved
      else (named, e, s)

  abbrev pub terminal_event : ℕ → Result → Option Error → State W → Event
  terminal_event duration result e s = record {
    type = terminal_event_type result.status;
    execution_id = f.initial.request.execution_id;
    status = result.status;
    model_attempt = pos s.iterations;
    tool_call_id = "";
    tool_name = "";
    duration = pos duration;
    error = e;
  }

  -- The deferred function that reports it.
  unfoldable pub report_outcome :
      ℕ → Result × Option Error × State W → Result × Option Error × State W
  report_outcome started (result, e, s) = (
    result,
    e,
    if is_terminal result.status
        then observe f (terminal_event (now f s - started) result e s) s
        else s,
  )

  -- Both, in the order in which Go runs them.
  abbrev pub finish : ℕ → Flow W (Unit {0}) → Result × Option Error × State W
  finish started (goes _ s) = (s.last_saved, none, s)
  finish started (returns result e s) = report_outcome started (save_outcome result e s)

  -- The state in which `run` starts.
  abbrev pub initial_state : Machine W → State W
  initial_state m = record {
    exec = record { status = f.initial.result.status; transitions = f.initial.result.transitions };
    iterations = f.initial.model_iterations;
    model_retries = f.initial.model_retries;
    steps = f.initial.result.steps;
    pending_tool = none;
    last_saved = f.initial.result;
    store_failed = false;
    machine = m;
  }

  -- `if exec.status == StatusCreated { … }`.
  unfoldable pub enter : M W (Unit {0})
  enter s =
      let entered = transition s.exec running_model in
      if status_eq s.exec.status created
      then elim entered.1 [
        | none ↦ goes tt (record s { exec = entered.0 })
        | some e ↦ returns s.last_saved (some e) s
      ]
      else goes tt s

  abbrev pub entered_loop : ℕ → Flow W (Unit {0}) → Option (Flow W (Unit {0}))
  entered_loop fuel (goes _ s) = loop f fuel s
  entered_loop fuel (returns result e s) = some (returns result e s)

  abbrev pub started_event : Event
  started_event = record {
    type = execution_started;
    execution_id = f.initial.request.execution_id;
    status = created;
    model_attempt = pos 0;
    tool_call_id = "";
    tool_name = "";
    duration = pos 0;
    error = none;
  }

  -- `enough_fuel` rounds let the loop f end by its test.
  abbrev pub enough_fuel : ℕ
  enough_fuel = suc (f.initial.max_steps - f.initial.model_iterations)

  abbrev pub completed_run :
      ℕ → Option (Flow W (Unit {0})) → Option (Result × Option Error × State W)
  completed_run started none = none
  completed_run started (some flow) = some (finish started flow)

  abbrev pub run_from : ℕ → State W → Option (Result × Option Error × State W)
  run_from started s = completed_run started (entered_loop enough_fuel (enter s))

  abbrev pub after_create : ℕ → Option Error × State W → Option (Result × Option Error × State W)
  after_create started (some e, s) = some (s.last_saved, some e, s)
  after_create started (none, s) = run_from started (observe f started_event s)

  -- The method `run`: the result, the error and the final state.
  unfoldable pub run : Bool → Machine W → Option (Result × Option Error × State W)
  run create m =
      let s = initial_state m in
      let started = f.platform.now m.world in
      if create
      then after_create started (persist f s.last_saved none true s)
      else run_from started s
