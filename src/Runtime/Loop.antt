-- ===== src/Runtime/Loop.antt =====
-- runtime.go: the loop of `run`.
use agent_harness_runtime.Base.{
  ℕ, zero, suc, ◌+◌, String, true, false, Option, none, some, ltb, if◌then◌else◌,
}
use agent_harness_runtime.Errors.{
  Error, sentinel, detail, during, Reply, ok, err, step_limit_exceeded, duplicate_tool_call,
  tool_executor_missing,
}
use agent_harness_runtime.Status.{running_model, running_tool, completed, failed, cancelled}
use agent_harness_runtime.Types.{
  ToolCall, Decision, DecisionKind, final, tool_call, other_kind, validate_decision, snapshot,
}
use agent_harness_runtime.Checkpoint.{contains, call_ids}
use agent_harness_runtime.Ports.{ToolExecutor}
use agent_harness_runtime.Retry.{can_retry_model}
use agent_harness_runtime.Runtime.State.{
  State, Flow, goes, returns, M, ◌>>=◌, ◌>>◌, modify, force, stop, step_to, append_step, Frame,
}
use agent_harness_runtime.Runtime.Effects.{
  save_progress, poll, unless_cancelled, ask_model, ask_tool, wait_model_retry,
}

module _ {W : Type 0} (f : Frame W) where
  abbrev pub ended_wait : Error → Option Error × State W → Flow W (Unit {0})
  ended_wait e (none, s) = returns (snapshot s.exec s.steps "") (some e) s
  ended_wait e (some cause, s) = returns (snapshot s.exec s.steps "") (some cause) s

  abbrev pub waited : Option Error × State W → Flow W (Unit {0})
  waited (none, s) = goes tt s
  waited (some e, s) = ended_wait e (poll f (force cancelled s))

  -- The retry of a failed model call: the retry is saved before the wait, and `continue` follows.
  unfoldable pub retry : M W (Unit {0})
  retry = do
    modify (λ s. record s { model_retries = s.model_retries + 1 })
    save_progress f
    λ s. waited (wait_model_retry f s)

  unfoldable pub after_model_error : Error → M W (Unit {0})
  after_model_error e = do
    unless_cancelled f
    λ s.
        if can_retry_model e f.initial s.iterations s.model_retries
        then retry s
        else stop failed (during "model step" e) s

  -- What follows an answer of the tool.
  unfoldable pub after_tool : ToolCall → Reply String → M W (Unit {0})
  after_tool call (err e) = do unless_cancelled f; stop failed (during "execute tool" e)
  after_tool call (ok output) = do
    unless_cancelled f
    modify (append_step call output)
    step_to running_model
    modify (λ s. record s { pending_tool = none })
    save_progress f

  unfoldable pub dispatch : ToolExecutor W → ToolCall → M W (Unit {0})
  dispatch tools call = do
    step_to running_tool
    modify (λ s. record s { pending_tool = some call })
    save_progress f
    unless_cancelled f
    reply ← ask_tool f tools call
    after_tool call reply

  abbrev pub with_tools : Option (ToolExecutor W) → ToolCall → M W (Unit {0})
  with_tools none call = stop failed (sentinel tool_executor_missing)
  with_tools (some tools) call = dispatch tools call

  unfoldable pub use_tool : ToolCall → M W (Unit {0})
  use_tool call s =
      if contains (call_ids s.steps) call.id
      then stop failed (detail (sentinel duplicate_tool_call) "call ID") s
      else with_tools f.runtime.tools call s

  -- The `switch` on a decision that has been validated.
  unfoldable pub act : DecisionKind → Decision → M W (Unit {0})
  act final d = do step_to completed; λ s. returns (snapshot s.exec s.steps d.output) none s
  act tool_call d = use_tool d.call
  act (other_kind k) d = modify (λ s. s)

  abbrev pub decided : Option Error → Decision → M W (Unit {0})
  decided (some e) d = stop failed e
  decided none d = act d.kind d

  unfoldable pub after_model : Reply Decision → M W (Unit {0})
  after_model (err e) = after_model_error e
  after_model (ok d) = do unless_cancelled f; decided (validate_decision d) d

  -- One round of the loop.
  unfoldable pub iteration : M W (Unit {0})
  iteration = do
    unless_cancelled f
    modify (λ s. record s { iterations = s.iterations + 1 })
    save_progress f
    unless_cancelled f
    reply ← ask_model f
    after_model reply

  -- What follows the loop.
  unfoldable pub exhausted : M W (Unit {0})
  exhausted = do unless_cancelled f; stop failed (sentinel step_limit_exceeded)

  -- The loop on fuel; `none` means that the fuel ran out.
  unfoldable pub loop : ℕ → State W → Option (Flow W (Unit {0}))
  loop zero s = none
  loop (suc fuel) s = elim (ltb s.iterations f.initial.max_steps) [
    | false ↦ some (exhausted s)
    | true ↦ elim (iteration s) [
      | goes _ s' ↦ loop fuel s'
      | returns result e s' ↦ some (returns result e s')
    ]
  ]
