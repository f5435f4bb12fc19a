-- ===== src/Timeouts.antt =====
-- callback_timeout.go: a model and a tool executor whose callbacks have a deadline. A wrapper is a
-- model or an executor again; its `cancel` changes nothing that is read afterwards.
pub mod Laws
use agent_harness_runtime.Base.{ℕ, Bool, true, false, String, Option, none, some, if◌then◌else◌}
use agent_harness_runtime.Errors.{
  Sentinel, Error, sentinel, both, is, Reply, ok, err, model_timeout, tool_timeout,
  tool_replay_unsupported, context_deadline_exceeded,
}
use agent_harness_runtime.Types.{ToolCall, Decision, ModelInput}
use agent_harness_runtime.Ports.{
  Context, ToolExecutor, ToolOutcome, outcome_unknown, Model, Platform,
}

-- `callbackTimeoutError`.
abbrev pub callback_timeout_error : Sentinel → Error
callback_timeout_error kind = both (sentinel kind) (sentinel context_deadline_exceeded)

-- `errors.Is(err, context.DeadlineExceeded)`, also of a nil error.
abbrev pub deadline_exceeded : Option Error → Bool
deadline_exceeded none = false
deadline_exceeded (some e) = is e context_deadline_exceeded

-- What is returned where the callback's context has the error `o`.
abbrev pub in_time {ℓ} :
    {A : Type ℓ} {W : Type 0} → Sentinel → Reply A → Option Error × W → Reply A × W
in_time kind reply (o, w) =
    (if deadline_exceeded o then err (callback_timeout_error kind) else reply, w)

-- The caller's own context comes first.
abbrev pub unless_ended {ℓ} :
    {A : Type ℓ} {W : Type 0} → Sentinel → Context W → Reply A → Option Error × W → Reply A × W
unless_ended kind child reply (some e, w) = (err e, w)
unless_ended kind child reply (none, w) = in_time kind reply (child.err w)

abbrev pub after_callback {ℓ} :
    {A : Type ℓ} {W : Type 0} → Sentinel → Context W → Context W → Reply A × W → Reply A × W
after_callback kind ctx child (reply, w) = unless_ended kind child reply (ctx.err w)

module _ {W : Type 0} (p : Platform W) where
  -- `timeoutModel`.
  unfoldable pub timeout_model : Model W → ℕ → Model W
  timeout_model inner timeout = record {
    next = λ ctx input w.
        let child = p.with_timeout timeout ctx in
        after_callback model_timeout ctx child (inner.next child input w);
  }

  -- `executeWithTimeout`.
  unfoldable pub execute_with_timeout :
      ℕ → Context W → (Context W → W → Reply String × W) → W → Reply String × W
  execute_with_timeout timeout ctx callback w =
      let child = p.with_timeout timeout ctx in
      after_callback tool_timeout ctx child (callback child w)

  -- `Replay` of the wrapper, by whether the wrapped executor has one.
  abbrev pub replay_with_timeout :
      ℕ
      → Option (Context W → ToolCall → W → Reply String × W)
      → Context W
      → ToolCall
      → W
      → Reply String × W
  replay_with_timeout timeout none ctx call w = (err (sentinel tool_replay_unsupported), w)
  replay_with_timeout timeout (some replay) ctx call w =
      execute_with_timeout timeout ctx (λ child. replay child call) w

  -- `ReconcileToolOutcome` of the wrapper: no deadline of its own.
  abbrev pub reconcile_through :
      Option (Context W → ToolCall → W → Reply ToolOutcome × W)
      → Context W
      → ToolCall
      → W
      → Reply ToolOutcome × W
  reconcile_through none ctx call w = (ok (record { state = outcome_unknown; output = "" }), w)
  reconcile_through (some reconcile) ctx call w = reconcile ctx call w

  -- `timeoutToolExecutor`, which has both optional methods.
  unfoldable pub timeout_tool_executor : ToolExecutor W → ℕ → ToolExecutor W
  timeout_tool_executor inner timeout = record {
    execute = λ ctx call. execute_with_timeout timeout ctx (λ child. inner.execute child call);
    reconcile = some (reconcile_through inner.reconcile);
    replay = some (replay_with_timeout timeout inner.replay);
  }
