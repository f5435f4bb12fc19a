-- ===== src/Resume/Interrupted.antt =====
-- tool_reconciliation.go, tool_replay.go and callback_timeout.go: recovery with an executor that has
-- neither optional method, also under a tool deadline, whose wrapper has both.
use agent_harness_runtime.Base.{ℕ, Option, none, some, ◌≡◌, refl, sym, subst}
use agent_harness_runtime.Errors.{Error, sentinel, detail, is, tool_outcome_unknown}
use agent_harness_runtime.Types.{ToolCall}
use agent_harness_runtime.Checkpoint.{Checkpoint}
use agent_harness_runtime.Ports.{
  Context, Store, ToolExecutor, Platform, Machine, execution_context_err,
}
use agent_harness_runtime.Writing.{poll_context}
use agent_harness_runtime.Runtime.State.{Runtime}
use agent_harness_runtime.Runtime.Log.{last_write, executed_ids, model_calls}
use agent_harness_runtime.Timeouts.{timeout_tool_executor, replay_with_timeout, reconcile_through}
use agent_harness_runtime.Resume.{
  replay_pending_tool, reconcile_pending_tool, replaying, reconciling, after_replay,
  after_reconcile, by_state,
}
use agent_harness_runtime.Resume.Deadlines.{bare, timed}

-- Recovery has failed with ErrToolOutcomeUnknown, and the checkpoint is as it was; nothing was
-- written, no tool executed and the model not called.
abbrev pub FailsClosed :
    {W : Type 0} → Checkpoint → Machine W → Checkpoint × Option Error × Machine W → Type 0
FailsClosed cp m (cp', e, m') =
    (cp' ≡ cp)
    × (e ≡ some (detail (sentinel tool_outcome_unknown) "call"))
    × (last_write m'.log ≡ last_write m.log)
    × (executed_ids m'.log ≡ executed_ids m.log)
    × (model_calls m'.log ≡ model_calls m.log)

module _ {W : Type 0} (p : Platform W) (r : Runtime W) (inner : ToolExecutor W) (timeout : ℕ)
    (store : Store W) (ctx : Context W) (cp : Checkpoint) (call : ToolCall)
    (q : cp.pending_tool ≡ some call) where
  pub bare-FailsClosed :
      (m : Machine W)
      → inner.reconcile ≡ none
      → inner.replay ≡ none
      → FailsClosed cp m (reconcile_pending_tool p (bare p r inner timeout) store ctx cp m)
  unfolding reconcile_pending_tool replay_pending_tool replaying reconciling
  bare-FailsClosed m a b =
      subst
        (λ o.
          FailsClosed cp m
            (reconciling p (bare p r inner timeout) store ctx cp m o inner.reconcile))
        (sym q)
        (rw a (
          subst
            (λ o.
              FailsClosed cp m (replaying p (bare p r inner timeout) store ctx cp m o inner.replay))
            (sym q) (rw b (refl, refl, refl, refl, refl))))

  module _ (alive : (w : W) → (execution_context_err ctx w).0 ≡ none) where
    replaying-FailsClosed :
        (m : Machine W)
        → FailsClosed cp m (
            replaying p
              (timed p r inner timeout)
              store
              ctx
              cp
              m
              (some call)
              (some (replay_with_timeout p timeout none)))
    unfolding replaying after_replay poll_context is
    replaying-FailsClosed m = rw (alive m.world) (refl, refl, refl, refl, refl)

    replay-FailsClosed :
        (m : Machine W)
        → inner.replay ≡ none
        → FailsClosed cp m (replay_pending_tool p (timed p r inner timeout) store ctx cp m)
    unfolding replay_pending_tool timeout_tool_executor
    replay-FailsClosed m b =
        subst
          (λ o. FailsClosed cp m (
            replaying p (timed p r inner timeout) store ctx cp m o
              (some (replay_with_timeout p timeout inner.replay))))
          (sym q) (rw b (replaying-FailsClosed m))

    reconciling-FailsClosed :
        (m : Machine W)
        → inner.replay ≡ none
        → FailsClosed cp m (
            reconciling p
              (timed p r inner timeout)
              store
              ctx
              cp
              m
              (some call)
              (some (reconcile_through p none)))
    unfolding reconciling after_reconcile by_state poll_context
    reconciling-FailsClosed m b = rw (alive m.world) (replay-FailsClosed _ b)

    pub timed-FailsClosed :
        (m : Machine W)
        → inner.reconcile ≡ none
        → inner.replay ≡ none
        → FailsClosed cp m (reconcile_pending_tool p (timed p r inner timeout) store ctx cp m)
    unfolding reconcile_pending_tool timeout_tool_executor
    timed-FailsClosed m a b =
        subst
          (λ o. FailsClosed cp m (
            reconciling p (timed p r inner timeout) store ctx cp m o
              (some (reconcile_through p inner.reconcile))))
          (sym q) (rw a (reconciling-FailsClosed m b))
