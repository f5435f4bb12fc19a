-- ===== src/Resume/Deadlines.antt =====
-- callback_timeout.go with tool_reconciliation.go and tool_replay.go: recovery under a tool deadline.
use agent_harness_runtime.Base.{
  ℕ, none, some, Option, String, str_eq, ◌∷◌, Bool-cases, ◌≡◌, refl, inl, inr,
}
use agent_harness_runtime.Errors.{Error, is, Reply, ok, err}
use agent_harness_runtime.Types.{ToolCall}
use agent_harness_runtime.Checkpoint.{Checkpoint}
use agent_harness_runtime.Ports.{
  Context, execution_context_err, Store, ToolExecutor, ToolOutcome, ToolOutcomeState,
  outcome_unknown, outcome_completed, other_state, Platform, Machine, reconciled,
}
use agent_harness_runtime.Writing.{poll_context}
use agent_harness_runtime.Runtime.State.{Runtime}
use agent_harness_runtime.Resume.{
  complete_pending_tool, replay_pending_tool, reconcile_pending_tool, after_replay, after_reconcile,
  by_state, replaying, reconciling,
}
use agent_harness_runtime.Timeouts.{timeout_tool_executor, replay_with_timeout, reconcile_through}

module _ {W : Type 0} (p : Platform W) where
  module _ (r : Runtime W) (inner : ToolExecutor W) (timeout : ℕ) where
    -- The runtime with the executor, and with the executor under a deadline.
    abbrev pub bare : Runtime W
    bare = record r { tools = some inner }

    abbrev pub timed : Runtime W
    timed = record r { tools = some (timeout_tool_executor p inner timeout) }

    -- The same checkpoint and the same error.
    abbrev Same :
        Checkpoint × Option Error × Machine W → Checkpoint × Option Error × Machine W → Type 0
    Same a b = (a.0 ≡ b.0) × (a.1 ≡ b.1)

    module _ (store : Store W) (ctx : Context W)
        (alive : (w : W) → (execution_context_err ctx w).0 ≡ none) where
      replaying-Same :
          (cp : Checkpoint) (m n : Machine W) (o : Option ToolCall)
          → Same
              (replaying p timed store ctx cp m o (some (replay_with_timeout p timeout none)))
              (replaying p bare store ctx cp n o none)
      unfolding replaying after_replay poll_context is
      replaying-Same cp m n none = (refl, refl)
      replaying-Same cp m n (some call) = rw (alive m.world) (refl, refl)

      replay-Same :
          (cp : Checkpoint) (m n : Machine W)
          → inner.replay ≡ none
          → Same
              (replay_pending_tool p timed store ctx cp m)
              (replay_pending_tool p bare store ctx cp n)
      unfolding replay_pending_tool timeout_tool_executor
      replay-Same cp m n q = rw q (replaying-Same cp m n cp.pending_tool)

      by_state-Same :
          (cp : Checkpoint) (m : Machine W) (state : ToolOutcomeState) (output : String)
          → inner.replay ≡ none
          → Same
              (by_state p timed store ctx cp state output m)
              (by_state p bare store ctx cp state output m)
      unfolding by_state complete_pending_tool
      by_state-Same cp m outcome_unknown output q = elim (Bool-cases (str_eq output "")) [
        | inl b ↦ rw b (replay-Same cp m m q)
        | inr b ↦ rw b (refl, refl)
      ]
      by_state-Same cp m outcome_completed output q = (refl, refl)
      by_state-Same cp m (other_state s) output q = (refl, refl)

      after_reconcile-Same :
          (cp : Checkpoint) (reply : Reply ToolOutcome) (polled : Option Error × Machine W)
          → inner.replay ≡ none
          → Same
              (after_reconcile p timed store ctx cp reply polled)
              (after_reconcile p bare store ctx cp reply polled)
      unfolding after_reconcile
      after_reconcile-Same cp reply (some e, m) q = (refl, refl)
      after_reconcile-Same cp (err e) (none, m) q = (refl, refl)
      after_reconcile-Same cp (ok outcome) (none, m) q =
          by_state-Same cp m outcome.state outcome.output q

      reconciling-Same :
          (cp : Checkpoint) (m : Machine W) (o : Option ToolCall)
          (reconcile : Option (Context W → ToolCall → W → Reply ToolOutcome × W))
          → inner.replay ≡ none
          → Same
              (reconciling p timed store ctx cp m o (some (reconcile_through p reconcile)))
              (reconciling p bare store ctx cp m o reconcile)
      unfolding reconciling after_reconcile by_state poll_context
      reconciling-Same cp m none reconcile q = (refl, refl)
      reconciling-Same cp m (some call) none q = rw (alive m.world) (replay-Same cp _ m q)
      reconciling-Same cp m (some call) (some reconcile) q =
          let a = reconcile ctx call m.world in
          after_reconcile-Same cp a.0
            (poll_context ctx (record { world = a.1; log = reconciled call a.0 ∷ m.log })) q

    -- If the wrapped executor cannot replay and the context stays good, a deadline changes nothing
    -- for recovery: `reconcilePendingTool` returns the same checkpoint and the same error with and
    -- without it.
    pub timeout_tool_executor-recovery :
        (store : Store W) (ctx : Context W) (cp : Checkpoint) (m : Machine W)
        → inner.replay ≡ none
        → ((w : W) → (execution_context_err ctx w).0 ≡ none)
        → let with_deadline = reconcile_pending_tool p timed store ctx cp m in
          let without = reconcile_pending_tool p bare store ctx cp m in
          (with_deadline.0 ≡ without.0) × (with_deadline.1 ≡ without.1)
    unfolding timeout_tool_executor reconcile_pending_tool
    timeout_tool_executor-recovery store ctx cp m q alive =
        reconciling-Same store ctx alive cp m cp.pending_tool inner.reconcile q
