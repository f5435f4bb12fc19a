-- ===== src/Resume/Pending.antt =====
-- tool_reconciliation.go and tool_replay.go: what `Resume` makes of a pending tool call.
use agent_harness_runtime.Base.{
  ◌≡◌, inl, inr, refl, sym, subst, String, Bool, true, false, Option, none, some, List, [], ◌∷◌,
  ◌++◌, str_eq, eq_iff, Bool-cases,
}
use agent_harness_runtime.Errors.{Error, Reply, ok, err, is, tool_replay_unsupported}
use agent_harness_runtime.Status.{running_model, running_tool}
use agent_harness_runtime.Types.{ToolCall}
use agent_harness_runtime.Checkpoint.{Checkpoint}
use agent_harness_runtime.Checkpoint.Validity.{IsSound}
use agent_harness_runtime.Checkpoint.Updates.{finish_tool-IsSound}
use agent_harness_runtime.Ports.{
  Context, Store, ToolOutcome, ToolOutcomeState, outcome_unknown, outcome_completed, other_state,
  Platform, Machine, Effect, polled, replayed, reconciled,
}
use agent_harness_runtime.Writing.{poll_context}
use agent_harness_runtime.Writing.Cases.{
  Written, saved, failed_write, refused, write_checkpoint-Written, logged,
}
use agent_harness_runtime.Runtime.State.{Runtime}
use agent_harness_runtime.Runtime.Log.{executed_ids}
use agent_harness_runtime.Resume.Evidence.{
  ReplayAllowed, nobody_to_ask, answered_unknown, Evidence, answered_completed, replay_returned,
  no_means, answered, replay_failed, not_written, write_failed, Settled, Evidence-executed_ids,
  given_up,
}
use agent_harness_runtime.Resume.{
  completed_call, complete_pending_tool, replay_pending_tool, reconcile_pending_tool, after_replay,
  after_reconcile, by_state, completing, replaying, reconciling, written, replayer, reconciler,
}

module _ {W : Type 0} (p : Platform W) (r : Runtime W) where
  complete-Settled :
      (store : Store W) (ctx : Context W) (cp : Checkpoint) (call : ToolCall) (log : List Effect)
      (output : String) (m : Machine W)
      → cp.pending_tool ≡ some call
      → Evidence p r call log output m.log
      → Settled p r call log cp (complete_pending_tool p r store ctx cp output m)
  unfolding complete_pending_tool
  complete-Settled store ctx cp call log output m q evidence =
      subst (λ o. Settled p r call log cp (completing p r store ctx cp output m o)) (sym q)
        (go (write_checkpoint-Written p ctx store (completed_call cp call output) false m))
    where
      same : executed_ids m.log ≡ executed_ids log
      same = Evidence-executed_ids p r call log output m.log evidence

      go :
          {r' : Option Error × Machine W}
          → Written (completed_call cp call output) m r'
          → Settled p r call log cp (written p r cp (completed_call cp call output) r')
      go (saved w cause e) = rw e (output, refl, refl, same, (m.log, cause, evidence, refl))
      go (failed_write w cause a b e) =
          rw e (refl, same, inr (output, m.log, evidence, write_failed m.log cause b))
      go (refused w cause a e) =
          rw e (refl, same, inr (output, m.log, evidence, not_written m.log cause))

  after_replay-Settled :
      (store : Store W) (ctx : Context W) (cp : Checkpoint) (call : ToolCall) (log l : List Effect)
      (reply : Reply String) (cause : Option Error) (w : W)
      → cp.pending_tool ≡ some call
      → ReplayAllowed p r call log l
      → Settled p r call log cp (
          after_replay p r store ctx cp reply
            (cause, logged w (polled cause ∷ replayed call reply ∷ l)))
  unfolding after_replay
  after_replay-Settled store ctx cp call log l reply (some e) w q allowed =
      given_up p r call log cp e w _ (replay_failed l reply (some e) allowed)
  after_replay-Settled store ctx cp call log l (ok output) none w q allowed =
      complete-Settled store ctx cp call log output _ q (replay_returned l allowed)
  after_replay-Settled store ctx cp call log l (err e) none w q allowed =
      elim (Bool-cases (is e tool_replay_unsupported)) [
        | inl b ↦ rw b (given_up p r call log cp _ w _ (replay_failed l (err e) none allowed))
        | inr b ↦ rw b (given_up p r call log cp _ w _ (replay_failed l (err e) none allowed))
      ]

  replaying-Settled :
      (store : Store W) (ctx : Context W) (cp : Checkpoint) (call : ToolCall) (log : List Effect)
      (m : Machine W) (o : Option (Context W → ToolCall → W → Reply String × W))
      → replayer p r r.tools ≡ o
      → cp.pending_tool ≡ some call
      → ReplayAllowed p r call log m.log
      → Settled p r call log cp (replaying p r store ctx cp m (some call) o)
  unfolding replaying poll_context
  replaying-Settled store ctx cp call log m none h q allowed =
      given_up p r call log cp _ m.world m.log (no_means m.log allowed h refl)
  replaying-Settled store ctx cp call log m (some replay) h q allowed =
      let a = replay ctx call m.world in
      let polled = poll_context ctx (record { world = a.1; log = replayed call a.0 ∷ m.log }) in
      after_replay-Settled store ctx cp call log m.log a.0 polled.0 polled.1.world q allowed

  replay-Settled :
      (store : Store W) (ctx : Context W) (cp : Checkpoint) (call : ToolCall) (log : List Effect)
      (m : Machine W)
      → cp.pending_tool ≡ some call
      → ReplayAllowed p r call log m.log
      → Settled p r call log cp (replay_pending_tool p r store ctx cp m)
  unfolding replay_pending_tool
  replay-Settled store ctx cp call log m q allowed =
      subst (λ o. Settled p r call log cp (replaying p r store ctx cp m o (replayer p r r.tools)))
        (sym q) (replaying-Settled store ctx cp call log m (replayer p r r.tools) refl q allowed)

  -- What follows an answer to the question for the outcome, with a good context.
  by_state-Settled :
      (store : Store W) (ctx : Context W) (cp : Checkpoint) (call : ToolCall) (log : List Effect)
      (state : ToolOutcomeState) (output : String) (w : W)
      → cp.pending_tool ≡ some call
      → let outcome : ToolOutcome = record { state = state; output = output } in
        Settled p r call log cp (
          by_state p r store ctx cp state output
            (logged w (polled none ∷ reconciled call (ok outcome) ∷ log)))
  unfolding by_state
  by_state-Settled store ctx cp call log outcome_unknown output w q =
      elim (Bool-cases (str_eq output "")) [
        | inl b ↦
            let empty : output ≡ "" = (eq_iff output "").0 b in
            rw b (
              replay-Settled store ctx cp call log _ q (
                subst
                  (λ t. ReplayAllowed p r call log (
                    polled none
                    ∷ reconciled call (ok (record { state = outcome_unknown; output = t }))
                    ∷ log))
                  (sym empty) answered_unknown))
        | inr b ↦ rw b (given_up p r call log cp _ w _ (answered _ none))
      ]
  by_state-Settled store ctx cp call log outcome_completed output w q =
      complete-Settled store ctx cp call log output _ q answered_completed
  by_state-Settled store ctx cp call log (other_state s) output w q =
      given_up p r call log cp _ w _ (answered _ none)

  after_reconcile-Settled :
      (store : Store W) (ctx : Context W) (cp : Checkpoint) (call : ToolCall) (log : List Effect)
      (reply : Reply ToolOutcome) (cause : Option Error) (w : W)
      → cp.pending_tool ≡ some call
      → Settled p r call log cp (
          after_reconcile p r store ctx cp reply
            (cause, logged w (polled cause ∷ reconciled call reply ∷ log)))
  unfolding after_reconcile
  after_reconcile-Settled store ctx cp call log reply (some e) w q =
      given_up p r call log cp e w _ (answered reply (some e))
  after_reconcile-Settled store ctx cp call log (err e) none w q =
      given_up p r call log cp _ w _ (answered (err e) none)
  after_reconcile-Settled store ctx cp call log (ok outcome) none w q =
      by_state-Settled store ctx cp call log outcome.state outcome.output w q

  reconciling-Settled :
      (store : Store W) (ctx : Context W) (cp : Checkpoint) (call : ToolCall) (m : Machine W)
      (o : Option (Context W → ToolCall → W → Reply ToolOutcome × W))
      → reconciler p r r.tools ≡ o
      → cp.pending_tool ≡ some call
      → Settled p r call m.log cp (reconciling p r store ctx cp m (some call) o)
  unfolding reconciling poll_context
  reconciling-Settled store ctx cp call m none h q =
      replay-Settled store ctx cp call m.log m q (nobody_to_ask h)
  reconciling-Settled store ctx cp call m (some reconcile) h q =
      let a = reconcile ctx call m.world in
      let polled = poll_context ctx (record { world = a.1; log = reconciled call a.0 ∷ m.log }) in
      after_reconcile-Settled store ctx cp call m.log a.0 polled.0 polled.1.world q

  -- For a checkpoint with a pending call, `reconcilePendingTool` completes the call, and has the store
  -- acknowledge that last, only with an output that the log shows: the executor has answered that
  -- the call is completed with it, or a replay has returned it. In all other cases it fails and returns the
  -- checkpoint as it was: there was nobody to ask, an answer or a replay was of no use, or the completed call
  -- could not be saved. A replay happens only if the executor cannot tell outcomes or
  -- has answered that this one is unknown, without output; Execute is never called.
  pub reconcile_pending_tool-Settled :
      (store : Store W) (ctx : Context W) (cp : Checkpoint) (call : ToolCall) (m : Machine W)
      → cp.pending_tool ≡ some call
      → Settled p r call m.log cp (reconcile_pending_tool p r store ctx cp m)
  unfolding reconcile_pending_tool
  reconcile_pending_tool-Settled store ctx cp call m q =
      subst
        (λ o. Settled p r call m.log cp (reconciling p r store ctx cp m o (reconciler p r r.tools)))
        (sym q) (reconciling-Settled store ctx cp call m (reconciler p r r.tools) refl q)

  -- A call that is settled without an error leaves a checkpoint from which `run` may start.
  pub Settled-IsSound :
      (utf8_valid : String → Bool) (valid : (t : String) → utf8_valid t ≡ true) (cp : Checkpoint)
      (call : ToolCall) (output : String)
      → IsSound utf8_valid (record cp { revision = 0 })
      → cp.result.status ≡ running_tool
      → cp.pending_tool ≡ some call
      → IsSound utf8_valid (record (completed_call cp call output) { revision = 0 })
  Settled-IsSound utf8_valid valid cp call output h t q =
      let x = finish_tool-IsSound utf8_valid valid (record cp { revision = 0 }) h call output t q in
      subst
        (λ from_status. IsSound utf8_valid (record (completed_call cp call output) {
          revision = 0;
          result = record (completed_call cp call output).result {
            transitions =
                cp.result.transitions ++ record { from = from_status; to = running_model } ∷ [];
          };
        }))
        t x
