-- ===== src/Resume/Evidence.antt =====
-- tool_reconciliation.go and tool_replay.go: what the runtime has been told of a pending tool call, as
-- the log shows it.
use agent_harness_runtime.Base.{◌≡◌, refl, ◌⊎◌, inl, String, Option, none, some, List, ◌∷◌}
use agent_harness_runtime.Errors.{Error, Reply, ok, sentinel, detail, tool_outcome_unknown}
use agent_harness_runtime.Types.{ToolCall}
use agent_harness_runtime.Checkpoint.{Checkpoint}
use agent_harness_runtime.Ports.{
  ToolOutcome, outcome_unknown, outcome_completed, Platform, Machine, Effect, polled, reconciled,
  replayed, wrote,
}
use agent_harness_runtime.Writing.Cases.{revised, logged}
use agent_harness_runtime.Runtime.State.{Runtime}
use agent_harness_runtime.Runtime.Log.{last_write, executed_ids}
use agent_harness_runtime.Resume.{completed_call, replayer, reconciler}

module _ {W : Type 0} (p : Platform W) (r : Runtime W) (call : ToolCall) (log : List Effect) where
  -- The logs on which the call may be replayed: nobody can be asked for its outcome, or the answer was
  -- that it is unknown.
  pub data ReplayAllowed : List Effect → Type 0 where
    nobody_to_ask : reconciler p r r.tools ≡ none → ReplayAllowed log
    answered_unknown :
        ReplayAllowed (
          polled none
          ∷ reconciled call (ok (record { state = outcome_unknown; output = "" }))
          ∷ log)

  -- The logs that show what the call returns: the answer was that it is completed, with this output,
  -- or an allowed replay has returned the output. The context was good afterwards.
  pub data Evidence (output : String) : List Effect → Type 0 where
    answered_completed : Evidence output (
        polled none
        ∷ reconciled call (ok (record { state = outcome_completed; output = output }))
        ∷ log)
    replay_returned :
        (l : List Effect)
        → ReplayAllowed l
        → Evidence output (polled none ∷ replayed call (ok output) ∷ l)

  -- The logs on which recovery may give up with the error `e`, and without a write: there is no
  -- one to ask, or an answer, or an allowed replay, came last.
  pub data GivenUp (e : Error) : List Effect → Type 0 where
    no_means :
        (l : List Effect)
        → ReplayAllowed l
        → replayer p r r.tools ≡ none
        → e ≡ detail (sentinel tool_outcome_unknown) "call"
        → GivenUp e l
    answered :
        (reply : Reply ToolOutcome) (cause : Option Error)
        → GivenUp e (polled cause ∷ reconciled call reply ∷ log)
    replay_failed :
        (l : List Effect) (reply : Reply String) (cause : Option Error)
        → ReplayAllowed l
        → GivenUp e (polled cause ∷ replayed call reply ∷ l)

  -- The logs after a failed attempt to save the completed call.
  pub data Unsaved (next : Checkpoint) : List Effect → List Effect → Type 0 where
    not_written : (l : List Effect) (cause : Option Error) → Unsaved next l (polled cause ∷ l)
    write_failed :
        (l : List Effect) (cause : Option Error) (e : Error)
        → Unsaved next l (wrote (revised next) (some e) ∷ polled cause ∷ l)

  -- What a function for the pending call of `cp` returns. With an error, the checkpoint as it was:
  -- recovery gave up, or it had evidence of the output and could not save the completed call. Without, the
  -- checkpoint with the call completed by an output of which there is evidence, and which the store
  -- has acknowledged last. No tool has been executed.
  abbrev pub Settled : Checkpoint → Checkpoint × Option Error × Machine W → Type 0
  Settled cp (cp', some e, m) =
      (cp' ≡ cp)
      × (executed_ids m.log ≡ executed_ids log)
      × (GivenUp e m.log
          ⊎ ((output : String) × (l : List Effect) × Evidence output l
              × Unsaved (completed_call cp call output) l m.log))
  Settled cp (cp', none, m) =
      (output : String) × (cp' ≡ completed_call cp call output)
      × (last_write m.log ≡ some (revised cp'))
      × (executed_ids m.log ≡ executed_ids log)
      × ((l : List Effect) × (cause : Option Error) × Evidence output l
          × (m.log ≡ wrote (revised cp') none ∷ polled cause ∷ l))

  ReplayAllowed-executed_ids :
      (l : List Effect) → ReplayAllowed l → executed_ids l ≡ executed_ids log
  ReplayAllowed-executed_ids l (nobody_to_ask q) = refl
  ReplayAllowed-executed_ids l answered_unknown = refl

  pub Evidence-executed_ids :
      (output : String) (l : List Effect) → Evidence output l → executed_ids l ≡ executed_ids log
  Evidence-executed_ids output l answered_completed = refl
  Evidence-executed_ids output l (replay_returned l' h) = ReplayAllowed-executed_ids l' h

  pub GivenUp-executed_ids :
      (e : Error) (l : List Effect) → GivenUp e l → executed_ids l ≡ executed_ids log
  GivenUp-executed_ids e l (no_means _ h none_given q) = ReplayAllowed-executed_ids l h
  GivenUp-executed_ids e l (answered reply cause) = refl
  GivenUp-executed_ids e l (replay_failed l' reply cause h) = ReplayAllowed-executed_ids l' h

  pub given_up :
      (cp : Checkpoint) (e : Error) (w : W) (l : List Effect)
      → GivenUp e l
      → Settled cp (cp, some e, logged w l)
  given_up cp e w l h = (refl, GivenUp-executed_ids e l h, inl h)
