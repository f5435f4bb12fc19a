-- ===== src/Runtime/Promises.antt =====
-- runtime.go: what a caller of `run` may rely on. `run` starts from a sound checkpoint that has no
-- pending call, is new or waits for the model, and has a step budget of at most 2 ^ 60; all texts
-- are valid UTF-8 and no error has an empty text. Nothing is assumed of the store, the model, the
-- tools and the clock.
use agent_harness_runtime.Base.{
  ◌+◌, ◌^◌, ◌≤◌, String, Bool, true, false, ◌≡◌, ◌⊎◌, Option, none, some, [], ◌++◌, str_eq, subst,
}
use agent_harness_runtime.Errors.{Error}
use agent_harness_runtime.Status.{created, running_model, completed}
use agent_harness_runtime.Types.{Result}
use agent_harness_runtime.Checkpoint.{call_ids}
use agent_harness_runtime.Checkpoint.Validity.{IsSound}
use agent_harness_runtime.Runtime.State.{State, Frame}
use agent_harness_runtime.Runtime.Run.{run}
use agent_harness_runtime.Runtime.Log.{
  Distinct, executed_ids, model_calls, last_write, WritesValid, RevisionsRise, ModelCallsReserved,
  ToolCallsSaved,
}
use agent_harness_runtime.Runtime.Invariant.{stored, newest_result, is_some}
use agent_harness_runtime.Runtime.Outcomes.{Durable}
use agent_harness_runtime.Runtime.Guarantees.{EndedRun, run-Ended}

-- The run returns, and what it returns has the property.
abbrev pub Gives :
    {W : Type 0}
    → (Result → Option Error → State W → Type 0)
    → Option (Result × Option Error × State W)
    → Type 0
Gives {W} P o =
    (result : Result) × (e : Option Error) × (s : State W) × (o ≡ some (result, e, s))
    × P result e s

module _ {W : Type 0} (f : Frame W) (utf8_valid : String → Bool)
    (valid : (t : String) → utf8_valid t ≡ true)
    (texted : (e : Error) → str_eq (f.platform.error_text e) "" ≡ false)
    (small : f.initial.max_steps ≤ 2 ^ 60)
    (sound : IsSound utf8_valid (record f.initial { revision = 0 }))
    (idle : f.initial.pending_tool ≡ none)
    (resumable : (f.initial.result.status ≡ created) ⊎ (f.initial.result.status ≡ running_model))
    (create : Bool) (w : W) where
  ended :
      EndedRun f utf8_valid valid texted small sound idle resumable
        (run f create (record { world = w; log = [] }))
  ended = run-Ended f utf8_valid valid texted small sound idle resumable create w

  -- From a sound checkpoint without a pending call that is new or waits for the model, with a step
  -- budget of at most 2 ^ 60, all texts valid UTF-8 and no error text empty, `run` returns, and, if
  -- there is a store, every tool call was executed only while the newest checkpoint that the store
  -- had acknowledged was in the state running_tool with that very call pending.
  pub run-ToolCallsSaved :
      Gives
        (λ result e s. ToolCallsSaved (stored f) s.machine.log)
        (run f create (record { world = w; log = [] }))
  run-ToolCallsSaved = let (result, e, s, q, h) = ended in (result, e, s, q, h.0.3)

  -- From a sound checkpoint without a pending call that is new or waits for the model, with a step
  -- budget of at most 2 ^ 60, all texts valid UTF-8 and no error text empty, `run` returns, the
  -- model was called at most as often as the step budget leaves attempts, and, if there is a store,
  -- each call was made only after the store had acknowledged a checkpoint that waits for the model,
  -- holds the prompt and the steps of that call, and counts that attempt.
  pub run-ModelCallsReserved :
      Gives
        (λ result e s.
          ModelCallsReserved (stored f) f.initial.model_iterations s.machine.log
          × (f.initial.model_iterations + model_calls s.machine.log ≤ f.initial.max_steps))
        (run f create (record { world = w; log = [] }))
  run-ModelCallsReserved = let (result, e, s, q, h) = ended in (result, e, s, q, (h.0.2, h.2))

  -- From a sound checkpoint without a pending call that is new or waits for the model, with a step
  -- budget of at most 2 ^ 60, all texts valid UTF-8 and no error text empty, `run` returns, and no
  -- two executed tool calls, those of the history that it started from included, have the same ID.
  pub run-Distinct :
      Gives
        (λ result e s. Distinct (call_ids f.initial.result.steps ++ executed_ids s.machine.log))
        (run f create (record { world = w; log = [] }))
  run-Distinct = let (result, e, s, q, h) = ended in (result, e, s, q, h.1)

  -- From a sound checkpoint without a pending call that is new or waits for the model, with a step
  -- budget of at most 2 ^ 60, all texts valid UTF-8 and no error text empty, `run` returns, every
  -- checkpoint it handed to the store passes `validateCheckpoint`, and each of them has a higher
  -- revision than all before it.
  pub run-RevisionsRise :
      Gives
        (λ result e s. WritesValid utf8_valid s.machine.log × RevisionsRise s.machine.log)
        (run f create (record { world = w; log = [] }))
  run-RevisionsRise = let (result, e, s, q, h) = ended in (result, e, s, q, (h.0.0, h.0.1))

  -- From a sound checkpoint without a pending call that is new or waits for the model, with a step
  -- budget of at most 2 ^ 60, all texts valid UTF-8 and no error text empty, and with a store, `run`
  -- returns the result of the checkpoint that the store has acknowledged last, or the one it started
  -- from if there is none.
  pub run-newest_result :
      stored f ≡ true
      → Gives
          (λ result e s. result ≡ newest_result f (last_write s.machine.log))
          (run f create (record { world = w; log = [] }))
  run-newest_result some_store =
      let (result, e, s, q, h) = ended in
      (
        result,
        e,
        s,
        q,
        subst (λ b. Durable f utf8_valid valid texted small b (last_write s.machine.log) result)
            some_store h.3,
      )

  -- From a sound checkpoint without a pending call that is new or waits for the model, with a step
  -- budget of at most 2 ^ 60, all texts valid UTF-8 and no error text empty, `run` returns, and
  -- without an error the execution is completed.
  pub run-completed :
      Gives
        (λ result e s. (result.status ≡ completed) ⊎ (is_some e ≡ true))
        (run f create (record { world = w; log = [] }))
  run-completed = let (result, e, s, q, h) = ended in (result, e, s, q, h.4)
