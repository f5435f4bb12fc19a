-- ===== src/Runtime/Rounds.antt =====
-- One round of the loop of `run` keeps the invariant, on every path through it.
use agent_harness_runtime.Base.{
  ℕ, ◌^◌, ◌≤◌, subst, sym, String, Bool, true, false, ◌≡◌, Option, none, [], ◌∷◌, ◌++◌, arith,
  str_eq,
}
use mathlib.Core.List.{append_assoc}
use agent_harness_runtime.Errors.{Error, Reply}
use agent_harness_runtime.Types.{ToolCall, Decision, ModelInput, Result}
use agent_harness_runtime.Checkpoint.{call_ids}
use agent_harness_runtime.Ports.{ToolExecutor, model_started, tool_started, called_model, executed}
use agent_harness_runtime.Runtime.State.{State, Frame}
use agent_harness_runtime.Runtime.Effects.{
  checkpoint_of, observe, model_event, tool_event, call_model, ask_model, call_tool, ask_tool,
}
use agent_harness_runtime.Runtime.Log.{
  Backed-map, Distinct, Distinct-append, executed_ids, last_write,
}
use agent_harness_runtime.Runtime.Invariant.{
  At, SavedAt, Ends, stored, Returned, AtAttempt, AtAnswer, AtTool, AtToolAnswer,
}
use agent_harness_runtime.Runtime.Steps.{noted, observe-keeps}

module _ {W : Type 0} (f : Frame W) (utf8_valid : String → Bool)
    (valid : (t : String) → utf8_valid t ≡ true)
    (texted : (e : Error) → str_eq (f.platform.error_text e) "" ≡ false)
    (small : f.initial.max_steps ≤ 2 ^ 60) (n : ℕ) where
  abbrev Q : Result → Option Error → State W → Type 0
  Q = Returned f utf8_valid

  called :
      (s : State W) (reply : Reply Decision) (w : W)
      → SavedAt f utf8_valid (AtAttempt f n) s
      → At f utf8_valid (AtAnswer f n) (
          noted s
            (called_model (record { prompt = f.initial.request.prompt; steps = s.steps }) reply)
            w)
  unfolding checkpoint_of
  called s reply w (k, sync, a) = (
    (
      (
        k.0.0,
        k.0.1,
        (
          Backed-map (stored f) (last_write s.machine.log) _ _
              (λ cp h. (ground arith, ground arith, h.2, h.3, ground arith)) sync,
          k.0.2,
        ),
        k.0.3,
      ),
      k.1,
      k.2,
      omega arith,
      k.4,
      k.5,
      k.6,
    ),
    ground arith,
  )

  pub ask_model-Ends :
      (s : State W)
      → SavedAt f utf8_valid (AtAttempt f n) s
      → Ends (λ _ s'. At f utf8_valid (AtAnswer f n) s') Q (ask_model f s)
  unfolding ask_model call_model checkpoint_of
  ask_model-Ends s h =
      let started = observe f (model_event f model_started 0 none s) s in
      let before : SavedAt f utf8_valid (AtAttempt f n) started =
        observe-keeps f (SavedAt f utf8_valid (AtAttempt f n))
          (model_event f model_started 0 none s) s h (λ w. h) in
      let input : ModelInput = record {
        prompt = f.initial.request.prompt;
        steps = started.steps;
      } in
      let answer = f.runtime.model.next f.context input started.machine.world in
      let after = called started answer.0 answer.1 before in
      observe-keeps f (At f utf8_valid (AtAnswer f n)) _ _ after (λ w. after)

  tool_called :
      (call : ToolCall) (s : State W) (reply : Reply String) (w : W)
      → SavedAt f utf8_valid (AtTool f n call) s
      → At f utf8_valid (AtToolAnswer f n call) (noted s (executed call reply) w)
  unfolding checkpoint_of
  tool_called call s reply w (k, sync, a) =
      let ids = f.initial.result.steps in
      let more : call_ids ids ++ (executed_ids s.machine.log ++ call.id ∷ [])
          ≡ call_ids s.steps ++ call.id ∷ [] =
        rw (a.2, append_assoc) in
      (
        (
          (
            k.0.0,
            k.0.1,
            k.0.2,
            (
              Backed-map (stored f) (last_write s.machine.log) _ _
                  (λ cp h. (ground arith, ground arith)) sync,
              k.0.3,
            ),
          ),
          k.1,
          subst Distinct (sym more)
              (Distinct-append (call_ids s.steps) call.id (subst Distinct (sym a.2) k.2) a.4),
          k.3,
          k.4,
          k.5,
          k.6,
        ),
        (a.0, a.1, sym more, a.3, a.5),
      )

  pub ask_tool-Ends :
      (tools : ToolExecutor W) (call : ToolCall) (s : State W)
      → SavedAt f utf8_valid (AtTool f n call) s
      → Ends (λ _ s'. At f utf8_valid (AtToolAnswer f n call) s') Q (ask_tool f tools call s)
  unfolding ask_tool call_tool checkpoint_of
  ask_tool-Ends tools call s h =
      let started = observe f (tool_event f tool_started call 0 none s) s in
      let before : SavedAt f utf8_valid (AtTool f n call) started =
        observe-keeps f (SavedAt f utf8_valid (AtTool f n call))
          (tool_event f tool_started call 0 none s) s h (λ w. h) in
      let answer = tools.execute f.context call started.machine.world in
      let after = tool_called call started answer.0 answer.1 before in
      observe-keeps f (At f utf8_valid (AtToolAnswer f n call)) _ _ after (λ w. after)
