-- ===== src/Runtime/Turns.antt =====
-- A turn of the model or of a tool leads from phase to phase of the invariant, on every path.
use agent_harness_runtime.Base.{
  ℕ, ◌^◌, ◌≤◌, String, Bool, true, false, ◌≡◌, refl, inl, inr, Option, none, some, [], ◌∷◌, ◌++◌,
  arith, str_eq, length-append, ◌∙◌, Bool-cases,
}
use agent_harness_runtime.Errors.{Error, Reply, ok, err}
use agent_harness_runtime.Status.{
  Status, running_model, running_tool, failed, is_terminal, transition, valid_transition,
}
use agent_harness_runtime.Types.{ToolCall, Result, snapshot}
use agent_harness_runtime.Checkpoint.{call_ids, contains, valid_call, pending_count}
use agent_harness_runtime.Checkpoint.History.{call_ids-append}
use agent_harness_runtime.Checkpoint.Updates.{start_tool-IsSound, finish_tool-IsSound, done_step}
use agent_harness_runtime.Ports.{ToolExecutor}
use agent_harness_runtime.Runtime.State.{
  ◌>>◌, modify, State, Flow, goes, M, follow, Frame, stop, step_to, append_step,
}
use agent_harness_runtime.Runtime.Effects.{checkpoint_of, save_progress, unless_cancelled}
use agent_harness_runtime.Runtime.Loop.{with_tools, after_tool, dispatch, use_tool}
use agent_harness_runtime.Runtime.Log.{WritesBelow-mono}
use agent_harness_runtime.Runtime.Invariant.{
  At, SavedAt, Ends, Ends-map, follow-Ends, Core, core, rank, Kept, Returned, AtHead, AtAnswer,
  AtTool, AtToolAnswer,
}
use agent_harness_runtime.Runtime.Rounds.{ask_tool-Ends}
use agent_harness_runtime.Runtime.Steps.{
  IsRunning, save_progress-Ends, stop-Returned, unless_cancelled-Ends,
}

-- A transition of the table succeeds.
pub step_to-valid :
    {W : Type 0} (status : Status) (s : State W)
    → valid_transition s.exec.status status ≡ true
    → step_to status s
      ≡ goes tt (record s {
        exec = record {
          status = status;
          transitions = s.exec.transitions ++ record { from = s.exec.status; to = status } ∷ [];
        };
      })
unfolding step_to transition
step_to-valid status s v = rw v

pub rank_pending :
    {W : Type 0} (s : State W) → s.pending_tool ≡ none → pending_count s.pending_tool ≡ 0
rank_pending s e = rw e

module _ {W : Type 0} (f : Frame W) (utf8_valid : String → Bool)
    (valid : (t : String) → utf8_valid t ≡ true)
    (texted : (e : Error) → str_eq (f.platform.error_text e) "" ≡ false)
    (small : f.initial.max_steps ≤ 2 ^ 60) (n : ℕ) where
  abbrev pub Q : Result → Option Error → State W → Type 0
  Q = Returned f utf8_valid

  abbrev pub Next : Flow W (Unit {0}) → Type 0
  Next = Ends (λ _ s. At f utf8_valid (AtHead f n) s) Q

  -- After a reading of the context that finds no cancellation.
  pub continuing :
      {B : Type 0} (P' : B → State W → Type 0) (X : Core → Type 0) (s : State W)
      (k : Unit {0} → M W B)
      → At f utf8_valid X s
      → IsRunning s.exec.status
      → ((s' : State W) → At f utf8_valid X s' → Ends P' Q (k tt s'))
      → Ends P' Q (follow (unless_cancelled f s) k)
  unfolding checkpoint_of
  continuing P' X s k h running next =
      follow-Ends (λ _ s'. At f utf8_valid X s') P' Q (unless_cancelled f s) k
        (unless_cancelled-Ends f utf8_valid valid texted small (At f utf8_valid X) _ s h.0
          (omega arith) running (λ w. h))
        (λ _ s' h'. next s' h')

  pub failing :
      {B : Type 0} (P : B → State W → Type 0) (X : Core → Type 0) (e : Error) (s : State W)
      → At f utf8_valid X s
      → IsRunning s.exec.status
      → Ends P Q (stop failed e s)
  failing P X e s h running =
      stop-Returned f utf8_valid valid texted small P _ failed e s h.0 (omega arith) running
        (inl refl)

  pub saving :
      (X : Core → Type 0) (s : State W)
      → Kept f utf8_valid (rank (core s)) s
      → is_terminal s.exec.status ≡ false
      → X (core s)
      → Ends (λ _ s'. At f utf8_valid X s') Q (save_progress f s)
  saving X s k running x =
      Ends-map _ _ Q (save_progress f s) (λ _ s' h. (h.0, h.2))
        (save_progress-Ends f utf8_valid valid texted small X s k running x)

  tool_done :
      (call : ToolCall) (output : String) (s : State W)
      → At f utf8_valid (AtToolAnswer f n call) s
      → Next (
          follow
            (step_to running_model (append_step call output s))
            λ _. modify (λ s'. record s' { pending_tool = none }) >> save_progress f)
  unfolding append_step checkpoint_of snapshot valid_transition
  tool_done call output s (k, a) =
      let cp = checkpoint_of f s (snapshot s.exec s.steps "") none in
      let step = done_step cp call output in
      let grown = length-append s.steps (step ∷ []) in
      rw (step_to-valid running_model (append_step call output s) (ground arith)) (
        saving (AtHead f n) _
          (
            k.0,
            k.1,
            k.2,
            k.3,
            k.4,
            WritesBelow-mono _ _ s.machine.log (ground (arith, grown)) k.5,
            finish_tool-IsSound utf8_valid valid cp k.6 call output a.0 a.1,
          )
          refl (refl, refl, call_ids-append s.steps step ∙ a.2, a.3, a.4))

  after_tool-Ends :
      (call : ToolCall) (reply : Reply String) (s : State W)
      → At f utf8_valid (AtToolAnswer f n call) s
      → Next (after_tool f call reply s)
  unfolding after_tool
  after_tool-Ends call (err e) s h =
      continuing _ (AtToolAnswer f n call) s _ h (inr h.1.0)
        λ s' h'. failing _ (AtToolAnswer f n call) _ s' h' (inr h'.1.0)
  after_tool-Ends call (ok output) s h =
      continuing _ (AtToolAnswer f n call) s _ h (inr h.1.0) λ s' h'. tool_done call output s' h'

  dispatch-Ends :
      (tools : ToolExecutor W) (call : ToolCall) (s : State W)
      → At f utf8_valid (AtAnswer f n) s
      → contains (call_ids s.steps) call.id ≡ false
      → valid_call call ≡ none
      → Next (dispatch f tools call s)
  unfolding dispatch checkpoint_of snapshot valid_transition
  dispatch-Ends tools call s (k, a) fresh good =
      let cp = checkpoint_of f s (snapshot s.exec s.steps "") none in
      let pending = rank_pending s a.1 in
      rw (step_to-valid running_tool s (ground arith)) (
        follow-Ends (λ _ s'. SavedAt f utf8_valid (AtTool f n call) s') _ Q _ _
          (save_progress-Ends f utf8_valid valid texted small (AtTool f n call) _
            (
              k.0,
              k.1,
              k.2,
              k.3,
              k.4,
              WritesBelow-mono _ _ s.machine.log (omega (arith, pending)) k.5,
              start_tool-IsSound utf8_valid valid cp k.6 call a.0 a.4 fresh good,
            )
            refl (refl, refl, a.2, a.3, fresh, a.6))
          (λ _ s' h.
            follow-Ends (λ _ t. SavedAt f utf8_valid (AtTool f n call) t) _ Q _ _
              (unless_cancelled-Ends f utf8_valid valid texted small
                (SavedAt f utf8_valid (AtTool f n call)) _ s' h.0 (omega arith) (inr h.2.0)
                (λ w. h))
              (λ _ t ht.
                follow-Ends (λ _ u. At f utf8_valid (AtToolAnswer f n call) u) _ Q _ _
                  (ask_tool-Ends f utf8_valid valid texted small n tools call t ht)
                  (λ reply u hu. after_tool-Ends call reply u hu))))

  with_tools-Ends :
      (o : Option (ToolExecutor W)) (call : ToolCall) (s : State W)
      → At f utf8_valid (AtAnswer f n) s
      → contains (call_ids s.steps) call.id ≡ false
      → valid_call call ≡ none
      → Next (with_tools f o call s)
  with_tools-Ends none call s h fresh good = failing _ (AtAnswer f n) _ s h (inl h.1.0)
  with_tools-Ends (some tools) call s h fresh good = dispatch-Ends tools call s h fresh good

  pub use_tool-Ends :
      (call : ToolCall) (s : State W)
      → At f utf8_valid (AtAnswer f n) s
      → valid_call call ≡ none
      → Next (use_tool f call s)
  unfolding use_tool
  use_tool-Ends call s h good = elim (Bool-cases (contains (call_ids s.steps) call.id)) [
    | inl e ↦ rw e (failing _ (AtAnswer f n) _ s h (inl h.1.0))
    | inr fresh ↦ rw fresh (with_tools-Ends f.runtime.tools call s h fresh good)
  ]
