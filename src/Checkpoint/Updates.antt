-- ===== src/Checkpoint/Updates.antt =====
-- The updates that a run makes to what it saves keep the checkpoint sound.
use agent_harness_runtime.Base.{
  ℕ, ◌+◌, ◌≤◌, ◌<◌, String, Bool, true, false, ◌≡◌, refl, ◌⊎◌, inl, inr, Option, none, some, List,
  [], ◌∷◌, ◌++◌, subst, arith, str_eq, length, length-append, get_last?-append, All,
}
use agent_harness_runtime.Status.{
  Status, created, running_model, running_tool, completed, failed, cancelled, Transition,
  valid_transition,
}
use agent_harness_runtime.Types.{ToolCall, Step}
use agent_harness_runtime.Checkpoint.{
  Checkpoint, starts_tool, finishes_tool, contains, call_ids, valid_call, check_pending,
  history_from, checkpoint_revision,
}
use agent_harness_runtime.Checkpoint.History.{history_from-append, count-append, check_steps-append}
use agent_harness_runtime.Checkpoint.Validity.{IsSound, IsRecoverable}

-- The history one transition on, with its status.
abbrev pub moved : Checkpoint → Status → Checkpoint
moved cp status = record cp {
  result = record cp.result {
    status = status;
    transitions = cp.result.transitions ++ record { from = cp.result.status; to = status } ∷ [];
  };
}

abbrev pub done_step : Checkpoint → ToolCall → String → Step
done_step cp call output = record {
  index = length cp.result.steps + 1;
  call = call;
  result = record { call_id = call.id; output = output };
}

abbrev pub with_step : Checkpoint → ToolCall → String → Checkpoint
with_step cp call output = record cp {
  result = record cp.result { steps = cp.result.steps ++ done_step cp call output ∷ [] };
}

-- What the pending call of a sound checkpoint is.
pub check_pending-some :
    (call : ToolCall) (iterations : ℕ) (steps : List Step)
    → check_pending (some call) iterations steps ≡ none
    → (valid_call call ≡ none)
      × (contains (call_ids steps) call.id ≡ false)
      × (length steps < iterations)
unfolding check_pending
check_pending-some call iterations steps h = ground arith

module _ (utf8_valid : String → Bool) (valid : (t : String) → utf8_valid t ≡ true) where
  pub valid_texts : (ts : List String) → All (λ t. utf8_valid t ≡ true) ts
  valid_texts [] = tt
  valid_texts (t ∷ ts) = (valid t, valid_texts ts)

  -- All that a run changes in what it saves.
  abbrev updated :
      Checkpoint
      → ℕ
      → ℕ
      → ℕ
      → Status
      → String
      → List Step
      → List Transition
      → Option ToolCall
      → String
      → Checkpoint
  updated cp revision iterations retries status output steps transitions pending error = record cp {
    revision = revision;
    model_iterations = iterations;
    model_retries = retries;
    result = record cp.result {
      status = status;
      output = output;
      steps = steps;
      transitions = transitions;
    };
    pending_tool = pending;
    error = error;
  }

  module _ (cp : Checkpoint) (h : IsSound utf8_valid cp) where
    -- What an update has to show.
    updated-IsSound :
        (revision it re : ℕ) (status : Status) (output : String) (steps : List Step)
        (ts : List Transition) (pending : Option ToolCall) (error : String)
        → let cp' = updated cp revision it re status output steps ts pending error in
          it ≤ cp.max_steps
          → re ≤ cp.max_model_retries
          → re ≤ it
          → history_from created ts ≡ some status
          → IsRecoverable cp'
          → (revision ≡ 0) ⊎ (revision ≡ checkpoint_revision cp')
          → IsSound utf8_valid cp'
    updated-IsSound revision it re status output steps ts pending error a b c d e g = record {
      schema = h.schema;
      id = h.id;
      request_id = h.request_id;
      result_id = h.result_id;
      prompt = h.prompt;
      budget = omega arith;
      retries = (b, c);
      old_retries = omega arith;
      history = d;
      recoverable = e;
      revision = g;
      texts_valid = valid_texts _;
    }

    open h use {recoverable as good}

    pub revised-IsSound : IsSound utf8_valid (record cp { revision = checkpoint_revision cp })
    unfolding checkpoint_revision
    revised-IsSound =
        updated-IsSound (checkpoint_revision cp) cp.model_iterations cp.model_retries
          cp.result.status cp.result.output cp.result.steps cp.result.transitions cp.pending_tool
          cp.error h.budget.1 h.retries.0 h.retries.1 h.history
          (record {
            reserved = good.reserved;
            steps = good.steps;
            pending = good.pending;
            finished = good.finished;
            started = good.started;
            fits = ground arith;
            output = good.output;
            error = good.error;
          })
          (inr refl)

    pub reserve-IsSound :
        cp.result.status ≡ running_model
        → cp.model_iterations < cp.max_steps
        → IsSound utf8_valid
            (record cp { revision = 0; model_iterations = cp.model_iterations + 1 })
    unfolding check_pending
    reserve-IsSound m lt =
        updated-IsSound 0 (cp.model_iterations + 1) cp.model_retries cp.result.status
          cp.result.output cp.result.steps cp.result.transitions cp.pending_tool cp.error
          (omega arith) h.retries.0 (omega arith) h.history
          (ground (arith, good.pending, good.fits)) (inl refl)

    pub retry-IsSound :
        cp.model_retries < cp.max_model_retries
        → cp.model_retries < cp.model_iterations
        → IsSound utf8_valid (record cp { revision = 0; model_retries = cp.model_retries + 1 })
    retry-IsSound lt lt' =
        updated-IsSound 0 cp.model_iterations (cp.model_retries + 1) cp.result.status
          cp.result.output cp.result.steps cp.result.transitions cp.pending_tool cp.error h.budget.1
          (omega arith) (omega arith) h.history (ground (arith, good.fits)) (inl refl)

    -- The history after a transition that is in the table.
    moved_history :
        (status : Status)
        → valid_transition cp.result.status status ≡ true
        → history_from created (moved cp status).result.transitions ≡ some status
    moved_history status v =
        history_from-append created cp.result.transitions cp.result.status status h.history v

    pub enter-IsSound :
        cp.result.status ≡ created
        → IsSound utf8_valid (record (moved cp running_model) { revision = 0 })
    unfolding valid_transition
    enter-IsSound c =
        let t : Transition = record { from = cp.result.status; to = running_model } in
        updated-IsSound 0 cp.model_iterations cp.model_retries running_model cp.result.output
          cp.result.steps (cp.result.transitions ++ t ∷ []) cp.pending_tool cp.error h.budget.1
          h.retries.0 h.retries.1 (moved_history running_model (ground arith))
          (ground (
            arith,
            good.fits,
            count-append starts_tool cp.result.transitions t,
            count-append finishes_tool cp.result.transitions t,
          ))
          (inl refl)

    pub start_tool-IsSound :
        (call : ToolCall)
        → cp.result.status ≡ running_model
        → length cp.result.steps < cp.model_iterations
        → contains (call_ids cp.result.steps) call.id ≡ false
        → valid_call call ≡ none
        → IsSound utf8_valid
            (record (moved cp running_tool) { revision = 0; pending_tool = some call })
    unfolding valid_transition check_pending
    start_tool-IsSound call m lt fresh ok_call =
        let t : Transition = record { from = cp.result.status; to = running_tool } in
        updated-IsSound 0 cp.model_iterations cp.model_retries running_tool cp.result.output
          cp.result.steps (cp.result.transitions ++ t ∷ []) (some call) cp.error h.budget.1
          h.retries.0 h.retries.1 (moved_history running_tool (ground arith))
          (ground (
            arith,
            good.fits,
            count-append starts_tool cp.result.transitions t,
            count-append finishes_tool cp.result.transitions t,
          ))
          (inl refl)

    pub finish_tool-IsSound :
        (call : ToolCall) (output : String)
        → cp.result.status ≡ running_tool
        → cp.pending_tool ≡ some call
        → IsSound utf8_valid (record (moved (with_step cp call output) running_model) {
          revision = 0;
          pending_tool = none;
        })
    unfolding valid_transition check_pending contains
    finish_tool-IsSound call output m p =
        let facts = check_pending-some call cp.model_iterations cp.result.steps (
          subst (λ o. check_pending o cp.model_iterations cp.result.steps ≡ none) p good.pending) in
        let steps_good =
          check_steps-append 0 (length cp.result.steps + 1) [] cp.result.steps call output
            (omega arith) good.steps refl facts.1 facts.0 in
        let t : Transition = record { from = cp.result.status; to = running_model } in
        let step = done_step cp call output in
        updated-IsSound 0 cp.model_iterations cp.model_retries running_model cp.result.output
          (cp.result.steps ++ step ∷ []) (cp.result.transitions ++ t ∷ []) none cp.error h.budget.1
          h.retries.0 h.retries.1 (moved_history running_model (ground arith))
          (ground (
            arith,
            good.fits,
            good.pending,
            length-append cp.result.steps (step ∷ []),
            count-append starts_tool cp.result.transitions t,
            count-append finishes_tool cp.result.transitions t,
            steps_good,
            facts,
          ))
          (inl refl)

    pub complete-IsSound :
        (output : String)
        → cp.result.status ≡ running_model
        → length cp.result.steps < cp.model_iterations
        → let done = moved cp completed in
          IsSound utf8_valid
            (record done { revision = 0; result = record done.result { output = output } })
    unfolding valid_transition check_pending
    complete-IsSound output m lt =
        let t : Transition = record { from = cp.result.status; to = completed } in
        updated-IsSound 0 cp.model_iterations cp.model_retries completed output cp.result.steps
          (cp.result.transitions ++ t ∷ []) cp.pending_tool cp.error h.budget.1 h.retries.0
          h.retries.1 (moved_history completed (ground arith))
          (ground (
            arith,
            good.fits,
            count-append starts_tool cp.result.transitions t,
            count-append finishes_tool cp.result.transitions t,
          ))
          (inl refl)

    pub stop-IsSound :
        (status : Status) (text : String)
        → (status ≡ failed) ⊎ (status ≡ cancelled)
        → (cp.result.status ≡ running_model) ⊎ (cp.result.status ≡ running_tool)
        → str_eq text "" ≡ false
        → IsSound utf8_valid (record (moved cp status) { revision = 0; error = text })
    unfolding valid_transition
    stop-IsSound status text s m nonempty =
        let t : Transition = record { from = cp.result.status; to = status } in
        updated-IsSound 0 cp.model_iterations cp.model_retries status cp.result.output
          cp.result.steps (cp.result.transitions ++ t ∷ []) cp.pending_tool text h.budget.1
          h.retries.0 h.retries.1 (moved_history status (ground arith))
          (ground (
            arith,
            good.fits,
            get_last?-append cp.result.transitions t,
            count-append starts_tool cp.result.transitions t,
            count-append finishes_tool cp.result.transitions t,
          ))
          (inl refl)
