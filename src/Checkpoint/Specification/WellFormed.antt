-- ===== src/Checkpoint/Specification/WellFormed.antt =====
-- file_store.go (`validateCheckpoint`) and recovery.go (`validateRecoveryState`): the tests accept
-- exactly the well-formed checkpoints.
use agent_harness_runtime.Base.{
  ℕ, ◌+◌, ◌*◌, ◌%◌, ◌^◌, ◌≤◌, ◌<◌, String, Bool, true, false, ◌≡◌, ◌≢◌, refl, sym, ap, ◌↔◌, ◌⊎◌,
  Option, none, some, List, [], ◌∷◌, ◌++◌, arith, eq_iff, length, All, if◌then◌else◌,
}
use agent_harness_runtime.Status.{created, completed, failed, cancelled, is_terminal}
use agent_harness_runtime.Types.{ToolCall, Step}
use agent_harness_runtime.Checkpoint.{
  Checkpoint, count, starts_tool, finishes_tool, checkpoint_revision, contains, pending_count,
  validate_checkpoint, texts, call_texts, pending_texts, step_texts,
}
use agent_harness_runtime.Checkpoint.History.{count-boundaries}
use agent_harness_runtime.Checkpoint.Validity.{
  IsSound, StatusFits, validate_checkpoint-IsSound, validate_checkpoint_complete,
}
use agent_harness_runtime.Checkpoint.Specification.{
  Leads, Numbered, DistinctCalls, PendingFits, str_eq-false, check_steps_iff, check_pending_iff,
  history_from-Leads, Leads-history_from,
}

-- What an execution has done: one for its creation, each reserved model attempt and retry, two for
-- each completed tool call, one for a pending call and one for its end.
abbrev pub progress : Checkpoint → ℕ
progress cp =
    1
    + cp.model_iterations
    + cp.model_retries
    + 2 * length cp.result.steps
    + pending_count cp.pending_tool
    + (if is_terminal cp.result.status then 1 else 0)

module _ (utf8_valid : String → Bool) where
  abbrev pub Proper : String → Type 0
  Proper t = utf8_valid t ≡ true

  abbrev pub ProperTexts : ToolCall → Type 0
  ProperTexts call = Proper call.id × Proper call.name × Proper call.arguments

  abbrev pub PendingTexts : Option ToolCall → Type 0
  PendingTexts none = Unit
  PendingTexts (some call) = ProperTexts call

  abbrev pub StepTexts : Step → Type 0
  StepTexts s = ProperTexts s.call × Proper s.result.call_id × Proper s.result.output

  -- The parts of a checkpoint of schema version 2 or 3 fit each other.
  pub record WellFormed (cp : Checkpoint) : Type 0 where
    pub schema : (2 ≤ cp.schema) × (cp.schema ≤ 3)
    pub execution_id : cp.execution_id ≢ ""
    pub same_ids :
        (cp.request.execution_id ≡ cp.execution_id) × (cp.result.execution_id ≡ cp.execution_id)
    pub prompt : cp.request.prompt ≢ ""
    pub budget : (0 < cp.max_steps) × (cp.model_iterations ≤ cp.max_steps)
    pub retries :
        (cp.model_retries ≤ cp.max_model_retries) × (cp.model_retries ≤ cp.model_iterations)
    pub old_retries : (cp.schema ≡ 3) ⊎ ((cp.max_model_retries ≡ 0) × (cp.model_retries ≡ 0))
    pub history : Leads created cp.result.transitions cp.result.status
    pub reserved : length cp.result.steps ≤ cp.model_iterations
    pub numbered : Numbered 1 cp.result.steps
    pub distinct : DistinctCalls cp.result.steps
    pub pending : PendingFits cp.pending_tool cp.model_iterations cp.result.steps
    pub finished : count finishes_tool cp.result.transitions ≡ length cp.result.steps
    pub started :
        count starts_tool cp.result.transitions
        ≡ length cp.result.steps + pending_count cp.pending_tool
    pub fits : StatusFits cp.result.status cp
    pub output : (cp.result.status ≡ completed) ⊎ (cp.result.output ≡ "")
    pub error : (cp.result.status ≡ failed) ⊎ ((cp.result.status ≡ cancelled) ⊎ (cp.error ≡ ""))
    pub revision : (cp.revision ≡ 0) ⊎ (cp.revision ≡ progress cp % 2 ^ 64)
    pub own_texts :
        Proper cp.execution_id
        × Proper cp.request.prompt
        × Proper cp.result.output
        × Proper cp.error
    pub pending_texts_proper : PendingTexts cp.pending_tool
    pub step_texts_proper : All StepTexts cp.result.steps

  step_texts_iff : (ss : List Step) → All Proper (step_texts ss) ↔ All StepTexts ss
  unfolding step_texts call_texts
  step_texts_iff [] = (λ h. tt, λ h. tt)
  step_texts_iff (s ∷ ss) =
      let rest = step_texts_iff ss in
      (
        λ (a, (b, (c, (d, (e, f))))). (((a, b, c), d, e), rest.0 f),
        λ (((a, b, c), d, e), f). (a, (b, (c, (d, (e, rest.1 f))))),
      )

  later_texts_iff :
      (o : Option ToolCall) (ss : List Step)
      → All Proper (pending_texts o ++ step_texts ss) ↔ (PendingTexts o × All StepTexts ss)
  unfolding pending_texts call_texts
  later_texts_iff none ss = (λ h. (tt, (step_texts_iff ss).0 h), λ (a, h). (step_texts_iff ss).1 h)
  later_texts_iff (some call) ss = (
    λ (a, (b, (c, h))). ((a, b, c), (step_texts_iff ss).0 h),
    λ ((a, b, c), h). (a, (b, (c, (step_texts_iff ss).1 h))),
  )

  texts_iff :
      (cp : Checkpoint)
      → All Proper (texts cp) ↔ (
          (Proper cp.execution_id
            × Proper cp.request.prompt
            × Proper cp.result.output
            × Proper cp.error)
          × PendingTexts cp.pending_tool
          × All StepTexts cp.result.steps)
  unfolding texts
  texts_iff cp =
      let later = later_texts_iff cp.pending_tool cp.result.steps in
      (
        λ (a, (b, (c, (d, h)))). ((a, b, c, d), (later.0 h).0, (later.0 h).1),
        λ ((a, b, c, d), h, k). (a, (b, (c, (d, later.1 (h, k))))),
      )

  none_seen : (s : List Step) → All (λ s. contains [] s.call.id ≡ false) s
  unfolding contains
  none_seen [] = tt
  none_seen (s ∷ ss) = (refl, none_seen ss)

  revised :
      (cp : Checkpoint)
      → count finishes_tool cp.result.transitions ≡ length cp.result.steps
      → count starts_tool cp.result.transitions
        ≡ length cp.result.steps + pending_count cp.pending_tool
      → checkpoint_revision cp ≡ progress cp % 2 ^ 64
  unfolding checkpoint_revision
  revised cp f s =
      let boundaries = count-boundaries cp.result.transitions in
      ap (λ n. n % 2 ^ 64) (omega (arith, boundaries, f, s))

  IsSound-WellFormed : (cp : Checkpoint) → IsSound utf8_valid cp → WellFormed cp
  IsSound-WellFormed cp h =
      let good = h.recoverable in
      let steps = (check_steps_iff 0 [] cp.result.steps).0 good.steps in
      let proper = (texts_iff cp).0 h.texts_valid in
      let revision = revised cp good.finished good.started in
      record {
        schema = h.schema;
        execution_id = (str_eq-false cp.execution_id "").0 h.id;
        same_ids = (sym h.request_id, sym h.result_id);
        prompt = (str_eq-false cp.request.prompt "").0 h.prompt;
        budget = h.budget;
        retries = h.retries;
        old_retries = ground (arith, h.old_retries, h.schema);
        history = history_from-Leads created cp.result.status cp.result.transitions h.history;
        reserved = good.reserved;
        numbered = steps.0;
        distinct = steps.2;
        pending =
            (check_pending_iff cp.pending_tool cp.model_iterations cp.result.steps).0 good.pending;
        finished = good.finished;
        started = good.started;
        fits = good.fits;
        output = ground (arith, good.output, eq_iff cp.result.output "");
        error = ground (arith, good.error, eq_iff cp.error "");
        revision = ground (arith, h.revision, revision);
        own_texts = proper.0;
        pending_texts_proper = proper.1;
        step_texts_proper = proper.2;
      }

  WellFormed-IsSound : (cp : Checkpoint) → WellFormed cp → IsSound utf8_valid cp
  WellFormed-IsSound cp h =
      let revision = revised cp h.finished h.started in
      record {
        schema = h.schema;
        id = (str_eq-false cp.execution_id "").1 h.execution_id;
        request_id = sym (h.same_ids.0);
        result_id = sym (h.same_ids.1);
        prompt = (str_eq-false cp.request.prompt "").1 h.prompt;
        budget = h.budget;
        retries = h.retries;
        old_retries = ground (arith, h.old_retries);
        history = Leads-history_from created cp.result.status cp.result.transitions h.history;
        recoverable = record {
          reserved = h.reserved;
          steps =
              (check_steps_iff 0 [] cp.result.steps).1
                (h.numbered, none_seen cp.result.steps, h.distinct);
          pending =
              (check_pending_iff cp.pending_tool cp.model_iterations cp.result.steps).1 h.pending;
          finished = h.finished;
          started = h.started;
          fits = h.fits;
          output = ground (arith, h.output, eq_iff cp.result.output "");
          error = ground (arith, h.error, eq_iff cp.error "");
        };
        revision = ground (arith, h.revision, revision);
        texts_valid = (texts_iff cp).1 (h.own_texts, h.pending_texts_proper, h.step_texts_proper);
      }

  -- `validateCheckpoint` accepts a checkpoint of schema version 2 or later exactly if it is well formed:
  -- its identities agree and are not empty, its budgets hold, its transitions lead from created to its
  -- status along the life of an execution; its steps are numbered from 1, with distinct proper
  -- calls and the results of those; a pending call is proper, differs from them and has a model decision
  -- of its own; the transitions count the calls; the status, the output and the error text fit; the
  -- revision is zero or counts the progress; and every text is valid UTF-8.
  pub validate_checkpoint-WellFormed :
      (cp : Checkpoint) → 2 ≤ cp.schema → (validate_checkpoint utf8_valid cp ≡ none) ↔ WellFormed cp
  validate_checkpoint-WellFormed cp v = (
    λ h. IsSound-WellFormed cp (validate_checkpoint-IsSound utf8_valid cp v h),
    λ h. validate_checkpoint_complete utf8_valid cp (WellFormed-IsSound cp h),
  )
