-- ===== src/Checkpoint/Validity.antt =====
-- What `validateCheckpoint` accepts, said without the order of its tests.
use agent_harness_runtime.Base.{
  ℕ, ◌+◌, ◌≤◌, ◌<◌, String, Bool, true, false, ◌≡◌, refl, ◌↔◌, ◌⊎◌, Option, none, some, List, [],
  ◌∷◌, arith, str_eq, eq_iff, ◌==◌, length, All, get_last?,
}
use agent_harness_runtime.Errors.{Error}
use agent_harness_runtime.Status.{
  Status, created, running_model, running_tool, completed, failed, cancelled, unset, status_eq,
  Transition,
}
use agent_harness_runtime.Checkpoint.{
  Checkpoint, count, starts_tool, finishes_tool, checkpoint_revision, check, ◌⨾◌, check_steps,
  check_pending, pending_count, check_terminal, check_status, check_progress,
  validate_recovery_state, history_from, check_history, texts, check_texts, validate_checkpoint,
  check_schema, check_identity, check_budget, check_retries, check_recovery, check_revision,
}

pub ⨾-eq-none : (a b : Option Error) → ((a ⨾ b) ≡ none) ↔ ((a ≡ none) × (b ≡ none))
⨾-eq-none a b = (λ h. ground arith, λ h. ground arith)

pub check-eq-none : (b : Bool) (e : Error) → (check b e ≡ none) ↔ (b ≡ false)
check-eq-none b e = (λ h. ground arith, λ h. ground arith)

-- The last transition leaves `running_tool` exactly if a call is pending.
abbrev pub LeavesTool : Option Transition → ℕ → Type 0
LeavesTool none pending = ⊥
LeavesTool (some last) pending = status_eq last.from running_tool ≡ (pending == 1)

check_terminal_iff :
    (last : Option Transition) (pending : ℕ)
    → (check_terminal last pending ≡ none) ↔ LeavesTool last pending
unfolding check_terminal
check_terminal_iff none pending = (λ h. cc, λ h. absurd h)
check_terminal_iff (some last) pending = (λ h. ground arith, λ h. ground arith)

-- The status agrees with the pending call and the error text.
abbrev pub StatusFits : Status → Checkpoint → Type 0
StatusFits created cp =
    (cp.model_iterations ≡ 0) × (cp.model_retries ≡ 0) × (pending_count cp.pending_tool ≡ 0)
StatusFits running_model cp = pending_count cp.pending_tool ≡ 0
StatusFits running_tool cp = pending_count cp.pending_tool ≡ 1
StatusFits completed cp =
    (pending_count cp.pending_tool ≡ 0) × (length cp.result.steps < cp.model_iterations)
StatusFits failed cp =
    (str_eq cp.error "" ≡ false)
    × LeavesTool (get_last? cp.result.transitions) (pending_count cp.pending_tool)
StatusFits cancelled cp =
    (str_eq cp.error "" ≡ false)
    × LeavesTool (get_last? cp.result.transitions) (pending_count cp.pending_tool)
StatusFits unset cp = Unit

check_status_iff :
    (s : Status) (cp : Checkpoint)
    → (check_status s cp (pending_count cp.pending_tool) ≡ none) ↔ StatusFits s cp
unfolding check_status
check_status_iff created cp = (λ h. ground arith, λ h. ground arith)
check_status_iff running_model cp = (λ h. ground arith, λ h. ground arith)
check_status_iff running_tool cp = (λ h. ground arith, λ h. ground arith)
check_status_iff completed cp = (λ h. ground arith, λ h. ground arith)
check_status_iff failed cp =
    let t = check_terminal_iff (get_last? cp.result.transitions) (pending_count cp.pending_tool) in
    (
      λ h. let (a, b) = (⨾-eq-none _ _).0 h in ((check-eq-none _ _).0 a, t.0 b),
      λ h. (⨾-eq-none _ _).1 ((check-eq-none _ _).1 h.0, t.1 h.1),
    )
check_status_iff cancelled cp =
    let t = check_terminal_iff (get_last? cp.result.transitions) (pending_count cp.pending_tool) in
    (
      λ h. let (a, b) = (⨾-eq-none _ _).0 h in ((check-eq-none _ _).0 a, t.0 b),
      λ h. (⨾-eq-none _ _).1 ((check-eq-none _ _).1 h.0, t.1 h.1),
    )
check_status_iff unset cp = (λ h. tt, λ h. refl)

-- The relations between the parts of a checkpoint that make it safe to resume.
pub record IsRecoverable (cp : Checkpoint) : Type 0 where
  pub reserved : length cp.result.steps ≤ cp.model_iterations
  pub steps : check_steps 0 [] cp.result.steps ≡ none
  pub pending : check_pending cp.pending_tool cp.model_iterations cp.result.steps ≡ none
  pub finished : count finishes_tool cp.result.transitions ≡ length cp.result.steps
  pub started :
      count starts_tool cp.result.transitions
      ≡ length cp.result.steps + pending_count cp.pending_tool
  pub fits : StatusFits cp.result.status cp
  pub output : (cp.result.status ≡ completed) ⊎ (str_eq cp.result.output "" ≡ true)
  pub error :
      (cp.result.status ≡ failed) ⊎ ((cp.result.status ≡ cancelled) ⊎ (str_eq cp.error "" ≡ true))

pub validate_recovery_state_sound :
    (cp : Checkpoint) → validate_recovery_state cp ≡ none → IsRecoverable cp
unfolding validate_recovery_state check_progress
validate_recovery_state_sound cp h = ground (arith, (check_status_iff cp.result.status cp).0)

pub validate_recovery_state_complete :
    (cp : Checkpoint) → IsRecoverable cp → validate_recovery_state cp ≡ none
unfolding validate_recovery_state check_progress
validate_recovery_state_complete cp h =
    ground (arith, (check_status_iff cp.result.status cp).1 h.fits)

check_history_iff : (o : Option Status) (s : Status) → (check_history o s ≡ none) ↔ (o ≡ some s)
unfolding check_history
check_history_iff none s = (λ h. cc, λ h. cc)
check_history_iff (some t) s = (λ h. ground arith, λ h. ground arith)

check_texts_iff :
    (utf8_valid : String → Bool) (ts : List String)
    → (check_texts utf8_valid ts ≡ none) ↔ All (λ t. utf8_valid t ≡ true) ts
unfolding check_texts
check_texts_iff utf8_valid [] = (λ h. tt, λ h. refl)
check_texts_iff utf8_valid (t ∷ ts) =
    let rest = check_texts_iff utf8_valid ts in
    (λ h. ground (arith, rest.0), λ h. ground (arith, rest.1 h.1))

-- A checkpoint that `validateCheckpoint` accepts, of schema version 2 or later.
pub record IsSound (utf8_valid : String → Bool) (cp : Checkpoint) : Type 0 where
  pub schema : (2 ≤ cp.schema) × (cp.schema ≤ 3)
  pub id : str_eq cp.execution_id "" ≡ false
  pub request_id : cp.execution_id ≡ cp.request.execution_id
  pub result_id : cp.execution_id ≡ cp.result.execution_id
  pub prompt : str_eq cp.request.prompt "" ≡ false
  pub budget : (0 < cp.max_steps) × (cp.model_iterations ≤ cp.max_steps)
  pub retries : (cp.model_retries ≤ cp.max_model_retries) × (cp.model_retries ≤ cp.model_iterations)
  pub old_retries : (3 ≤ cp.schema) ⊎ ((cp.max_model_retries ≡ 0) × (cp.model_retries ≡ 0))
  pub history : history_from created cp.result.transitions ≡ some cp.result.status
  pub recoverable : IsRecoverable cp
  pub revision : (cp.revision ≡ 0) ⊎ (cp.revision ≡ checkpoint_revision cp)
  pub texts_valid : All (λ t. utf8_valid t ≡ true) (texts cp)

check_schema_iff :
    (cp : Checkpoint) → (check_schema cp ≡ none) ↔ ((1 ≤ cp.schema) × (cp.schema ≤ 3))
unfolding check_schema
check_schema_iff cp = (λ h. ground arith, λ h. ground arith)

check_identity_iff :
    (cp : Checkpoint)
    → (check_identity cp ≡ none) ↔ (
        (str_eq cp.execution_id "" ≡ false)
        × (cp.execution_id ≡ cp.request.execution_id)
        × (cp.execution_id ≡ cp.result.execution_id))
unfolding check_identity
check_identity_iff cp =
    let a = eq_iff cp.execution_id cp.request.execution_id in
    let b = eq_iff cp.execution_id cp.result.execution_id in
    (λ h. ground (arith, a, b), λ h. ground (arith, a, b))

check_budget_iff :
    (cp : Checkpoint)
    → (check_budget cp ≡ none) ↔ (
        (str_eq cp.request.prompt "" ≡ false)
        × (0 < cp.max_steps)
        × (cp.model_iterations ≤ cp.max_steps))
unfolding check_budget
check_budget_iff cp = (λ h. ground arith, λ h. ground arith)

check_retries_iff :
    (cp : Checkpoint)
    → (check_retries cp ≡ none) ↔ (
        (cp.model_retries ≤ cp.max_model_retries)
        × (cp.model_retries ≤ cp.model_iterations)
        × ((3 ≤ cp.schema) ⊎ ((cp.max_model_retries ≡ 0) × (cp.model_retries ≡ 0))))
unfolding check_retries
check_retries_iff cp = (λ h. ground arith, λ h. ground arith)

check_revision_iff :
    (cp : Checkpoint)
    → (check_revision cp ≡ none) ↔ ((cp.revision ≡ 0) ⊎ (cp.revision ≡ checkpoint_revision cp))
unfolding check_revision
check_revision_iff cp = (λ h. ground arith, λ h. ground arith)

check_recovery_sound :
    (cp : Checkpoint) → 2 ≤ cp.schema → check_recovery cp ≡ none → IsRecoverable cp
unfolding check_recovery
check_recovery_sound cp v h = validate_recovery_state_sound cp (ground arith)

check_recovery_complete : (cp : Checkpoint) → IsRecoverable cp → check_recovery cp ≡ none
unfolding check_recovery
check_recovery_complete cp h = ground (arith, validate_recovery_state_complete cp h)

stages_iff :
    (a b c d e f g h : Option Error)
    → ((a ⨾ b ⨾ c ⨾ d ⨾ e ⨾ f ⨾ g ⨾ h) ≡ none) ↔ (
        (a ≡ none)
        × (b ≡ none)
        × (c ≡ none)
        × (d ≡ none)
        × (e ≡ none)
        × (f ≡ none)
        × (g ≡ none)
        × (h ≡ none))
stages_iff a b c d e f g h = (λ p. ground arith, λ p. ground arith)

module _ (utf8_valid : String → Bool) (cp : Checkpoint) where
  stages_of : (validate_checkpoint utf8_valid cp ≡ none) ↔ (
      (check_schema cp ≡ none)
      × (check_identity cp ≡ none)
      × (check_budget cp ≡ none)
      × (check_retries cp ≡ none)
      × (check_history (history_from created cp.result.transitions) cp.result.status ≡ none)
      × (check_recovery cp ≡ none)
      × (check_revision cp ≡ none)
      × (check_texts utf8_valid (texts cp) ≡ none))
  unfolding validate_checkpoint
  stages_of =
      stages_iff (check_schema cp) (check_identity cp) (check_budget cp) (check_retries cp)
        (check_history (history_from created cp.result.transitions) cp.result.status)
        (check_recovery cp) (check_revision cp) (check_texts utf8_valid (texts cp))

  -- A checkpoint of schema version 2 or later that `validateCheckpoint` accepts is sound.
  pub validate_checkpoint-IsSound :
      2 ≤ cp.schema → validate_checkpoint utf8_valid cp ≡ none → IsSound utf8_valid cp
  validate_checkpoint-IsSound v h =
      let (a, b, c, d, e, f, g, t) = stages_of.0 h in
      let identity = (check_identity_iff cp).0 b in
      let budget = (check_budget_iff cp).0 c in
      let retries = (check_retries_iff cp).0 d in
      record {
        schema = (v, ((check_schema_iff cp).0 a).1);
        id = identity.0;
        request_id = identity.1;
        result_id = identity.2;
        prompt = budget.0;
        budget = (budget.1, budget.2);
        retries = (retries.0, retries.1);
        old_retries = retries.2;
        history = (check_history_iff _ _).0 e;
        recoverable = check_recovery_sound cp v f;
        revision = (check_revision_iff cp).0 g;
        texts_valid = (check_texts_iff utf8_valid (texts cp)).0 t;
      }

  -- Every sound checkpoint is accepted.
  pub validate_checkpoint_complete :
      IsSound utf8_valid cp → validate_checkpoint utf8_valid cp ≡ none
  validate_checkpoint_complete h = stages_of.1 (
    (check_schema_iff cp).1 (omega arith),
    (check_identity_iff cp).1 (h.id, h.request_id, h.result_id),
    (check_budget_iff cp).1 (h.prompt, h.budget.0, h.budget.1),
    (check_retries_iff cp).1 (h.retries.0, h.retries.1, h.old_retries),
    (check_history_iff _ _).1 h.history,
    check_recovery_complete cp h.recoverable,
    (check_revision_iff cp).1 h.revision,
    (check_texts_iff utf8_valid (texts cp)).1 h.texts_valid,
  )
