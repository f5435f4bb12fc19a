-- ===== src/Checkpoint/Signed/Natural.antt =====
-- file_store.go (`validateCheckpoint`): what the tests accept has no negative number.
use agent_harness_runtime.Base.{
  ℕ, suc, ◌+◌, ◌≡◌, refl, sym, ap, ◌∙◌, ◌↔◌, String, Bool, true, false, Option, none, List, [], ◌∷◌,
  map, ℤ, pos, negsuc, int_eq, int_lt, is_negative, magnitude, arith, if◌then◌else◌, length, ltb,
  leb,
}
use agent_harness_runtime.Errors.{Error}
use agent_harness_runtime.Status.{created}
use agent_harness_runtime.Types.{Step}
use agent_harness_runtime.Checkpoint.{
  Checkpoint, check, ◌⨾◌, check_steps, check_progress, check_history, history_from, check_revision,
  check_texts, texts, check_schema, check_identity, check_budget, check_retries, check_recovery,
  invalid, validate_recovery_state, validate_checkpoint,
}
use agent_harness_runtime.Checkpoint.Signed.{
  StoredStep, StoredCheckpoint, stored_step, natural_step, stored_form, natural, check_stored_steps,
  stored_schema, stored_budget, stored_retries, stored_recovery, validate_stored,
}

natural-stored_step : (ss : List Step) → map natural_step (map stored_step ss) ≡ ss
natural-stored_step [] = refl
natural-stored_step (s ∷ ss) = ap (λ l. s ∷ l) (natural-stored_step ss)

length-stored_step : (ss : List Step) → length (map stored_step ss) ≡ length ss
length-stored_step [] = refl
length-stored_step (s ∷ ss) = ap suc (length-stored_step ss)

natural-stored : (cp : Checkpoint) → natural (stored_form cp) ≡ cp
natural-stored cp =
    ap (λ steps. record cp { result = record cp.result { steps = steps } })
      (natural-stored_step cp.result.steps)

check_stored_steps-stored :
    (i : ℕ) (seen : List String) (ss : List Step)
    → check_stored_steps i seen (map stored_step ss) ≡ check_steps i seen ss
unfolding check_stored_steps check_steps
check_stored_steps-stored i seen [] = refl
check_stored_steps-stored i seen (s ∷ ss) =
    rw (check_stored_steps-stored (i + 1) (s.call.id ∷ seen) ss) refl

schema-stored : (cp : Checkpoint) → stored_schema (stored_form cp) ≡ check_schema cp
unfolding check_schema
schema-stored cp = refl

budget-stored : (cp : Checkpoint) → stored_budget (stored_form cp) ≡ check_budget cp
unfolding check_budget
budget-stored cp = ground arith

retries-stored : (cp : Checkpoint) → stored_retries (stored_form cp) ≡ check_retries cp
unfolding check_retries
retries-stored cp = ground arith

abbrev recovery_of : Checkpoint → ℕ → Option Error → Option Error → Option Error
recovery_of cp n steps later =
    if ltb cp.schema 2
    then none
    else check (ltb cp.model_iterations n)
        (invalid "completed steps exceed reserved model iterations")
      ⨾ steps
      ⨾ later

either_way :
    (schema : ℕ) (o : Option Error)
    → (if ltb schema 2 then none else o) ≡ (if leb 2 schema then o else none)
either_way schema o = ground arith

recovery-stored : (cp : Checkpoint) → stored_recovery (stored_form cp) ≡ check_recovery cp
unfolding stored_recovery check_recovery validate_recovery_state
recovery-stored cp =
    ap
      (λ n.
        recovery_of cp n (check_stored_steps 0 [] (map stored_step cp.result.steps))
          (check_progress (natural (stored_form cp))))
      (length-stored_step cp.result.steps)
    ∙ ap
        (λ o. recovery_of cp (length cp.result.steps) o (check_progress (natural (stored_form cp))))
        (check_stored_steps-stored 0 [] cp.result.steps)
    ∙ ap
        (λ c.
          recovery_of cp (length cp.result.steps) (check_steps 0 [] cp.result.steps)
            (check_progress c))
        (natural-stored cp)
    ∙ either_way cp.schema (validate_recovery_state cp)

abbrev tests :
    (String → Bool)
    → Checkpoint
    → Checkpoint
    → Option Error
    → Option Error
    → Option Error
    → Option Error
tests utf8_valid cp n budget retries recovery =
    check_schema cp
    ⨾ check_identity n
    ⨾ budget
    ⨾ retries
    ⨾ check_history (history_from created cp.result.transitions) cp.result.status
    ⨾ recovery
    ⨾ check_revision n
    ⨾ check_texts utf8_valid (texts n)

-- On numbers that are not negative, the tests are those of `validate_checkpoint`.
validate_stored-stored :
    (utf8_valid : String → Bool) (cp : Checkpoint)
    → validate_stored utf8_valid (stored_form cp) ≡ validate_checkpoint utf8_valid cp
unfolding validate_stored validate_checkpoint check_schema
validate_stored-stored u cp =
    let s = stored_form cp in
    ap (λ n. tests u cp n (stored_budget s) (stored_retries s) (stored_recovery s))
      (natural-stored cp)
    ∙ ap (λ b. tests u cp cp b (stored_retries s) (stored_recovery s)) (budget-stored cp)
    ∙ ap (λ b. tests u cp cp (check_budget cp) b (stored_recovery s)) (retries-stored cp)
    ∙ ap (λ b. tests u cp cp (check_budget cp) (check_retries cp) b) (recovery-stored cp)

pos-magnitude : (x : ℤ) → is_negative x ≡ false → pos (magnitude x) ≡ x
pos-magnitude (pos n) h = refl
pos-magnitude (negsuc n) h = cc

schema-signs : (s : StoredCheckpoint) → stored_schema s ≡ none → is_negative s.schema ≡ false
schema-signs s h = ground arith

budget-signs :
    (s : StoredCheckpoint)
    → stored_budget s ≡ none
    → (is_negative s.max_steps ≡ false) × (is_negative s.model_iterations ≡ false)
budget-signs s h = ground arith

retries-signs :
    (s : StoredCheckpoint)
    → stored_retries s ≡ none
    → (is_negative s.max_model_retries ≡ false) × (is_negative s.model_retries ≡ false)
retries-signs s h = ground arith

steps-signs :
    (i : ℕ) (seen : List String) (ss : List StoredStep)
    → check_stored_steps i seen ss ≡ none
    → map stored_step (map natural_step ss) ≡ ss
unfolding check_stored_steps
steps-signs i seen [] h = refl
steps-signs i seen (s ∷ ss) h =
    let parts : (int_eq s.index (pos (i + 1)) ≡ true)
        × (check_stored_steps (i + 1) (s.call.id ∷ seen) ss ≡ none) =
      ground (arith, h) in
    let rest = steps-signs (i + 1) (s.call.id ∷ seen) ss parts.1 in
    let index : pos (magnitude s.index) ≡ s.index =
      pos-magnitude s.index (ground (arith, parts.0)) in
    ap (λ n. record s { index = n } ∷ map stored_step (map natural_step ss)) index
    ∙ ap (λ l. s ∷ l) rest

stored-natural :
    (s : StoredCheckpoint)
    → int_lt s.schema (pos 2) ≡ false
    → stored_schema s ≡ none
    → stored_budget s ≡ none
    → stored_retries s ≡ none
    → stored_recovery s ≡ none
    → s ≡ stored_form (natural s)
unfolding stored_recovery
stored-natural s v schema budget retries recovery =
    let a = pos-magnitude s.schema (schema-signs s schema) in
    let b = pos-magnitude s.max_steps (budget-signs s budget).0 in
    let c = pos-magnitude s.model_iterations (budget-signs s budget).1 in
    let d = pos-magnitude s.max_model_retries (retries-signs s retries).0 in
    let e = pos-magnitude s.model_retries (retries-signs s retries).1 in
    let loop : check_stored_steps 0 [] s.steps ≡ none = ground (arith, v, recovery) in
    let f = steps-signs 0 [] s.steps loop in rw (a, b, c, d, e, f) refl

-- `validateCheckpoint`, on a record whose numbers may be negative, of schema version 2 or later, accepts
-- exactly the records without a negative number of the checkpoints that `validate_checkpoint` accepts:
-- nothing that is validated is lost in a `Checkpoint` of natural numbers.
pub validate_stored_iff :
    (utf8_valid : String → Bool) (s : StoredCheckpoint)
    → int_lt s.schema (pos 2) ≡ false
    → (validate_stored utf8_valid s ≡ none)
      ↔ ((cp : Checkpoint) × (s ≡ stored_form cp) × (validate_checkpoint utf8_valid cp ≡ none))
unfolding validate_stored
validate_stored_iff u s v = (
  λ h.
      let stages = accepted _ _ _ _ _ _ _ h in
      let same = stored-natural s v stages.0 stages.1 stages.2 stages.3 in
      (
        natural s,
        same,
        sym (validate_stored-stored u (natural s)) ∙ ap (validate_stored u) (sym same) ∙ h,
      ),
  λ (cp, q, h). ap (validate_stored u) q ∙ validate_stored-stored u cp ∙ h,
)
  where
    accepted :
        (a b c d e f g : Option Error)
        → (a ⨾ b ⨾ c ⨾ d ⨾ e ⨾ f ⨾ g) ≡ none
        → (a ≡ none) × (c ≡ none) × (d ≡ none) × (f ≡ none)
    accepted a b c d e f g h = ground arith
