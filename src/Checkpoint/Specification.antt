-- ===== src/Checkpoint/Specification.antt =====
-- file_store.go (`validateCheckpoint`) and recovery.go (`validateRecoveryState`): which checkpoints are
-- well formed, said of their parts and not by the tests.
pub mod WellFormed
use agent_harness_runtime.Base.{
  ℕ, ◌+◌, ◌*◌, ◌%◌, ◌^◌, ◌≤◌, ◌<◌, String, Bool, true, false, ◌||◌, ◌≡◌, ◌≢◌, refl, sym, ◌∙◌, ◌↔◌,
  ◌⊎◌, inl, inr, Option, none, some, List, [], ◌∷◌, arith, str_eq, eq_iff, length, All, Bool-cases,
  false≢true, subst, if◌then◌else◌,
}
use agent_harness_runtime.Status.{
  Status, created, running_model, running_tool, completed, failed, cancelled, unset, status_eq,
  Transition, valid_transition, is_terminal,
}
use agent_harness_runtime.Types.{ToolCall, Step, validate_decision}
use agent_harness_runtime.Checkpoint.{
  Checkpoint, count, starts_tool, finishes_tool, checkpoint_revision, contains, call_ids,
  check_steps, check_pending, pending_count, history_from, valid_call,
}
use agent_harness_runtime.Checkpoint.History.{count-boundaries, status_eq-eq, status_eq_refl}

-- The life of an execution.
pub data Allowed : Status → Status → Type 0 where
  starts : Allowed created running_model
  calls_tool : Allowed running_model running_tool
  answers : Allowed running_model completed
  fails_in_model : Allowed running_model failed
  ends_in_model : Allowed running_model cancelled
  goes_on : Allowed running_tool running_model
  fails_in_tool : Allowed running_tool failed
  ends_in_tool : Allowed running_tool cancelled

-- The transitions lead from one status to another.
pub data Leads : Status → List Transition → Status → Type 0 where
  stays : (s : Status) → Leads s [] s
  moves :
      (s t u : Status) (ts : List Transition)
      → Allowed s t
      → Leads t ts u
      → Leads s (record { from = s; to = t } ∷ ts) u

abbrev pub ProperCall : ToolCall → Type 0
ProperCall call = (call.id ≢ "") × (call.name ≢ "")

-- The steps are numbered from `n` on, and each holds the result of its own call.
abbrev pub Numbered : ℕ → List Step → Type 0
Numbered n [] = Unit
Numbered n (s ∷ ss) =
    (s.index ≡ n) × (s.result.call_id ≡ s.call.id) × ProperCall s.call × Numbered (n + 1) ss

abbrev pub Differs : String → List Step → Type 0
Differs id ss = All (λ s. s.call.id ≢ id) ss

-- No two steps have the same call ID.
abbrev pub DistinctCalls : List Step → Type 0
DistinctCalls [] = Unit
DistinctCalls (s ∷ ss) = Differs s.call.id ss × DistinctCalls ss

-- A pending call is none of the completed ones, and has a model decision of its own.
abbrev pub PendingFits : Option ToolCall → ℕ → List Step → Type 0
PendingFits none iterations steps = Unit
PendingFits (some call) iterations steps =
    ProperCall call × Differs call.id steps × (length steps < iterations)

str_eq-false : (a b : String) → (str_eq a b ≡ false) ↔ (a ≢ b)
str_eq-false a b = (
  λ h q. false≢true (sym h ∙ (eq_iff a b).1 q),
  λ h. elim (Bool-cases (str_eq a b)) [ inl e ↦ absurd (h ((eq_iff a b).0 e)) | inr e ↦ e ],
)

valid_call_iff : (call : ToolCall) → (valid_call call ≡ none) ↔ ProperCall call
unfolding validate_decision
valid_call_iff call =
    let id = str_eq-false call.id "" in
    let name = str_eq-false call.name "" in
    (
      λ h.
          let both : (str_eq call.id "" ≡ false) × (str_eq call.name "" ≡ false) =
            ground (arith, h) in
          (id.0 both.0, name.0 both.1),
      λ h. let a = id.1 h.0 in let b = name.1 h.1 in ground (arith, a, b),
    )

fresh-cons :
    (x : String) (seen : List String) (ss : List Step)
    → All (λ s. contains (x ∷ seen) s.call.id ≡ false) ss
      ↔ (Differs x ss × All (λ s. contains seen s.call.id ≡ false) ss)
unfolding contains
fresh-cons x seen [] = (λ h. (tt, tt), λ h. tt)
fresh-cons x seen (s ∷ ss) =
    let rest = fresh-cons x seen ss in
    let d = str_eq-false x s.call.id in
    (
      λ h.
          let both : (str_eq x s.call.id ≡ false) × (contains seen s.call.id ≡ false) =
            ground (arith, h.0) in
          ((λ q. d.0 both.0 (sym q), (rest.0 h.1).0), (both.1, (rest.0 h.1).1)),
      λ h.
          let apart = d.1 (λ q. h.0.0 (sym q)) in
          let old = h.1.0 in (ground (arith, apart, old), rest.1 (h.0.1, h.1.1)),
    )

check_steps_iff :
    (i : ℕ) (seen : List String) (ss : List Step)
    → (check_steps i seen ss ≡ none)
      ↔ (Numbered (i + 1) ss × All (λ s. contains seen s.call.id ≡ false) ss × DistinctCalls ss)
unfolding check_steps
check_steps_iff i seen [] = (λ h. (tt, tt, tt), λ h. refl)
check_steps_iff i seen (s ∷ ss) =
    let rest = check_steps_iff (i + 1) (s.call.id ∷ seen) ss in
    let fresh = fresh-cons s.call.id seen ss in
    let same = eq_iff s.result.call_id s.call.id in
    let call = valid_call_iff s.call in
    (
      λ h.
          let parts : (s.index ≡ i + 1)
              × (s.result.call_id ≡ s.call.id)
              × (contains seen s.call.id ≡ false)
              × (valid_call s.call ≡ none)
              × (check_steps (i + 1) (s.call.id ∷ seen) ss ≡ none) =
            ground (arith, h, same) in
          let below = rest.0 (parts.4) in
          let apart = fresh.0 (below.1) in
          ((parts.0, parts.1, call.0 (parts.3), below.0), (parts.2, apart.1), (apart.0, below.2)),
      λ h.
          let below = rest.1 (h.0.3, fresh.1 (h.2.0, h.1.1), h.2.1) in
          let proper = call.1 (h.0.2) in ground (arith, below, proper, same, h.0.0, h.0.1, h.1.0),
    )

contains-Differs :
    (id : String) (ss : List Step) → (contains (call_ids ss) id ≡ false) ↔ Differs id ss
unfolding contains
contains-Differs id [] = (λ h. tt, λ h. refl)
contains-Differs id (s ∷ ss) =
    let rest = contains-Differs id ss in
    let d = str_eq-false s.call.id id in
    (
      λ h.
          let both : (str_eq s.call.id id ≡ false) × (contains (call_ids ss) id ≡ false) =
            ground (arith, h) in
          (d.0 both.0, rest.0 both.1),
      λ h. let a = d.1 h.0 in let b = rest.1 h.1 in ground (arith, a, b),
    )

check_pending_iff :
    (o : Option ToolCall) (iterations : ℕ) (steps : List Step)
    → (check_pending o iterations steps ≡ none) ↔ PendingFits o iterations steps
unfolding check_pending
check_pending_iff none iterations steps = (λ h. tt, λ h. refl)
check_pending_iff (some call) iterations steps =
    let v = valid_call_iff call in
    let d = contains-Differs call.id steps in
    (
      λ h.
          let parts : (valid_call call ≡ none)
              × (contains (call_ids steps) call.id ≡ false)
              × (length steps < iterations) =
            ground (arith, h) in
          (v.0 parts.0, d.0 parts.1, parts.2),
      λ h. let a = v.1 h.0 in let b = d.1 h.1 in ground (arith, a, b, h.2),
    )

valid-Allowed : (s t : Status) → valid_transition s t ≡ true → Allowed s t
unfolding valid_transition
valid-Allowed created running_model h = starts
valid-Allowed running_model running_tool h = calls_tool
valid-Allowed running_model completed h = answers
valid-Allowed running_model failed h = fails_in_model
valid-Allowed running_model cancelled h = ends_in_model
valid-Allowed running_tool running_model h = goes_on
valid-Allowed running_tool failed h = fails_in_tool
valid-Allowed running_tool cancelled h = ends_in_tool
valid-Allowed s t h = absurd (ground (arith, h))

Allowed-valid : (s t : Status) → Allowed s t → valid_transition s t ≡ true
unfolding valid_transition
Allowed-valid _ _ starts = refl
Allowed-valid _ _ calls_tool = refl
Allowed-valid _ _ answers = refl
Allowed-valid _ _ fails_in_model = refl
Allowed-valid _ _ ends_in_model = refl
Allowed-valid _ _ goes_on = refl
Allowed-valid _ _ fails_in_tool = refl
Allowed-valid _ _ ends_in_tool = refl

history_from-Leads :
    (s u : Status) (ts : List Transition) → history_from s ts ≡ some u → Leads s ts u
unfolding history_from
history_from-Leads s u [] h = subst (λ x. Leads s [] x) (the_same h) (stays s)
  where
    the_same : some s ≡ some u → s ≡ u
    the_same q = cc
history_from-Leads s u (t ∷ ts) h =
    let parts : (status_eq t.from s ≡ true)
        × (valid_transition s t.to ≡ true)
        × (history_from t.to ts ≡ some u) =
      ground (arith, h) in
    let same = status_eq-eq t.from s (parts.0) in
    let allowed = valid-Allowed s t.to (parts.1) in
    subst (λ x. Leads x (t ∷ ts) u) same
      (moves t.from t.to u ts (subst (λ x. Allowed x t.to) (sym same) allowed)
        (history_from-Leads t.to u ts (parts.2)))

Leads-history_from :
    (s u : Status) (ts : List Transition) → Leads s ts u → history_from s ts ≡ some u
unfolding history_from
Leads-history_from _ _ _ (stays s) = refl
Leads-history_from _ _ _ (moves s t u ts a h) =
    ground (arith, Leads-history_from t u ts h, Allowed-valid s t a, status_eq_refl s)
