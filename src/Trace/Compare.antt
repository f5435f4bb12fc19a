-- ===== src/Trace/Compare.antt =====
-- trace_reader.go and trace_diff.go: what an inspection and a comparison find.
use agent_harness_runtime.Base.{
  ℤ, int_eq, ℕ, ◌+◌, ◌≡◌, ◌↔◌, ◌⊎◌, inl, inr, if◌then◌else◌, refl, String, true, false, none,
  Bool-cases, List, [], ◌∷◌, map, eq_iff, arith, length,
}
use agent_harness_runtime.Errors.{ok}
use agent_harness_runtime.Status.{Status, status_eq}
use agent_harness_runtime.Ports.{EventType, other_event, tool_started}
use agent_harness_runtime.Trace.{event_type_eq, TraceRecord}
use agent_harness_runtime.Trace.Diff.{
  TraceEventSignature, TraceDiff, trace_event_signature, signature_eq, divergence_from, diff_trace,
}
use agent_harness_runtime.Trace.Reader.{
  TraceInspection, inspect_trace, inspect_from, validate_trace_record, terminal_trace_event,
  noticed, concluded, empty_inspection,
}

int_eq_iff : (a b : ℤ) → (int_eq a b ≡ true) ↔ (a ≡ b)
int_eq_iff a b = ground arith

status_eq_iff : (a b : Status) → (status_eq a b ≡ true) ↔ (a ≡ b)
status_eq_iff a b = ground arith

event_type_eq_iff : (a b : EventType) → (event_type_eq a b ≡ true) ↔ (a ≡ b)
event_type_eq_iff (other_event s) (other_event t) = ground (arith, eq_iff s t)
event_type_eq_iff (other_event s) b = ground arith
event_type_eq_iff a b = ground arith

signature_eq_iff : (a b : TraceEventSignature) → (signature_eq a b ≡ true) ↔ (a ≡ b)
unfolding signature_eq
signature_eq_iff a b =
    let t = event_type_eq_iff a.type b.type in
    let s = status_eq_iff a.status b.status in
    let m = int_eq_iff a.model_attempt b.model_attempt in
    let h = int_eq_iff a.http_status b.http_status in
    let n = eq_iff a.tool_name b.tool_name in
    let c = eq_iff a.error_code b.error_code in
    (λ q. ground (arith, t, s, m, h, n, c), λ q. ground (arith, t, s, m, h, n, c))

-- No divergence is found exactly if both traces have the same signatures.
divergence_from-none :
    (index : ℕ) (ls rs : List TraceRecord)
    → (divergence_from index ls rs ≡ none)
      ↔ (map trace_event_signature ls ≡ map trace_event_signature rs)
unfolding divergence_from
divergence_from-none index [] [] = (λ h. refl, λ h. refl)
divergence_from-none index (l ∷ ls) [] = (λ h. cc, λ h. cc)
divergence_from-none index [] (r ∷ rs) = (λ h. cc, λ h. cc)
divergence_from-none index (l ∷ ls) (r ∷ rs) =
    let rest = divergence_from-none (index + 1) ls rs in
    let q = signature_eq_iff (trace_event_signature l) (trace_event_signature r) in
    (λ h. ground (arith, q, rest), λ h. ground (arith, q, rest))

-- The comparison of two traces that both pass the inspection reports them equivalent exactly if they have
-- the same sequence of signatures.
pub diff_trace-equivalent :
    (ls rs : List TraceRecord) (d : TraceDiff)
    → diff_trace ls rs ≡ ok d
    → (d.equivalent ≡ true) ↔ (map trace_event_signature ls ≡ map trace_event_signature rs)
unfolding diff_trace
diff_trace-equivalent ls rs d h = let n = divergence_from-none 0 ls rs in ground (arith, n)

-- The number of tool calls that start.
abbrev pub tool_starts : List TraceRecord → ℕ
tool_starts [] = 0
tool_starts (r ∷ rs) = (if event_type_eq r.type tool_started then 1 else 0) + tool_starts rs

-- The records from an index on: each is valid at its place, all are of one execution, and none but
-- the last is terminal.
abbrev pub Consistent : String → ℕ → List TraceRecord → Type 0
Consistent id index [] = Unit
Consistent id index (r ∷ rs) =
    (validate_trace_record r (index + 1) ≡ none)
    × (r.execution_id ≡ id)
    × ((terminal_trace_event r.type ≡ false) ⊎ (rs ≡ []))
    × Consistent id (index + 1) rs

length-zero : {A : Type 0} (xs : List A) → length xs ≡ 0 → xs ≡ []
length-zero [] h = refl
length-zero (x ∷ xs) h = absurd (omega arith)

length-nil : {A : Type 0} (xs : List A) → xs ≡ [] → length xs ≡ 0
length-nil [] h = refl
length-nil (x ∷ xs) h = cc

inspect_from-Consistent :
    (index : ℕ) (i j : TraceInspection) (rs : List TraceRecord)
    → inspect_from index i rs ≡ ok j
    → i.record_count ≡ index + length rs
    → Consistent i.execution_id index rs × (j.tool_calls ≡ i.tool_calls + tool_starts rs)
unfolding inspect_from
inspect_from-Consistent index i j [] h c = (tt, ground arith)
inspect_from-Consistent index i j (r ∷ rs) h c =
    let going = inspect_from-Consistent (index + 1) (noticed i r) j rs in
    let ending = inspect_from-Consistent (index + 1) (concluded (noticed i r) r) j rs in
    ground (arith, going, ending, eq_iff r.execution_id i.execution_id, length-zero rs)

-- A trace that `InspectTrace` accepts is consistent: each record is valid at its place, all are of the
-- execution of the first, and none but the last is terminal. The tool calls of the summary are the
-- records of that type.
pub inspect_trace-Consistent :
    (r : TraceRecord) (rs : List TraceRecord) (i : TraceInspection)
    → inspect_trace (r ∷ rs) ≡ ok i
    → Consistent r.execution_id 0 (r ∷ rs) × (i.tool_calls ≡ tool_starts (r ∷ rs))
unfolding inspect_trace
inspect_trace-Consistent r rs i h =
    let (good, count) =
      inspect_from-Consistent 0 (empty_inspection r (length (r ∷ rs))) i (r ∷ rs) h (omega arith) in
    (good, omega arith)

inspect_from-accepts :
    (index : ℕ) (i : TraceInspection) (rs : List TraceRecord)
    → Consistent i.execution_id index rs
    → i.record_count ≡ index + length rs
    → (j : TraceInspection) × (inspect_from index i rs ≡ ok j)
unfolding inspect_from
inspect_from-accepts index i [] h c = (i, refl)
inspect_from-accepts index i (r ∷ rs) h c = elim (Bool-cases (terminal_trace_event r.type)) [
  | inl over ↦
      let (j, q) =
        inspect_from-accepts (index + 1) (concluded (noticed i r) r) rs h.3 (omega arith) in
      (j, ground (arith, q, h.0, h.1, h.2, eq_iff r.execution_id i.execution_id, length-nil rs))
  | inr running ↦
      let (j, q) = inspect_from-accepts (index + 1) (noticed i r) rs h.3 (omega arith) in
      (j, ground (arith, q, h.0, h.1, h.2, eq_iff r.execution_id i.execution_id, length-nil rs))
]

-- Conversely `InspectTrace` accepts every consistent trace, also one that has no terminal record.
pub Consistent-inspect_trace :
    (r : TraceRecord) (rs : List TraceRecord)
    → Consistent r.execution_id 0 (r ∷ rs)
    → (i : TraceInspection) × (inspect_trace (r ∷ rs) ≡ ok i)
unfolding inspect_trace
Consistent-inspect_trace r rs h =
    inspect_from-accepts 0 (empty_inspection r (length (r ∷ rs))) (r ∷ rs) h (omega arith)
