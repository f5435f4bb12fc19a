-- ===== src/Trace/Recorder/Recorded.antt =====
-- trace.go and trace_reader.go: what a recorder has written is what ReadTrace reads.
use agent_harness_runtime.Base.{
  ℕ, ◌+◌, ◌<◌, ◌%◌, ◌^◌, String, true, false, ◌||◌, Option, none, some, List, [], ◌∷◌, ◌++◌, map,
  length, All, pos, ℤ, is_negative, false≢true, int_eq, str_eq, eq_iff, ◌≡◌, refl, sym, ap, ◌∙◌,
  inl, inr, arith, Option-cases, subst,
}
use mathlib.Core.List.{append-nil, append_assoc}
use agent_harness_runtime.Errors.{Error, as_provider_http, Reply, ok, err}
use agent_harness_runtime.Ports.{Event, EventType}
use agent_harness_runtime.Trace.{
  TraceRecord, trace_schema_version, classify_trace_error, by_code, first_code, codes,
  fallback_code,
}
use agent_harness_runtime.Trace.Reader.{
  known_trace_event, valid_trace_event_status, validate_trace_record, read_from, read_trace,
  if_none,
}
use agent_harness_runtime.Trace.Recorder.{
  TraceFile, FileTraceRecorder, new_recorder, given, record_of, on_event, record_all, line_of,
  appended, synced,
}

-- An event of the execution `id` that a runtime may report.
abbrev pub Reportable : String → Event → Type 0
Reportable id event =
    (event.execution_id ≡ id)
    × (known_trace_event event.type ≡ true)
    × (valid_trace_event_status event.type event.status ≡ true)
    × (is_negative event.model_attempt ≡ false)
    × (is_negative event.duration ≡ false)
    × (is_negative (classify_trace_error event).1 ≡ false)

by_code-status : (code : Option String) (type : EventType) → (by_code code type).1 ≡ pos 0
unfolding fallback_code
by_code-status none type = refl
by_code-status (some code) type = refl

no_status : (n : ℤ) → n ≡ pos 0 → int_eq n (pos 0) ≡ false → ⊥
no_status n q h = absurd (false≢true (sym h ∙ rw q refl))

classified :
    (event : Event)
    → int_eq (classify_trace_error event).1 (pos 0) ≡ false
    → str_eq (classify_trace_error event).0 "model_provider_http_error" ≡ true
unfolding classify_trace_error
classified event h = elim (Option-cases event.error) [
  | inl q ↦ absurd (no_status (pos 0) refl (rw q at h))
  | inr (e, q) ↦ elim (Option-cases (as_provider_http e)) [
    | inl p ↦ absurd (no_status _ (by_code-status (first_code codes e) event.type) (rw (q, p) at h))
    | inr (status, p) ↦ rw (q, p) refl
  ]
]

record_of-valid :
    (sequence now : ℕ) (event : Event)
    → known_trace_event event.type ≡ true
    → valid_trace_event_status event.type event.status ≡ true
    → is_negative event.model_attempt ≡ false
    → is_negative event.duration ≡ false
    → is_negative (classify_trace_error event).1 ≡ false
    → sequence + 1 < 2 ^ 64
    → validate_trace_record (record_of sequence event now) (sequence + 1) ≡ none
unfolding validate_trace_record
record_of-valid sequence now event k v a d h small = ground (arith, classified event)

-- The record at an index of a file tells of the event: every field of it is that of the event,
-- with the code and the HTTP status of the event's error, and a time that the clock has shown.
pub record Tells {W : Type 0} (clock : W → ℕ) (index : ℕ) (r : TraceRecord) (event : Event)
    : Type 0 where
  pub schema_version : r.schema_version ≡ pos trace_schema_version
  pub sequence : r.sequence ≡ index + 1
  pub recorded_at : (w : W) × (r.recorded_at ≡ some (clock w))
  pub type : r.type ≡ event.type
  pub execution_id : r.execution_id ≡ event.execution_id
  pub status : r.status ≡ event.status
  pub model_attempt : r.model_attempt ≡ event.model_attempt
  pub tool_call_id : r.tool_call_id ≡ event.tool_call_id
  pub tool_name : r.tool_name ≡ event.tool_name
  pub duration_nanos : r.duration_nanos ≡ event.duration
  pub error_code : r.error_code ≡ (classify_trace_error event).0
  pub http_status : r.http_status ≡ (classify_trace_error event).1

-- Records of the events of one execution, in their order, that a reader accepts from an index on.
abbrev pub Matches : {W : Type 0} → (W → ℕ) → ℕ → String → List TraceRecord → List Event → Type 0
Matches clock index id [] [] = Unit
Matches clock index id [] (event ∷ events) = ⊥
Matches clock index id (r ∷ rs) [] = ⊥
Matches clock index id (r ∷ rs) (event ∷ events) =
    (validate_trace_record r (index + 1) ≡ none)
    × (r.execution_id ≡ id)
    × Tells clock index r event
    × Matches clock (index + 1) id rs events

record_of-Tells :
    {W : Type 0} (clock : W → ℕ) (sequence : ℕ) (w : W) (event : Event)
    → sequence + 1 < 2 ^ 64
    → Tells clock sequence (record_of sequence event (clock w)) event
record_of-Tells clock sequence w event small = record {
  schema_version = refl;
  sequence = ground (arith, small);
  recorded_at = (w, refl);
  type = refl;
  execution_id = refl;
  status = refl;
  model_attempt = refl;
  tool_call_id = refl;
  tool_name = refl;
  duration_nanos = refl;
  error_code = refl;
  http_status = refl;
}

read_from-Matches :
    {W : Type 0} (clock : W → ℕ) (index : ℕ) (id : String) (known : Option String)
    (rs : List TraceRecord) (events : List Event)
    → Matches clock index id rs events
    → if_none known id ≡ id
    → read_from index known (map (λ r. ok r) rs) ≡ ok rs
unfolding read_from
read_from-Matches clock index id known [] events h k = refl
read_from-Matches clock index id known (r ∷ rs) [] h k = absurd h
read_from-Matches clock index id known (r ∷ rs) (event ∷ events) h k =
    let same : if_none known r.execution_id ≡ r.execution_id = rw (h.1) k in
    let below =
      read_from-Matches clock (index + 1) id (some r.execution_id) rs events (h.3) (h.1) in
    rw (h.0, same, (eq_iff r.execution_id r.execution_id).1 refl, below, read_from) refl

module _ {W : Type 0} {B : Type 0} (file : TraceFile W B) (lines : W → List TraceRecord)
    (append_ok : (r : TraceRecord) (line : B) (w : W)
      → file.marshal r ≡ ok line
      → (file.append line w).0 ≡ none
      → lines (file.append line w).1 ≡ lines w ++ r ∷ [])
    (sync_same : (w : W) → lines (file.sync w).1 ≡ lines w) where
  -- A recorder that is open and has had no error.
  abbrev Good : FileTraceRecorder → Type 0
  Good r = (r.error ≡ none) × (r.closed ≡ false)

  line_of-recorded :
      (r : FileTraceRecorder) (t : TraceRecord) (line : Reply B) (w : W)
      → file.marshal t ≡ line
      → r.closed ≡ false
      → let after = line_of file r line w in
        after.0.error ≡ none
        → (after.0.sequence ≡ (r.sequence + 1) % 2 ^ 64)
          × (after.0.closed ≡ false)
          × (lines after.1 ≡ lines w ++ t ∷ [])
  unfolding line_of appended synced
  line_of-recorded r t (err e) w q c = λ h. (cc)
  line_of-recorded r t (ok line) w q c =
      let w1 = (file.append line w).1 in
      elim (Option-cases (file.append line w).0) [
        | inr (e, a) ↦ rw a (λ h. (cc))
        | inl a ↦ elim (Option-cases (file.sync w1).0) [
          | inr (e, s) ↦ rw (a, s) (λ h. (cc))
          | inl s ↦ rw (a, s) (λ h. (refl, c, sync_same w1 ∙ append_ok t line w q a))
        ]
      ]

  open-recorder : (r : FileTraceRecorder) → Good r → (r.closed || given r.error) ≡ false
  open-recorder r good = ground (arith, good)

  on_event-error :
      (r : FileTraceRecorder) (event : Event) (w : W) (e : Error)
      → r.error ≡ some e
      → on_event file r event w ≡ (r, w)
  unfolding on_event
  on_event-error r event w e h =
      let stopped : (r.closed || given r.error) ≡ true = ground (arith, h) in rw stopped refl

  on_event-recorded :
      (r : FileTraceRecorder) (event : Event) (w : W)
      → Good r
      → let after = on_event file r event w in
        after.0.error ≡ none
        → (after.0.sequence ≡ (r.sequence + 1) % 2 ^ 64)
          × (after.0.closed ≡ false)
          × (lines after.1 ≡ lines w ++ record_of r.sequence event (file.now w) ∷ [])
  unfolding on_event
  on_event-recorded r event w good =
      rw (open-recorder r good)
        (line_of-recorded r (record_of r.sequence event (file.now w)) _ w refl good.1)

  -- After an error nothing more is recorded.
  record_all-error :
      (events : List Event) (r : FileTraceRecorder) (w : W) (e : Error)
      → r.error ≡ some e
      → (record_all file events r w).0.error ≡ some e
  record_all-error [] r w e h = h
  record_all-error (event ∷ rest) r w e h =
      rw (on_event-error r event w e h, record_all) (record_all-error rest r w e h)

  record_all-Matches :
      (id : String) (events : List Event) (r : FileTraceRecorder) (w : W)
      → All (Reportable id) events
      → Good r
      → r.sequence + length events < 2 ^ 64
      → let after = record_all file events r w in
        after.0.error ≡ none
        → (rs : List TraceRecord) × (lines after.1 ≡ lines w ++ rs)
          × Matches file.now r.sequence id rs events
  record_all-Matches id [] r w h good small none_after = ([], sym (append-nil (lines w)), tt)
  record_all-Matches id (event ∷ rest) r w h good small none_after =
      let after = on_event file r event w in
      let quiet = first_quiet after.0 after.1 rest none_after in
      let one = on_event-recorded r event w good quiet in
      let next : after.0.sequence ≡ r.sequence + 1 = one.0 ∙ ground (arith, small) in
      let (rs, l, m) =
        record_all-Matches id rest after.0 after.1 h.1 (quiet, one.1) (ground (arith, small, next))
          none_after in
      (
        record_of r.sequence event (file.now w) ∷ rs,
        l
            ∙ ap (λ (xs : List TraceRecord). xs ++ rs) (one.2)
            ∙ append_assoc (lines w) (record_of r.sequence event (file.now w) ∷ []) rs,
        (
          record_of-valid r.sequence (file.now w) event (h.0.1) (h.0.2) (h.0.3) (h.0.4) (h.0.5)
              (ground (arith, small)),
          h.0.0,
          record_of-Tells file.now r.sequence w event (ground (arith, small)),
          subst (λ n. Matches file.now n id rs rest) next m,
        ),
      )
    where
      clash : {o : Option Error} {e : Error} → o ≡ some e → o ≡ none → ⊥
      clash a b = cc

      first_quiet :
          (r : FileTraceRecorder) (w : W) (rest : List Event)
          → (record_all file rest r w).0.error ≡ none
          → r.error ≡ none
      first_quiet r w rest h = elim (Option-cases r.error) [
        | inl q ↦ q
        | inr (e, q) ↦ absurd (clash (record_all-error rest r w e q) h)
      ]

  -- If a new recorder has recorded events of one execution, fewer than 2 ^ 64, each of a known type
  -- with the status of its type and no negative number, into an empty file without an error, then
  -- ReadTrace accepts the file, and it has one record for each event, in their order, each field of
  -- which is that of the event, with the code and HTTP status of its error, the position as sequence
  -- number and a time of the clock. A write that succeeds must add its line to the file, and a sync
  -- keep the lines.
  pub record_all-read :
      (id : String) (events : List Event) (w : W)
      → All (Reportable id) events
      → length events < 2 ^ 64
      → lines w ≡ []
      → let after = record_all file events new_recorder w in
        after.0.error ≡ none
        → (read_trace "trace.jsonl" (ok (map (λ r. ok r) (lines after.1))) ≡ ok (lines after.1))
          × Matches file.now 0 id (lines after.1) events
  unfolding read_trace
  record_all-read id events w h small fresh quiet =
      let (rs, l, m) =
        record_all-Matches id events new_recorder w h (refl, refl) (omega (arith, small)) quiet in
      let all : lines (record_all file events new_recorder w).1 ≡ rs =
        l ∙ ap (λ xs. xs ++ rs) fresh in
      rw all (read_from-Matches file.now 0 id none rs events m refl, m)
