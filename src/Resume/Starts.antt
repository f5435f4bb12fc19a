-- ===== src/Resume/Starts.antt =====
-- runtime.go and recovery.go: `Run` and `Resume` return.
use agent_harness_runtime.Base.{
  ◌^◌, ◌<◌, ◌≤◌, ◌≡◌, ◌≢◌, ◌⊎◌, inl, inr, refl, sym, subst, String, Bool, true, false, Option, none,
  some, List, [], ◌∷◌, arith, str_eq, Option-cases, Bool-cases, if◌then◌else◌, ltb, leb, not, ◌&&◌,
  ◌==◌,
}
use agent_harness_runtime.Errors.{Error, Reply, ok, err}
use agent_harness_runtime.Status.{
  Status, created, running_model, running_tool, completed, failed, cancelled, unset, new_execution,
  Transition, valid_transition, status_eq, is_terminal,
}
use agent_harness_runtime.Types.{ToolCall, Request, Result}
use agent_harness_runtime.Checkpoint.{
  Checkpoint, pending_count, check_steps, check_pending, history_from, validate_checkpoint,
}
use agent_harness_runtime.Checkpoint.Validity.{IsSound, StatusFits, validate_checkpoint-IsSound}
use agent_harness_runtime.Checkpoint.Updates.{valid_texts}
use agent_harness_runtime.Ports.{Context, Store, Platform, Machine, Effect}
use agent_harness_runtime.Writing.{checkpoint_write_timeout}
use agent_harness_runtime.Runtime.State.{Runtime, State}
use agent_harness_runtime.Runtime.Invariant.{is_some}
use agent_harness_runtime.Runtime.Guarantees.{run-Ended, EndedRun}
use agent_harness_runtime.Ownership.{ExecutionOwnership, acquire_execution_ownership}
use agent_harness_runtime.Resume.{
  completed_call, reconcile_pending_tool, run_on, after_run, frame, fresh, initial_checkpoint,
  run_request, resume_loaded, resume_open, by_status, continued, reconciling, reconciler, owned,
  in_lease, release_after, has_store,
}
use agent_harness_runtime.Resume.Evidence.{Settled}
use agent_harness_runtime.Resume.Pending.{reconcile_pending_tool-Settled, Settled-IsSound}

-- It returns, and an outcome without an error is a completion.
abbrev pub Answers : {W : Type 0} → Option (Result × Option Error × Machine W) → Type 0
Answers {W} o =
    (result : Result) × (e : Option Error) × (m : Machine W) × (o ≡ some (result, e, m))
    × ((result.status ≡ completed) ⊎ (is_some e ≡ true))

-- No valid history ends without a status.
history_from-set :
    (s : Status) (ts : List Transition) → status_eq s unset ≡ false → history_from s ts ≢ some unset
unfolding history_from valid_transition
history_from-set s [] h q = ground arith
history_from-set s (t ∷ ts) h q = ground (arith, history_from-set t.to ts)

no_call : (o : Option ToolCall) → pending_count o ≡ 0 → o ≡ none
no_call none q = refl
no_call (some call) q = absurd (omega arith)

a_call : (o : Option ToolCall) → pending_count o ≡ 1 → (call : ToolCall) × (o ≡ some call)
a_call none q = absurd (omega arith)
a_call (some call) q = (call, refl)

-- A checkpoint is over, or waits for the model without a pending call, or for the tool with one.
OpenStatus : Status → Option ToolCall → Type 0
OpenStatus s o =
    ((s ≡ completed) ⊎ ((s ≡ failed) ⊎ (s ≡ cancelled)))
    ⊎ (((o ≡ none) × ((s ≡ created) ⊎ (s ≡ running_model)))
        ⊎ ((call : ToolCall) × (o ≡ some call) × (s ≡ running_tool)))

open_by :
    (s : Status) (cp : Checkpoint)
    → history_from created cp.result.transitions ≡ some s
    → StatusFits s cp
    → OpenStatus s cp.pending_tool
unfolding OpenStatus
open_by created cp h fits = inr (inl (no_call cp.pending_tool fits.2, inl refl))
open_by running_model cp h fits = inr (inl (no_call cp.pending_tool fits, inr refl))
open_by running_tool cp h fits =
    let (call, q) = a_call cp.pending_tool fits in inr (inr (call, q, refl))
open_by completed cp h fits = inl (inl refl)
open_by failed cp h fits = inl (inr (inl refl))
open_by cancelled cp h fits = inl (inr (inr refl))
open_by unset cp h fits = absurd (history_from-set created cp.result.transitions refl h)

module _ {W : Type 0} (p : Platform W) (r : Runtime W) (utf8_valid : String → Bool)
    (valid : (t : String) → utf8_valid t ≡ true)
    (texted : (e : Error) → str_eq (p.error_text e) "" ≡ false) where
  after_run-Answers :
      (ctx : Context W) (cp : Checkpoint) (small : cp.max_steps ≤ 2 ^ 60)
      (sound : IsSound utf8_valid (record cp { revision = 0 })) (idle : cp.pending_tool ≡ none)
      (resumable : (cp.result.status ≡ created) ⊎ (cp.result.status ≡ running_model))
      (create : Bool) (m : Machine W)
      → Answers (run_on p r ctx cp create m)
  after_run-Answers ctx cp small sound idle resumable create m = go _ (
      run-Ended (frame p r ctx cp) utf8_valid valid texted small sound idle resumable create
        m.world)
    where
      go :
          (o : Option (Result × Option Error × State W))
          → EndedRun (frame p r ctx cp) utf8_valid valid texted small sound idle resumable o
          → Answers (after_run p r m o)
      go o (result, e, s, q, ended) = rw q (result, e, _, refl, ended.4)

  pub initial_checkpoint-IsSound :
      (request : Request)
      → str_eq request.prompt "" ≡ false
      → str_eq request.execution_id "" ≡ false
      → 0 < r.max_steps
      → IsSound utf8_valid (record (initial_checkpoint p r request) { revision = 0 })
  unfolding initial_checkpoint history_from new_execution check_steps check_pending
  initial_checkpoint-IsSound request prompt id positive = record {
    schema = (omega arith, omega arith);
    id = id;
    request_id = refl;
    result_id = refl;
    prompt = prompt;
    budget = (positive, omega arith);
    retries = (omega arith, omega arith);
    old_retries = inl (omega arith);
    history = refl;
    recoverable = record {
      reserved = omega arith;
      steps = refl;
      pending = refl;
      finished = refl;
      started = refl;
      fits = (refl, refl, refl);
      output = inr refl;
      error = inr (inr refl);
    };
    revision = inl refl;
    texts_valid = valid_texts utf8_valid valid _;
  }

  Settled-Answers :
      (ctx : Context W) (cp : Checkpoint) (call : ToolCall) (log : List Effect)
      → cp.max_steps ≤ 2 ^ 60
      → IsSound utf8_valid (record cp { revision = 0 })
      → cp.result.status ≡ running_tool
      → cp.pending_tool ≡ some call
      → (o : Checkpoint × Option Error × Machine W) → Settled p r call log cp o
      → Answers (continued p r ctx o)
  Settled-Answers ctx cp call log small sound t q (cp', some e, m) h = (_, _, _, refl, inr refl)
  Settled-Answers ctx cp call log small sound t q (cp', none, m)
        (output, same, last, ids, evidence) =
      rw same (
        after_run-Answers ctx (completed_call cp call output) small
          (Settled-IsSound p r utf8_valid valid cp call output sound t q) refl (inr refl) false m)

  refuses_or :
      (b : Bool) (result : Result) (e : Error) (m : Machine W)
      (o : Option (Result × Option Error × Machine W))
      → Answers o
      → Answers (if b then some (result, some e, m) else o)
  refuses_or true result e m o h = (result, some e, m, refl, inr refl)
  refuses_or false result e m o h = h

  settle-Answers :
      (store : Store W) (ctx : Context W) (cp : Checkpoint) (m : Machine W)
      → cp.max_steps ≤ 2 ^ 60
      → IsSound utf8_valid (record cp { revision = 0 })
      → ((cp.pending_tool ≡ none)
          × ((cp.result.status ≡ created) ⊎ (cp.result.status ≡ running_model)))
        ⊎ ((call : ToolCall) × (cp.pending_tool ≡ some call) × (cp.result.status ≡ running_tool))
      → Answers (continued p r ctx (reconcile_pending_tool p r store ctx cp m))
  unfolding reconcile_pending_tool reconciling
  settle-Answers store ctx cp m small sound (inl (idle, st)) =
      subst
        (λ o.
          Answers (continued p r ctx (reconciling p r store ctx cp m o (reconciler p r r.tools))))
        (sym idle) (after_run-Answers ctx cp small sound idle st false m)
  settle-Answers store ctx cp m small sound (inr (call, q, t)) =
      Settled-Answers ctx cp call m.log small sound t q _
        (reconcile_pending_tool-Settled p r store ctx cp call m q)

  open-Answers :
      (store : Store W) (ctx : Context W) (cp : Checkpoint) (m : Machine W)
      → cp.max_steps ≤ 2 ^ 60
      → IsSound utf8_valid (record cp { revision = 0 })
      → is_terminal cp.result.status ≡ false
      → OpenStatus cp.result.status cp.pending_tool
      → Answers (resume_open p r store ctx cp m)
  unfolding resume_open OpenStatus
  open-Answers store ctx cp m small sound running (inl over) = absurd (ground arith)
  open-Answers store ctx cp m small sound running (inr o) = refuses_or (ltb cp.schema 2) _ _ m _ (
      refuses_or
        (leb 3 cp.schema
          && ltb 0 cp.max_model_retries
          && not (r.model_retry.max_retries == cp.max_model_retries))
        _ _ m _ (settle-Answers store ctx cp m small sound o))

  by_status-Answers :
      (store : Store W) (ctx : Context W) (s : Status) (cp : Checkpoint) (m : Machine W)
      → cp.max_steps ≤ 2 ^ 60
      → IsSound utf8_valid (record cp { revision = 0 })
      → OpenStatus cp.result.status cp.pending_tool
      → cp.result.status ≡ s
      → Answers (by_status p r store ctx s cp m)
  unfolding by_status
  by_status-Answers store ctx completed cp m small sound o q = (_, _, _, refl, inl q)
  by_status-Answers store ctx failed cp m small sound o q = (_, _, _, refl, inr refl)
  by_status-Answers store ctx cancelled cp m small sound o q = (_, _, _, refl, inr refl)
  by_status-Answers store ctx created cp m small sound o q =
      open-Answers store ctx cp m small sound (rw q refl) o
  by_status-Answers store ctx running_model cp m small sound o q =
      open-Answers store ctx cp m small sound (rw q refl) o
  by_status-Answers store ctx running_tool cp m small sound o q =
      open-Answers store ctx cp m small sound (rw q refl) o
  by_status-Answers store ctx unset cp m small sound o q =
      open-Answers store ctx cp m small sound (rw q refl) o

  unrevised :
      (cp : Checkpoint) → IsSound utf8_valid cp → IsSound utf8_valid (record cp { revision = 0 })
  unrevised cp h = record {
    schema = h.schema;
    id = h.id;
    request_id = h.request_id;
    result_id = h.result_id;
    prompt = h.prompt;
    budget = h.budget;
    retries = h.retries;
    old_retries = h.old_retries;
    history = h.history;
    recoverable = ground (arith, h.recoverable, h.recoverable.fits);
    revision = inl refl;
    texts_valid = valid_texts utf8_valid valid _;
  }

  -- `Resume` of a checkpoint that the store has loaded, of schema version 2 or later and with a step
  -- budget of at most 2 ^ 60, returns a result, whatever the store, the model and the tools do, if all
  -- texts are valid UTF-8 and no error text is empty; the execution is completed or there is an error.
  pub resume_loaded-Answers :
      (store : Store W) (ctx : Context W) (id : String) (cp : Checkpoint) (m : Machine W)
      → cp.max_steps ≤ 2 ^ 60
      → 2 ≤ cp.schema
      → Answers (resume_loaded p r utf8_valid store ctx id cp m)
  unfolding resume_loaded
  resume_loaded-Answers store ctx id cp m small schema =
      elim (Option-cases (validate_checkpoint utf8_valid cp)) [
        | inl q ↦
            let sound = validate_checkpoint-IsSound utf8_valid cp schema q in
            let o = open_by cp.result.status cp sound.history sound.recoverable.fits in
            rw (q, resume_loaded)
              (refuses_or (not (str_eq cp.execution_id id)) _ _ _ _ (
                by_status-Answers store ctx cp.result.status cp m small (unrevised cp sound) o
                  refl))
        | inr (e, q) ↦ rw (q, resume_loaded) (_, _, _, refl, inr refl)
      ]

  release-Answers :
      (release : W → W) (o : Option (Result × Option Error × Machine W))
      → Answers o
      → Answers (release_after p r release o)
  release-Answers release none (result, e, m, q, h) = cc
  release-Answers release (some (result, e, m)) (result', e', m', q, h) =
      (result, e, _, refl, ground (arith, q, h))

  in_lease-Answers :
      (w : W) (body : Context W → Machine W → Option (Result × Option Error × Machine W))
      (run_ctx : Reply (Context W))
      → ((run_ctx : Context W) (m : Machine W) → Answers (body run_ctx m))
      → Answers (in_lease p r w body run_ctx)
  in_lease-Answers w body (err e) h = (_, _, _, refl, inr refl)
  in_lease-Answers w body (ok run_ctx) h = h run_ctx _

  owned-Answers :
      (ctx : Context W) (body : Context W → Machine W → Option (Result × Option Error × Machine W))
      (acquired : Reply (ExecutionOwnership W) × W)
      → ((run_ctx : Context W) (m : Machine W) → Answers (body run_ctx m))
      → Answers (owned p r ctx body acquired)
  unfolding owned
  owned-Answers ctx body (err e, w) h = (_, _, _, refl, inr refl)
  owned-Answers ctx body (ok ownership, w) h =
      release-Answers ownership.release _ (in_lease-Answers w body _ h)

  -- `Run` with an execution ID and a step budget from 1 to 2 ^ 60 returns a result, whatever the store,
  -- the model and the tools do, if all texts are valid UTF-8 and no error text is empty; the execution is
  -- completed or there is an error.
  pub run_request-Answers :
      (ctx : Context W) (request : Request) (w : W)
      → str_eq request.execution_id "" ≡ false
      → 0 < r.max_steps
      → r.max_steps ≤ 2 ^ 60
      → Answers (run_request p r ctx request w)
  unfolding run_request initial_checkpoint new_execution
  run_request-Answers ctx request w id positive small =
      elim (Bool-cases (str_eq request.prompt "")) [
        | inl q ↦ rw (q, run_request) (_, _, _, refl, inr refl)
        | inr q ↦
            rw (q, run_request)
              (refuses_or (has_store p r r.store && str_eq request.execution_id "") _ _
                (fresh p r w) _
                (owned-Answers ctx
                  (λ run_ctx. run_on p r run_ctx (initial_checkpoint p r request) true)
                  (acquire_execution_ownership r
                    (p.with_timeout checkpoint_write_timeout (p.without_cancel ctx))
                    request.execution_id false w)
                  (λ run_ctx m.
                    after_run-Answers run_ctx (initial_checkpoint p r request) small
                      (initial_checkpoint-IsSound request q id positive) refl (inl refl) true m)))
      ]
