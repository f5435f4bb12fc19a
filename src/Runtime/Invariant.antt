-- ===== src/Runtime/Invariant.antt =====
-- What holds between the steps of `run`, and what holds when it returns.
use agent_harness_runtime.Base.{
  ℕ, suc, ◌+◌, ◌*◌, ◌≤◌, ◌<◌, String, Bool, true, false, ◌≡◌, ◌⊎◌, Option, none, some, List, [],
  ◌∷◌, ◌++◌, length,
}
use agent_harness_runtime.Errors.{Error}
use agent_harness_runtime.Status.{Execution, running_model, running_tool, is_terminal}
use agent_harness_runtime.Types.{ToolCall, Step, Result, snapshot}
use agent_harness_runtime.Checkpoint.{
  Checkpoint, call_ids, pending_count, contains, checkpoint_revision,
}
use agent_harness_runtime.Checkpoint.Validity.{IsSound}
use agent_harness_runtime.Ports.{Effect}
use agent_harness_runtime.Runtime.State.{State, Flow, goes, returns, M, follow, Frame}
use agent_harness_runtime.Runtime.Effects.{checkpoint_of}
use agent_harness_runtime.Runtime.Log.{
  last_write, model_calls, executed_ids, WritesBelow, RevisionsRise, WritesValid, Backed,
  ModelCallsReserved, ToolCallsSaved, Distinct,
}

abbrev pub is_some {ℓ} : {A : Type ℓ} → Option A → Bool
is_some none = false
is_some (some a) = true

-- A flow ends in `P` if it goes on, and in `Q` if it returns.
abbrev pub Ends :
    {W A : Type 0}
    → (A → State W → Type 0)
    → (Result → Option Error → State W → Type 0)
    → Flow W A
    → Type 0
Ends P Q (goes a s) = P a s
Ends P Q (returns result e s) = Q result e s

pub follow-Ends :
    {W A B : Type 0} (P : A → State W → Type 0) (P' : B → State W → Type 0)
    (Q : Result → Option Error → State W → Type 0) (flow : Flow W A) (k : A → M W B)
    → Ends P Q flow
    → ((a : A) (s : State W) → P a s → Ends P' Q (k a s))
    → Ends P' Q (follow flow k)
follow-Ends P P' Q (goes a s) k h next = next a s h
follow-Ends P P' Q (returns result e s) k h next = h

pub Ends-map :
    {W A : Type 0} (P P' : A → State W → Type 0) (Q : Result → Option Error → State W → Type 0)
    (flow : Flow W A)
    → ((a : A) (s : State W) → P a s → P' a s)
    → Ends P Q flow
    → Ends P' Q flow
Ends-map P P' Q (goes a s) g h = g a s h
Ends-map P P' Q (returns result e s) g h = h

-- The part of a state that the phases of a round speak of.
pub record Core : Type 0 where
  pub exec : Execution
  pub iterations : ℕ
  pub model_retries : ℕ
  pub steps : List Step
  pub pending_tool : Option ToolCall
  pub calls : ℕ
  pub ids : List String

abbrev pub core : {W : Type 0} → State W → Core
core s = record {
  exec = s.exec;
  iterations = s.iterations;
  model_retries = s.model_retries;
  steps = s.steps;
  pending_tool = s.pending_tool;
  calls = model_calls s.machine.log;
  ids = executed_ids s.machine.log;
}

-- The revision of what is saved at such a point.
abbrev pub rank : Core → ℕ
rank c = 1 + c.iterations + c.model_retries + 2 * length c.steps + pending_count c.pending_tool

module _ {W : Type 0} (f : Frame W) where
  abbrev pub stored : Bool
  stored = is_some f.runtime.store

  -- The result of the newest saved checkpoint, else of the one the run starts from.
  abbrev pub newest_result : Option Checkpoint → Result
  newest_result none = f.initial.result
  newest_result (some cp) = cp.result

  abbrev pub Recorded : Option Checkpoint → Result → Type 0
  Recorded o result =
      (result ≡ newest_result o) × (result.execution_id ≡ f.initial.request.execution_id)

  -- The newest saved checkpoint is that of the state.
  abbrev pub Synced : State W → Type 0
  Synced s = Backed stored (last_write s.machine.log) (λ cp.
      (cp.result.status ≡ s.exec.status)
      × (cp.pending_tool ≡ s.pending_tool)
      × (cp.result.steps ≡ s.steps)
      × (cp.request.prompt ≡ f.initial.request.prompt)
      × (cp.model_iterations ≡ s.iterations))

  -- The head of the loop, with `n` attempts counted.
  abbrev pub AtHead : ℕ → Core → Type 0
  AtHead n c =
      (c.exec.status ≡ running_model)
      × (c.pending_tool ≡ none)
      × (call_ids c.steps ≡ call_ids f.initial.result.steps ++ c.ids)
      × (f.initial.model_iterations + c.calls ≡ c.iterations)
      × (c.iterations ≡ n)

  -- After the attempt is counted, before the model is called.
  abbrev pub AtAttempt : ℕ → Core → Type 0
  AtAttempt n c =
      (c.exec.status ≡ running_model)
      × (c.pending_tool ≡ none)
      × (call_ids c.steps ≡ call_ids f.initial.result.steps ++ c.ids)
      × (f.initial.model_iterations + suc c.calls ≡ c.iterations)
      × (length c.steps < c.iterations)
      × (c.model_retries < c.iterations)
      × (c.iterations ≤ f.initial.max_steps)
      × (c.iterations ≡ n)

  -- After the model has answered.
  abbrev pub AtAnswer : ℕ → Core → Type 0
  AtAnswer n c =
      (c.exec.status ≡ running_model)
      × (c.pending_tool ≡ none)
      × (call_ids c.steps ≡ call_ids f.initial.result.steps ++ c.ids)
      × (f.initial.model_iterations + c.calls ≡ c.iterations)
      × (length c.steps < c.iterations)
      × (c.model_retries < c.iterations)
      × (c.iterations ≡ n)

  -- With a pending call that is about to be executed.
  abbrev pub AtTool : ℕ → ToolCall → Core → Type 0
  AtTool n call c =
      (c.exec.status ≡ running_tool)
      × (c.pending_tool ≡ some call)
      × (call_ids c.steps ≡ call_ids f.initial.result.steps ++ c.ids)
      × (f.initial.model_iterations + c.calls ≡ c.iterations)
      × (contains (call_ids c.steps) call.id ≡ false)
      × (c.iterations ≡ n)

  -- After the tool has answered.
  abbrev pub AtToolAnswer : ℕ → ToolCall → Core → Type 0
  AtToolAnswer n call c =
      (c.exec.status ≡ running_tool)
      × (c.pending_tool ≡ some call)
      × (call_ids c.steps ++ call.id ∷ [] ≡ call_ids f.initial.result.steps ++ c.ids)
      × (f.initial.model_iterations + c.calls ≡ c.iterations)
      × (c.iterations ≡ n)

module _ {W : Type 0} (f : Frame W) (utf8_valid : String → Bool) where
  -- What `persist` would save of this outcome is sound.
  abbrev pub Savable : State W → Result → Option Error → Type 0
  Savable s result cause = IsSound utf8_valid (checkpoint_of f s result cause)

  abbrev pub Sound : State W → Type 0
  Sound s = Savable s (snapshot s.exec s.steps "") none

  -- The properties of the log that no step may break.
  abbrev pub LogGood : List Effect → Type 0
  LogGood log =
      WritesValid utf8_valid log
      × RevisionsRise log
      × ModelCallsReserved (stored f) f.initial.model_iterations log
      × ToolCallsSaved (stored f) log

  -- Between two steps: the properties of the log, the store has not failed, the result to fall back
  -- on is the one last saved, all writes lie below a bound, and what would be saved is sound.
  abbrev pub Kept : ℕ → State W → Type 0
  Kept bound s =
      LogGood s.machine.log
      × Recorded f (last_write s.machine.log) s.last_saved
      × Distinct (call_ids f.initial.result.steps ++ executed_ids s.machine.log)
      × (f.initial.model_iterations + model_calls s.machine.log ≤ f.initial.max_steps)
      × (s.store_failed ≡ false)
      × WritesBelow bound s.machine.log
      × Sound s

  -- A return: the store failed and the result is the last one saved, or a terminal outcome that is
  -- still to be saved.
  abbrev pub Outcome : Result → Option Error → State W → Type 0
  Outcome result e s =
      ((stored f ≡ true) × (s.store_failed ≡ true) × (result ≡ s.last_saved) × (is_some e ≡ true))
      ⊎ ((s.store_failed ≡ false)
          × (is_terminal result.status ≡ true)
          × Savable s result e
          × WritesBelow (checkpoint_revision (checkpoint_of f s result e)) s.machine.log)

  abbrev pub Returned : Result → Option Error → State W → Type 0
  Returned result e s =
      LogGood s.machine.log
      × Recorded f (last_write s.machine.log) s.last_saved
      × Distinct (call_ids f.initial.result.steps ++ executed_ids s.machine.log)
      × (f.initial.model_iterations + model_calls s.machine.log ≤ f.initial.max_steps)
      × Outcome result e s

  -- A phase, with the last save behind it.
  abbrev pub At : (Core → Type 0) → State W → Type 0
  At X s = Kept (suc (rank (core s))) s × X (core s)

  abbrev pub SavedAt : (Core → Type 0) → State W → Type 0
  SavedAt X s = Kept (suc (rank (core s))) s × Synced f s × X (core s)
