-- ===== src/Setup.antt =====
-- runtime.go (`New`, `WithMaxSteps`), checkpoint.go (`WithCheckpointStore`), model_retry.go
-- (`WithModelRetry`), callback_timeout.go (`WithModelTimeout`, `WithToolTimeout`) and observer.go
-- (`WithObserver`, `WithObservers`, observer groups): how a runtime is put together. `none` stands for
-- a nil argument.
pub mod Laws
use agent_harness_runtime.Base.{
  ℕ, Option, none, some, List, [], ◌∷◌, ℤ, pos, negsuc, is_negative, is_positive, magnitude, not,
  if◌then◌else◌,
}
use agent_harness_runtime.Errors.{Error, sentinel, detail, Reply, ok, err, invalid_request}
use agent_harness_runtime.Ports.{Context, Event, Store, ToolExecutor, Model, Observer, Platform}
use agent_harness_runtime.Retry.{ModelRetryPolicy}
use agent_harness_runtime.Runtime.State.{Runtime}
use agent_harness_runtime.Timeouts.{timeout_model, timeout_tool_executor}

-- A model or an executor as it was given, or inside a wrapper that a timeout puts around it.
pub data Slot {ℓ} (A : Type ℓ) : Type ℓ where
  bare : A → Slot A
  timed : Slot A → ℕ → Slot A

-- The fields of a `Runtime` while the options are applied.
pub record Config (W : Type 0) : Type 0 where
  pub store : Option (Store W)
  pub model : Slot (Model W)
  pub tools : Option (Slot (ToolExecutor W))
  pub observer : Option (Observer W)
  pub max_steps : ℕ
  pub model_retry : ModelRetryPolicy

-- An `Option`, by the function that makes it; `caller_written` is any other `func(*Runtime) error`.
pub data Setting (W : Type 0) : Type 0 where
  with_checkpoint_store : Option (Store W) → Setting W
  with_max_steps with_model_timeout with_tool_timeout : ℤ → Setting W
  with_model_retry : ℤ → ℤ → Setting W
  with_observer : Option (Observer W) → Setting W
  with_observers : List (Option (Observer W)) → Setting W
  caller_written : (Config W → Reply (Config W)) → Setting W

-- `existing.timeout = timeout` for a wrapper, else a new wrapper.
abbrev pub bound {ℓ} : {A : Type ℓ} → Slot A → ℕ → Slot A
bound (bare a) timeout = timed (bare a) timeout
bound (timed inner old) timeout = timed inner timeout

abbrev pub bound_tools {ℓ} : {A : Type ℓ} → Option (Slot A) → ℕ → Option (Slot A)
bound_tools none timeout = none
bound_tools (some slot) timeout = some (bound slot timeout)

abbrev pub default_max_steps : ℕ
default_max_steps = 16

module _ {W : Type 0} where
  -- `observerGroup.OnEvent`: an observer's panic is recovered before the next one is called.
  abbrev pub deliver_all : List (Observer W) → Context W → Event → W → W
  deliver_all [] ctx event w = w
  deliver_all (observer ∷ rest) ctx event w =
      deliver_all rest ctx event (observer.on_event ctx event w)

  -- The observers of a list without nil, if it has none.
  abbrev pub all_given : List (Option (Observer W)) → Option (List (Observer W))
  all_given [] = some []
  all_given (none ∷ rest) = none
  all_given (some observer ∷ rest) = elim (all_given rest) [
    | none ↦ none
    | some observers ↦ some (observer ∷ observers)
  ]

  abbrev group_of : Option (List (Observer W)) → Config W → Reply (Config W)
  group_of none c = err (detail (sentinel invalid_request) "observer is required")
  group_of (some []) c = err (detail (sentinel invalid_request) "at least one observer is required")
  group_of (some (o ∷ os)) c =
      ok (record c { observer = some (record { on_event = deliver_all (o ∷ os) }) })

  -- What each option does to the runtime: `WithCheckpointStore`.
  abbrev pub set_checkpoint_store : Option (Store W) → Config W → Reply (Config W)
  set_checkpoint_store none c =
      err (detail (sentinel invalid_request) "checkpoint store is required")
  set_checkpoint_store (some store) c = ok (record c { store = some store })

  -- `WithMaxSteps`.
  abbrev pub set_max_steps : ℤ → Config W → Reply (Config W)
  set_max_steps n c =
      if is_positive n
      then ok (record c { max_steps = magnitude n })
      else err (detail (sentinel invalid_request) "max steps must be positive")

  -- `WithModelTimeout`.
  abbrev pub set_model_timeout : ℤ → Config W → Reply (Config W)
  set_model_timeout t c =
      if is_positive t
      then ok (record c { model = bound c.model (magnitude t) })
      else err (detail (sentinel invalid_request) "model timeout must be positive")

  -- `WithToolTimeout`.
  abbrev pub set_tool_timeout : ℤ → Config W → Reply (Config W)
  set_tool_timeout t c =
      if is_positive t
      then ok (record c { tools = bound_tools c.tools (magnitude t) })
      else err (detail (sentinel invalid_request) "tool timeout must be positive")

  -- `WithModelRetry`.
  abbrev pub set_model_retry : ℤ → ℤ → Config W → Reply (Config W)
  set_model_retry max_retries delay c =
      if not (is_positive max_retries)
      then err (detail (sentinel invalid_request) "model max retries must be positive")
      else if is_negative delay
      then err (detail (sentinel invalid_request) "model retry delay must not be negative")
      else ok (record c {
        model_retry = record { max_retries = magnitude max_retries; delay = magnitude delay };
      })

  -- `WithObserver`.
  abbrev pub set_observer : Option (Observer W) → Config W → Reply (Config W)
  set_observer none c = err (detail (sentinel invalid_request) "observer is required")
  set_observer (some observer) c = ok (record c { observer = some observer })

  -- The option that a setting stands for.
  unfoldable pub apply_setting : Setting W → Config W → Reply (Config W)
  apply_setting (with_checkpoint_store store) c = set_checkpoint_store store c
  apply_setting (with_max_steps n) c = set_max_steps n c
  apply_setting (with_model_timeout t) c = set_model_timeout t c
  apply_setting (with_tool_timeout t) c = set_tool_timeout t c
  apply_setting (with_model_retry max_retries delay) c = set_model_retry max_retries delay c
  apply_setting (with_observer observer) c = set_observer observer c
  apply_setting (with_observers observers) c = group_of (all_given observers) c
  apply_setting (caller_written option) c = option c

  -- The loop of `New`.
  unfoldable pub configure : List (Option (Setting W)) → Config W → Reply (Config W)
  unfolding apply_setting
  configure [] c = ok c
  configure (none ∷ rest) c = configure rest c
  configure (some setting ∷ rest) c = elim (apply_setting setting c) [
    | err e ↦ err e
    | ok c' ↦ configure rest c'
  ]

  abbrev tools_slot : Option (ToolExecutor W) → Option (Slot (ToolExecutor W))
  tools_slot none = none
  tools_slot (some tools) = some (bare tools)

  abbrev pub starting : Model W → Option (ToolExecutor W) → Config W
  starting model tools = record {
    store = none;
    model = bare model;
    tools = tools_slot tools;
    observer = none;
    max_steps = default_max_steps;
    model_retry = record { max_retries = 0; delay = 0 };
  }

  -- `New`.
  unfoldable pub new :
      Option (Model W) → Option (ToolExecutor W) → List (Option (Setting W)) → Reply (Config W)
  unfolding configure
  new none tools settings = err (detail (sentinel invalid_request) "model is required")
  new (some model) tools settings = configure settings (starting model tools)

  abbrev pub model_of : Platform W → Slot (Model W) → Model W
  model_of p (bare model) = model
  model_of p (timed inner timeout) = timeout_model p (model_of p inner) timeout

  abbrev pub executor_of : Platform W → Slot (ToolExecutor W) → ToolExecutor W
  executor_of p (bare tools) = tools
  executor_of p (timed inner timeout) = timeout_tool_executor p (executor_of p inner) timeout

  abbrev pub tools_of : Platform W → Option (Slot (ToolExecutor W)) → Option (ToolExecutor W)
  tools_of p none = none
  tools_of p (some slot) = some (executor_of p slot)

  -- The runtime whose fields these are.
  abbrev pub runtime_of : Platform W → Config W → Runtime W
  runtime_of p c = record {
    store = c.store;
    model = model_of p c.model;
    tools = tools_of p c.tools;
    observer = c.observer;
    max_steps = c.max_steps;
    model_retry = c.model_retry;
  }
