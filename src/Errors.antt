-- ===== src/Errors.antt =====
-- The error values of the runtime: the sentinels that its files declare, those of the `context`
-- package that it tests for, and the wrapping that `errors.Is` and `errors.As` look through.
use agent_harness_runtime.Base.{
  ℕ, ℤ, String, ◌≡◌, refl, ◌⊎◌, inl, inr, Bool, false, ◌||◌, Option, none, some, ◌==◌,
}

pub data Sentinel : Type 0 where
  -- runtime.go
  invalid_request invalid_decision invalid_transition step_limit_exceeded : Sentinel
  tool_executor_missing duplicate_tool_call : Sentinel
  -- checkpoint.go
  checkpoint_store checkpoint_conflict execution_exists execution_not_found : Sentinel
  invalid_checkpoint : Sentinel
  -- recovery.go
  execution_busy recovery_unsupported execution_terminal tool_outcome_unknown : Sentinel
  -- execution_lease.go, execution_lease_renewal.go
  execution_fenced execution_lease_required lease_fencing_unsupported : Sentinel
  execution_lease_lost invalid_lease_renewal : Sentinel
  -- callback_timeout.go, tool_replay.go, tool_reconciliation.go
  model_timeout tool_timeout tool_replay tool_replay_unsupported tool_reconciliation : Sentinel
  -- openai_model.go, mcp_executor.go, trace_reader.go
  model_adapter_config model_provider model_response mcp_input_required invalid_trace : Sentinel
  -- the package `context`
  context_canceled context_deadline_exceeded : Sentinel
  -- the package `os`, and EWOULDBLOCK of `syscall`
  os_exist os_not_exist would_block : Sentinel

abbrev index : Sentinel → ℕ
index invalid_request = 0
index invalid_decision = 1
index invalid_transition = 2
index step_limit_exceeded = 3
index tool_executor_missing = 4
index duplicate_tool_call = 5
index checkpoint_store = 6
index checkpoint_conflict = 7
index execution_exists = 8
index execution_not_found = 9
index invalid_checkpoint = 10
index execution_busy = 11
index recovery_unsupported = 12
index execution_terminal = 13
index tool_outcome_unknown = 14
index execution_fenced = 15
index execution_lease_required = 16
index lease_fencing_unsupported = 17
index execution_lease_lost = 18
index invalid_lease_renewal = 19
index model_timeout = 20
index tool_timeout = 21
index tool_replay = 22
index tool_replay_unsupported = 23
index tool_reconciliation = 24
index model_adapter_config = 25
index model_provider = 26
index model_response = 27
index mcp_input_required = 28
index invalid_trace = 29
index context_canceled = 30
index context_deadline_exceeded = 31
index os_exist = 32
index os_not_exist = 33
index would_block = 34

-- The wrapping tree of an error. `detail e t` is `fmt.Errorf("%w: t", e)`, `during t e` is
-- `fmt.Errorf("t: %w", e)`, `both a b` wraps two errors (`fmt.Errorf("%w: …: %w", a, b)` and
-- `errors.Join`). Values that a message interpolates are left out. `opaque` is an error of code
-- outside the repository, `index_out_of_range` the panic of an index past the end of a slice.
pub data Error : Type 0 where
  sentinel : Sentinel → Error
  detail : Error → String → Error
  during : String → Error → Error
  both : Error → Error → Error
  provider_http : ℤ → String → Error
  opaque : String → Error
  index_out_of_range : Error

-- `errors.Is`.
unfoldable pub is : Error → Sentinel → Bool
is (sentinel s) t = index s == index t
is (detail e text) t = is e t
is (during text e) t = is e t
is (both a b) t = is a t || is b t
is (provider_http status body) t = index model_provider == index t
is (opaque text) t = false
is index_out_of_range t = false

abbrev or_else : Option ℤ → Option ℤ → Option ℤ
or_else (some n) o = some n
or_else none o = o

-- `errors.As` into a `*ModelProviderHTTPError`, with the status code of what it finds.
unfoldable pub as_provider_http : Error → Option ℤ
as_provider_http (sentinel s) = none
as_provider_http (detail e text) = as_provider_http e
as_provider_http (during text e) = as_provider_http e
as_provider_http (both a b) = or_else (as_provider_http a) (as_provider_http b)
as_provider_http (provider_http status body) = some status
as_provider_http (opaque text) = none
as_provider_http index_out_of_range = none

-- A Go call that returns a value and an error: the value counts where the error is nil.
pub data Reply {ℓ} (A : Type ℓ) : Type ℓ where
  ok : A → Reply A
  err : Error → Reply A

-- The error of a call, `none` for nil.
abbrev pub error_of {ℓ} : {A : Type ℓ} → Reply A → Option Error
error_of (ok a) = none
error_of (err e) = some e

pub Reply-cases {ℓ} :
    {A : Type ℓ} (r : Reply A) → ((a : A) × (r ≡ ok a)) ⊎ ((e : Error) × (r ≡ err e))
Reply-cases (ok a) = inl (a, refl)
Reply-cases (err e) = inr (e, refl)
