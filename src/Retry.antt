-- ===== src/Retry.antt =====
-- model_retry.go: the retry policy, and which model errors may be retried.
use agent_harness_runtime.Base.{
  ℕ, ℤ, pos, int_eq, Bool, true, false, ◌&&◌, ◌||◌, Option, none, some, ltb, if◌then◌else◌,
}
use agent_harness_runtime.Errors.{
  Error, is, as_provider_http, model_timeout, model_provider, model_response, context_canceled,
}
use agent_harness_runtime.Checkpoint.{Checkpoint}

pub record ModelRetryPolicy : Type 0 where
  pub max_retries : ℕ
  pub delay : ℕ

transient_status : ℤ → Bool
transient_status code =
    int_eq code (pos 408)
    || int_eq code (pos 429)
    || int_eq code (pos 500)
    || int_eq code (pos 502)
    || int_eq code (pos 503)
    || int_eq code (pos 504)

transient_kind : Option ℤ → Error → Bool
unfolding transient_status
transient_kind (some code) e = transient_status code
transient_kind none e = if is e model_response then false else is e model_provider

-- `IsTransientModelError`, of an error that is not nil.
unfoldable pub is_transient_model_error : Error → Bool
unfolding transient_kind
is_transient_model_error e =
    if is e context_canceled
    then false
    else if is e model_timeout
    then true
    else transient_kind (as_provider_http e) e

-- `canRetryModel`.
unfoldable pub can_retry_model : Error → Checkpoint → ℕ → ℕ → Bool
can_retry_model e cp iterations model_retries =
    ltb model_retries cp.max_model_retries
    && ltb iterations cp.max_steps
    && is_transient_model_error e
