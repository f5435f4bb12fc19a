-- ===== src/Runtime/State.antt =====
-- runtime.go: the runtime, and the local variables of `run` as a state. A `return` inside the loop
-- leaves the monad `M`. Slices are copied wherever the Go code keeps one, so lists are values here.
use agent_harness_runtime.Base.{
  ℕ, ◌+◌, String, Bool, Option, none, some, List, [], ◌∷◌, ◌++◌, length,
}
use agent_harness_runtime.Errors.{Error}
use agent_harness_runtime.Status.{Status, completed, failed, cancelled, Execution, transition}
use agent_harness_runtime.Types.{ToolCall, Step, Result, snapshot}
use agent_harness_runtime.Checkpoint.{Checkpoint}
use agent_harness_runtime.Ports.{
  Context, EventType, execution_completed, execution_failed, execution_cancelled, unset_event,
  Store, ToolExecutor, Model, Observer, Platform, Machine,
}
use agent_harness_runtime.Retry.{ModelRetryPolicy}

pub record Runtime (W : Type 0) : Type 0 where
  pub store : Option (Store W)
  pub model : Model W
  pub tools : Option (ToolExecutor W)
  pub observer : Option (Observer W)
  pub max_steps : ℕ
  pub model_retry : ModelRetryPolicy

-- `terminalEventType`.
unfoldable pub terminal_event_type : Status → EventType
terminal_event_type completed = execution_completed
terminal_event_type failed = execution_failed
terminal_event_type cancelled = execution_cancelled
terminal_event_type _ = unset_event

-- The local variables of `run`, and the outside.
pub record State (W : Type 0) : Type 0 where
  pub exec : Execution
  pub iterations : ℕ
  pub model_retries : ℕ
  pub steps : List Step
  pub pending_tool : Option ToolCall
  pub last_saved : Result
  pub store_failed : Bool
  pub machine : Machine W

-- A piece of `run`: it goes on with a value, or the function returns.
pub data Flow (W : Type 0) (A : Type 0) : Type 0 where
  goes : A → State W → Flow W A
  returns : Result → Option Error → State W → Flow W A

abbrev pub M : Type 0 → Type 0 → Type 0
M W A = State W → Flow W A

module _ {W : Type 0} {A B : Type 0} where
  abbrev pub follow : Flow W A → (A → M W B) → Flow W B
  follow (goes a s) k = k a s
  follow (returns result e s) k = returns result e s

  infixl 5 ◌>>=◌
  abbrev pub ◌>>=◌ : M W A → (A → M W B) → M W B
  ◌>>=◌ m k s = follow (m s) k

infixl 5 ◌>>◌
abbrev pub ◌>>◌ : {W : Type 0} {B : Type 0} → M W (Unit {0}) → M W B → M W B
m >> k = m >>= λ _. k

module _ {W : Type 0} where
  abbrev pub modify : (State W → State W) → M W (Unit {0})
  modify f s = goes tt (f s)

  -- `_ = exec.transition(status)`: an invalid transition changes nothing.
  unfoldable pub force : Status → State W → State W
  force status s = record s { exec = (transition s.exec status).0 }

  -- Records a final status and returns the snapshot with an error.
  unfoldable pub stop : {A : Type 0} → Status → Error → M W A
  stop status e s = let s' = force status s in returns (snapshot s'.exec s'.steps "") (some e) s'

  abbrev pub stepped : Execution × Option Error → M W (Unit {0})
  stepped (exec, none) s = goes tt (record s { exec = exec })
  stepped (exec, some e) s = returns (snapshot exec s.steps "") (some e) (record s { exec = exec })

  -- `if err := exec.transition(status); err != nil { return snapshot(exec, steps, ""), err }`.
  unfoldable pub step_to : Status → M W (Unit {0})
  step_to status s = stepped (transition s.exec status) s

  unfoldable pub append_step : ToolCall → String → State W → State W
  append_step call output s = record s {
    steps =
        s.steps
        ++ record {
          index = length s.steps + 1;
          call = call;
          result = record { call_id = call.id; output = output };
        }
          ∷ [];
  }

-- What `run` closes over: its receiver, its context, its starting checkpoint, and Go's library.
pub record Frame (W : Type 0) : Type 0 where
  pub platform : Platform W
  pub runtime : Runtime W
  pub context : Context W
  pub initial : Checkpoint
