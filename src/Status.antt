-- ===== src/Status.antt =====
-- runtime.go: the status of an execution, its transition table, and the execution that records
-- each transition.
use agent_harness_runtime.Base.{
  Bool, true, false, ◌||◌, Option, none, some, List, [], ◌∷◌, ◌++◌, if◌then◌else◌,
}
use agent_harness_runtime.Errors.{Error, sentinel, detail, invalid_transition}

-- The Go type is a string; `unset` is the empty string, the status of a zero `Result`.
pub data Status : Type 0 where
  created running_model running_tool completed failed cancelled unset : Status

abbrev pub status_eq : Status → Status → Bool
status_eq created created = true
status_eq running_model running_model = true
status_eq running_tool running_tool = true
status_eq completed completed = true
status_eq failed failed = true
status_eq cancelled cancelled = true
status_eq unset unset = true
status_eq _ _ = false

pub record Transition : Type 0 where
  pub from : Status
  pub to : Status

unfoldable pub valid_transition : Status → Status → Bool
valid_transition created to = status_eq to running_model
valid_transition running_model to =
    status_eq to running_tool
    || status_eq to completed
    || status_eq to failed
    || status_eq to cancelled
valid_transition running_tool to =
    status_eq to running_model || status_eq to failed || status_eq to cancelled
valid_transition _ to = false

pub record Execution : Type 0 where
  pub status : Status
  pub transitions : List Transition

unfoldable pub new_execution : Execution
new_execution = record { status = created; transitions = [] }

-- The method `transition`: the execution afterwards, and the error.
unfoldable pub transition : Execution → Status → Execution × Option Error
unfolding valid_transition
transition e next =
    if valid_transition e.status next
    then (
      record {
        status = next;
        transitions = e.transitions ++ record { from = e.status; to = next } ∷ [];
      },
      none,
    )
    else (e, some (detail (sentinel invalid_transition) "from -> to"))

abbrev pub is_terminal : Status → Bool
is_terminal completed = true
is_terminal failed = true
is_terminal cancelled = true
is_terminal _ = false
