-- ===== src/Checkpoint/Terminal.antt =====
-- runtime.go (`validTransition`) and file_store.go (the loop over the transitions): a terminal
-- status ends the history.
use agent_harness_runtime.Base.{◌≡◌, refl, true, some, List, [], ◌∷◌, ◌++◌, arith}
use agent_harness_runtime.Status.{Status, Transition, is_terminal, valid_transition}
use agent_harness_runtime.Checkpoint.{history_from}

-- In a history that `validateCheckpoint` accepts from any status, no transition follows one to a
-- terminal status.
pub history_from-terminal :
    (s end : Status) (ts : List Transition) (t : Transition) (rest : List Transition)
    → history_from s (ts ++ t ∷ rest) ≡ some end
    → is_terminal t.to ≡ true
    → rest ≡ []
unfolding history_from valid_transition
history_from-terminal s end [] t [] h over = refl
history_from-terminal s end [] t (u ∷ rest) h over = ground arith
history_from-terminal s end (x ∷ ts) t rest h over =
    history_from-terminal x.to end ts t rest (ground arith) over
