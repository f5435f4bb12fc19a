-- ===== src/Checkpoint/History.antt =====
-- How the tests of a checkpoint read one more transition and one more step.
use agent_harness_runtime.Base.{
  ℕ, ◌+◌, String, Bool, true, false, ◌||◌, ◌≡◌, refl, ap, none, some, List, [], ◌∷◌, ◌++◌, arith,
  str_eq, eq_iff, if◌then◌else◌, length,
}
use agent_harness_runtime.Status.{Status, status_eq, Transition, valid_transition}
use agent_harness_runtime.Types.{ToolCall, Step}
use agent_harness_runtime.Checkpoint.{
  count, starts_tool, finishes_tool, contains, call_ids, check_steps, valid_call, history_from,
}

pub status_eq_refl : (s : Status) → status_eq s s ≡ true
status_eq_refl s = ground arith

pub status_eq-eq : (s t : Status) → status_eq s t ≡ true → s ≡ t
status_eq-eq s t h = ground arith

pub history_from-append :
    (a : Status) (ts : List Transition) (s t : Status)
    → history_from a ts ≡ some s
    → valid_transition s t ≡ true
    → history_from a (ts ++ record { from = s; to = t } ∷ []) ≡ some t
unfolding history_from
history_from-append a [] s t h v = ground (arith, status_eq_refl s)
history_from-append a (u ∷ ts) s t h v = ground (arith, history_from-append u.to ts s t)

pub count-append :
    (p : Transition → Bool) (ts : List Transition) (t : Transition)
    → count p (ts ++ t ∷ []) ≡ count p ts + (if p t then 1 else 0)
count-append p [] t = omega arith
count-append p (u ∷ ts) t = omega (arith, count-append p ts t)

-- The boundaries of tool calls are their starts and their finishes.
pub count-boundaries :
    (ts : List Transition)
    → count (λ t. starts_tool t || finishes_tool t) ts
      ≡ count starts_tool ts + count finishes_tool ts
count-boundaries [] = omega arith
count-boundaries (t ∷ ts) = ground (arith, count-boundaries ts)

pub call_ids-append :
    (ss : List Step) (s : Step) → call_ids (ss ++ s ∷ []) ≡ call_ids ss ++ s.call.id ∷ []
call_ids-append [] s = refl
call_ids-append (t ∷ ss) s = ap (λ l. t.call.id ∷ l) (call_ids-append ss s)

pub contains-append :
    (xs : List String) (y z : String) → contains (xs ++ y ∷ []) z ≡ (contains xs z || str_eq y z)
unfolding contains
contains-append [] y z = ground arith
contains-append (x ∷ xs) y z = ground (arith, contains-append xs y z)

str_eq_sym : (a b : String) → str_eq a b ≡ str_eq b a
str_eq_sym a b = ground (arith, eq_iff a b, eq_iff b a)

-- A step with the next index and a new ID may follow steps that pass.
pub check_steps-append :
    (i n : ℕ) (seen : List String) (ss : List Step) (call : ToolCall) (output : String)
    → n ≡ i + length ss + 1
    → check_steps i seen ss ≡ none
    → contains seen call.id ≡ false
    → contains (call_ids ss) call.id ≡ false
    → valid_call call ≡ none
    → check_steps i seen (
        ss
        ++ record { index = n; call = call; result = record { call_id = call.id; output = output } }
          ∷ [])
      ≡ none
unfolding check_steps contains
check_steps-append i n seen [] call output e h new fresh valid =
    ground (arith, eq_iff call.id call.id)
check_steps-append i n seen (s ∷ ss) call output e h new fresh valid =
    ground (arith, check_steps-append (i + 1) n (s.call.id ∷ seen) ss call output (omega arith))
