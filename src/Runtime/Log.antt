-- ===== src/Runtime/Log.antt =====
-- What the log of a run says of the order of its effects. A log is newest first.
use agent_harness_runtime.Base.{
  ℕ, suc, ◌+◌, ◌≤◌, ◌<◌, String, Bool, true, false, ◌≡◌, refl, eq_iff, Option, none, some, List, [],
  ◌∷◌, ◌++◌, arith,
}
use agent_harness_runtime.Status.{running_model, running_tool}
use agent_harness_runtime.Checkpoint.{Checkpoint, contains, validate_checkpoint}
use agent_harness_runtime.Checkpoint.History.{contains-append}
use agent_harness_runtime.Ports.{
  Effect, polled, wrote, called_model, executed, reconciled, replayed, observed,
}

-- The newest checkpoint that a store has acknowledged.
abbrev pub last_write : List Effect → Option Checkpoint
last_write [] = none
last_write (wrote cp none ∷ l) = some cp
last_write (_ ∷ l) = last_write l

abbrev pub model_calls : List Effect → ℕ
model_calls [] = 0
model_calls (called_model input reply ∷ l) = suc (model_calls l)
model_calls (_ ∷ l) = model_calls l

-- The IDs of the executed tool calls, oldest first.
abbrev pub executed_ids : List Effect → List String
executed_ids [] = []
executed_ids (executed call reply ∷ l) = executed_ids l ++ call.id ∷ []
executed_ids (_ ∷ l) = executed_ids l

-- Every write has a revision below the bound.
abbrev pub WritesBelow : ℕ → List Effect → Type 0
WritesBelow n [] = Unit
WritesBelow n (wrote cp e ∷ l) = (cp.revision < n) × WritesBelow n l
WritesBelow n (_ ∷ l) = WritesBelow n l

-- Each write has a higher revision than all before it.
abbrev pub RevisionsRise : List Effect → Type 0
RevisionsRise [] = Unit
RevisionsRise (wrote cp e ∷ l) = WritesBelow cp.revision l × RevisionsRise l
RevisionsRise (_ ∷ l) = RevisionsRise l

-- Every checkpoint handed to a store passes `validateCheckpoint`.
abbrev pub WritesValid : (String → Bool) → List Effect → Type 0
WritesValid utf8_valid [] = Unit
WritesValid utf8_valid (wrote cp e ∷ l) =
    (validate_checkpoint utf8_valid cp ≡ none) × WritesValid utf8_valid l
WritesValid utf8_valid (_ ∷ l) = WritesValid utf8_valid l

-- With a store, the newest acknowledged checkpoint meets the predicate.
abbrev pub Backed : Bool → Option Checkpoint → (Checkpoint → Type 0) → Type 0
Backed false o P = Unit
Backed true none P = ⊥
Backed true (some cp) P = P cp

pub Backed-some :
    (stored : Bool) (P : Checkpoint → Type 0) (cp : Checkpoint) → P cp → Backed stored (some cp) P
Backed-some false P cp h = tt
Backed-some true P cp h = h

pub Backed-unstored :
    (stored : Bool) (o : Option Checkpoint) (P : Checkpoint → Type 0)
    → stored ≡ false
    → Backed stored o P
Backed-unstored false o P e = tt
Backed-unstored true o P e = cc

-- Each model call starts from a saved checkpoint that holds its input and counts the attempt,
-- `base` being the attempts before the log begins.
abbrev pub ModelCallsReserved : Bool → ℕ → List Effect → Type 0
ModelCallsReserved stored base [] = Unit
ModelCallsReserved stored base (called_model input reply ∷ l) =
    Backed stored (last_write l) (λ cp.
      (cp.result.status ≡ running_model)
      × (cp.pending_tool ≡ none)
      × (cp.result.steps ≡ input.steps)
      × (cp.request.prompt ≡ input.prompt)
      × (cp.model_iterations ≡ base + suc (model_calls l)))
    × ModelCallsReserved stored base l
ModelCallsReserved stored base (_ ∷ l) = ModelCallsReserved stored base l

-- Each execution of a tool starts from a saved checkpoint with that very call pending.
abbrev pub ToolCallsSaved : Bool → List Effect → Type 0
ToolCallsSaved stored [] = Unit
ToolCallsSaved stored (executed call reply ∷ l) =
    Backed stored (last_write l)
      (λ cp. (cp.result.status ≡ running_tool) × (cp.pending_tool ≡ some call))
    × ToolCallsSaved stored l
ToolCallsSaved stored (_ ∷ l) = ToolCallsSaved stored l

-- No text occurs twice.
abbrev pub Distinct : List String → Type 0
Distinct [] = Unit
Distinct (x ∷ xs) = (contains xs x ≡ false) × Distinct xs

pub WritesBelow-mono : (m n : ℕ) (l : List Effect) → m ≤ n → WritesBelow m l → WritesBelow n l
WritesBelow-mono m n [] h b = tt
WritesBelow-mono m n (wrote cp e ∷ l) h b = (omega arith, WritesBelow-mono m n l h b.1)
WritesBelow-mono m n (polled e ∷ l) h b = WritesBelow-mono m n l h b
WritesBelow-mono m n (called_model i r ∷ l) h b = WritesBelow-mono m n l h b
WritesBelow-mono m n (executed c r ∷ l) h b = WritesBelow-mono m n l h b
WritesBelow-mono m n (reconciled c r ∷ l) h b = WritesBelow-mono m n l h b
WritesBelow-mono m n (replayed c r ∷ l) h b = WritesBelow-mono m n l h b
WritesBelow-mono m n (observed e ∷ l) h b = WritesBelow-mono m n l h b

pub Backed-map :
    (stored : Bool) (o : Option Checkpoint) (P Q : Checkpoint → Type 0)
    → ((cp : Checkpoint) → P cp → Q cp)
    → Backed stored o P
    → Backed stored o Q
Backed-map false o P Q g h = tt
Backed-map true none P Q g h = h
Backed-map true (some cp) P Q g h = g cp h

pub Distinct-append :
    (xs : List String) (y : String) → Distinct xs → contains xs y ≡ false → Distinct (xs ++ y ∷ [])
unfolding contains
Distinct-append [] y d n = (refl, tt)
Distinct-append (x ∷ xs) y d n =
    ground (arith, contains-append xs y x, Distinct-append xs y d.1, eq_iff x y, eq_iff y x)
