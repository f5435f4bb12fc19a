-- ===== src/OpenaiModel/Conversation.antt =====
-- openai_model.go: what the messages of a request say.
use agent_harness_runtime.Base.{
  String, Option, none, some, List, [], ◌∷◌, str_eq, eq_iff, if◌then◌else◌, ◌≡◌, inl, inr, refl, ap,
  Bool-cases,
}
use agent_harness_runtime.Types.{ToolCall, Step, ModelInput}
use agent_harness_runtime.OpenaiModel.{
  OpenaiModel, ChatToolCall, ChatMessage, step_messages, messages,
}

-- The call that a message of the assistant makes.
abbrev pub called : List ChatToolCall → Option ToolCall
called [] = none
called (c ∷ cs) = some (record { id = c.id; name = c.name; arguments = c.arguments })

abbrev pub exchange : ToolCall → ChatMessage → List (ToolCall × String) → List (ToolCall × String)
exchange call m below = elim m.content [
  | none ↦ below
  | some output ↦ if str_eq m.tool_call_id call.id then (call, output) ∷ below else below
]

-- The tool calls of a conversation, each with the answer that follows it under the same ID.
abbrev pub exchanges_in : Option ToolCall → List ChatMessage → List (ToolCall × String)
exchanges_in call [] = []
exchanges_in none (m ∷ rest) = exchanges_in (called m.tool_calls) rest
exchanges_in (some call) (m ∷ rest) = exchange call m (exchanges_in none rest)

abbrev pub exchanges_of : List Step → List (ToolCall × String)
exchanges_of [] = []
exchanges_of (step ∷ rest) = (step.call, step.result.output) ∷ exchanges_of rest

-- What the user has said.
abbrev pub prompts_in : List ChatMessage → List (Option String)
prompts_in [] = []
prompts_in (m ∷ rest) =
    let below = prompts_in rest in if str_eq m.role "user" then m.content ∷ below else below

step_messages-exchanges :
    (steps : List Step)
    → (exchanges_in none (step_messages steps) ≡ exchanges_of steps)
      × (prompts_in (step_messages steps) ≡ [])
step_messages-exchanges [] = (refl, refl)
step_messages-exchanges (step ∷ rest) =
    let below = step_messages-exchanges rest in
    (
      rw ((eq_iff step.call.id step.call.id).1 refl)
          (ap (λ xs. (step.call, step.result.output) ∷ xs) (below.0)),
      below.1,
    )

-- The messages of a request hold the prompt, as the only message of the user, and exactly the tool
-- calls of the input in their order, each followed by its output under its ID.
pub messages-exchanges :
    (m : OpenaiModel) (input : ModelInput)
    → (exchanges_in none (messages m input) ≡ exchanges_of input.steps)
      × (prompts_in (messages m input) ≡ some input.prompt ∷ [])
unfolding messages
messages-exchanges m input =
    let below = step_messages-exchanges input.steps in
    elim (Bool-cases (str_eq m.system_prompt "")) [
      | inl b ↦ rw b (below.0, ap (λ xs. some input.prompt ∷ xs) (below.1))
      | inr b ↦ rw b (below.0, ap (λ xs. some input.prompt ∷ xs) (below.1))
    ]
