-- ===== src/OpenaiModel/Next/Decisions.antt =====
-- openai_model.go: which answers are decisions, and which errors a call returns.
use agent_harness_runtime.Base.{
  ℕ, String, Bool, true, ◌||◌, Option, none, some, List, [], ◌∷◌, eq_iff, ◌≡◌, ◌↔◌, ◌⊎◌, inl, inr,
  refl, arith, Option-cases, subst,
}
use agent_harness_runtime.Errors.{
  Error, is, model_provider, model_response, model_adapter_config, Reply, ok, err, Reply-cases,
}
use agent_harness_runtime.Types.{Decision, final, tool_call, ModelInput}
use agent_harness_runtime.Ports.{Context}
use agent_harness_runtime.OpenaiModel.{OpenaiModel, ChatToolCall, unless_config}
use agent_harness_runtime.OpenaiModel.Next.{
  Choice, HttpRequest, HttpResponse, Wire, no_call, by_calls, decide_choices, decode_body, received,
  answered, sending, with_body, next_decision,
}

-- The answers that are decisions: one call of a function, or a text that has come to its end.
pub data Decides : List Choice → Decision → Type 0 where
  calls_tool :
      (choice : Choice) (more : List Choice) (call : ChatToolCall)
      → choice.tool_calls ≡ call ∷ []
      → (call.type ≡ "") ⊎ (call.type ≡ "function")
      → Decides (choice ∷ more) (record {
        kind = tool_call;
        output = "";
        call = record { id = call.id; name = call.name; arguments = call.arguments };
      })
  answers :
      (choice : Choice) (more : List Choice) (output : String)
      → choice.tool_calls ≡ []
      → (choice.finish_reason ≡ "") ⊎ (choice.finish_reason ≡ "stop")
      → choice.content ≡ some output
      → Decides (choice ∷ more) (record { kind = final; output = output; call = no_call })

Decides-decide_choices :
    (choices : List Choice) (d : Decision) → Decides choices d → decide_choices choices ≡ ok d
unfolding decide_choices
Decides-decide_choices choices d (calls_tool choice more call q (inl t)) =
    rw q (ground (arith, t, eq_iff call.type ""))
Decides-decide_choices choices d (calls_tool choice more call q (inr t)) =
    rw q (ground (arith, t, eq_iff call.type "function"))
Decides-decide_choices choices d (answers choice more output q (inl t) c) =
    rw (q, c) (ground (arith, t, eq_iff choice.finish_reason ""))
Decides-decide_choices choices d (answers choice more output q (inr t) c) =
    rw (q, c) (ground (arith, t, eq_iff choice.finish_reason "stop"))
    -- The cases of the list of tool calls.

by_calls-Decides :
    (choice : Choice) (more : List Choice) (calls : List ChatToolCall) (d : Decision)
    → choice.tool_calls ≡ calls
    → by_calls choice calls ≡ ok d
    → Decides (choice ∷ more) d
by_calls-Decides choice more [] d q h = elim (Option-cases choice.content) [
  | inl c ↦ absurd (no_content c)
  | inr (output, c) ↦ subst (Decides (choice ∷ more)) (given output c) (
      answers choice more output q
        (ground (arith, h, eq_iff choice.finish_reason "", eq_iff choice.finish_reason "stop")) c)
]
  where
    no_content : choice.content ≡ none → ⊥
    no_content c = ground (arith, h, c)

    given :
        (output : String)
        → choice.content ≡ some output
        → record { kind = final; output = output; call = no_call } ≡ d
    given output c = ground (arith, h, c)
by_calls-Decides choice more (call ∷ []) d q h = subst (Decides (choice ∷ more)) given (
    calls_tool choice more call q
      (ground (arith, h, eq_iff call.type "", eq_iff call.type "function")))
  where
    given :
        record {
          kind = tool_call;
          output = "";
          call = record { id = call.id; name = call.name; arguments = call.arguments };
        }
        ≡ d
    given = ground (arith, h)
by_calls-Decides choice more (call ∷ other ∷ rest) d q h = cc

-- The provider's answer is taken for a decision exactly if its first choice makes one call of a
-- function, or makes no call, has come to its end and has a text; the decision is that call or that
-- text.
pub decide_choices_iff :
    (choices : List Choice) (d : Decision) → (decide_choices choices ≡ ok d) ↔ Decides choices d
unfolding decide_choices
decide_choices_iff choices d = (decides choices, Decides-decide_choices choices d)
  where
    decides : (choices : List Choice) → decide_choices choices ≡ ok d → Decides choices d
    decides [] h = cc
    decides (choice ∷ more) h = by_calls-Decides choice more choice.tool_calls d refl h

-- An error of the provider, of its answer, or of the adapter's configuration.
abbrev pub classified : Error → Bool
classified e = is e model_provider || is e model_response || is e model_adapter_config

module _ {W : Type 0} {B : Type 0} (wire : Wire W B) where
  by_calls-classified :
      (choice : Choice) (calls : List ChatToolCall) (e : Error)
      → by_calls choice calls ≡ err e
      → classified e ≡ true
  unfolding is
  by_calls-classified choice [] e h = ground (arith, h)
  by_calls-classified choice (call ∷ []) e h = ground (arith, h)
  by_calls-classified choice (call ∷ other ∷ rest) e h = ground (arith, h)

  decode_body-classified :
      (status : ℕ) (raw : String) (e : Error)
      → decode_body wire status raw ≡ err e
      → classified e ≡ true
  unfolding decode_body decide_choices is
  decode_body-classified status raw e h = elim (Reply-cases (wire.decode_response raw)) [
    | inl ([], q) ↦ ground (arith, h, q)
    | inl (choice ∷ more, q) ↦ ground (arith, h, q, by_calls-classified choice choice.tool_calls e)
    | inr (x, q) ↦ ground (arith, h, q)
  ]

  received-classified :
      (status : ℕ) (read : Reply String × W) (e : Error)
      → (received wire status read).0 ≡ err e
      → classified e ≡ true
  unfolding received is
  received-classified status (err x, w) e h = ground (arith, h)
  received-classified status (ok raw, w) e h = decode_body-classified status raw e h

  answered-classified :
      (sent : Reply HttpResponse × W) (e : Error)
      → (answered wire sent).0 ≡ err e
      → classified e ≡ true
  unfolding answered is
  answered-classified (err x, w) e h = ground (arith, h)
  answered-classified (ok response, w) e h = received-classified response.status_code _ e h

  sending-classified :
      (ctx : Context W) (request : HttpRequest B) (o : Option Error) (w : W) (e : Error)
      → (sending wire ctx request o w).0 ≡ err e
      → classified e ≡ true
  unfolding sending is
  sending-classified ctx request (some x) w e h = ground (arith, h)
  sending-classified ctx request none w e h = answered-classified _ e h

  with_body-classified :
      (m : OpenaiModel) (ctx : Context W) (body : Reply B) (w : W) (e : Error)
      → (with_body wire m ctx (unless_config "encode request" body) w).0 ≡ err e
      → classified e ≡ true
  unfolding with_body is
  with_body-classified m ctx (err x) w e h = ground (arith, h)
  with_body-classified m ctx (ok body) w e h = sending-classified ctx _ _ w e h

  -- Every error that a call with a context returns is one of the provider, of its answer or of the
  -- adapter's configuration, whatever fails on the way.
  pub next_decision-classified :
      (m : OpenaiModel) (ctx : Context W) (input : ModelInput) (w : W) (e : Error)
      → (next_decision wire m (some ctx) input w).0 ≡ err e
      → (is e model_provider || is e model_response || is e model_adapter_config) ≡ true
  unfolding next_decision
  next_decision-classified m ctx input w e h = with_body-classified m ctx _ w e h
