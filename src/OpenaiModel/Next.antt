-- ===== src/OpenaiModel/Next.antt =====
-- openai_model.go: one call of the model: the request, the answer of the provider, and the decision.
pub mod Decisions
use agent_harness_runtime.Base.{
  ℕ, pos, ◌+◌, ◌*◌, ◌^◌, String, Bool, true, false, not, ◌&&◌, ◌||◌, Option, none, some, List, [],
  ◌∷◌, ◌++◌, str_eq, ltb, leb, if◌then◌else◌,
}
use agent_harness_runtime.Errors.{
  Error, sentinel, detail, both, provider_http, Reply, ok, err, invalid_request, model_provider,
  model_response,
}
use agent_harness_runtime.Types.{ToolCall, Decision, final, tool_call, ModelInput}
use agent_harness_runtime.Ports.{Context, Model}
use agent_harness_runtime.OpenaiModel.{
  Fields, OpenaiModel, ChatToolCall, ChatRequest, then_reply, unless_config, is_empty, messages,
}

-- A choice of `openAIChatResponse`.
pub record Choice : Type 0 where
  pub finish_reason : String
  pub content : Option String
  pub tool_calls : List ChatToolCall

pub record HttpRequest (B : Type 0) : Type 0 where
  pub endpoint : String
  pub headers : Fields
  pub body : B
  pub follows_redirects : Bool

pub record HttpResponse : Type 0 where
  pub status_code : ℕ
  pub body : String

-- What is called of `net/http`, `io` and `encoding/json`, over bodies `B`. `read_body` reads at most the
-- given number of bytes.
pub record Wire (W : Type 0) (B : Type 0) : Type 0 where
  pub marshal_request : ChatRequest → Reply B
  pub fields_of : B → Reply Fields
  pub marshal_fields : Fields → Reply B
  pub new_request : HttpRequest B → Option Error
  pub send : Context W → HttpRequest B → W → Reply HttpResponse × W
  pub read_body : HttpResponse → ℕ → W → Reply String × W
  pub byte_length : String → ℕ
  pub take_bytes : ℕ → String → String
  pub trim_space : String → String
  pub append : String → String → String
  pub decode_response : String → Reply (List Choice)

-- `maxModelResponseBytes`.
abbrev pub max_model_response_bytes : ℕ
max_model_response_bytes = 4 * 2 ^ 20

-- `fields[key] = value`.
abbrev pub set_field : Fields → String → String → Fields
set_field [] key value = (key, value) ∷ []
set_field ((k, v) ∷ rest) key value =
    let below = set_field rest key value in
    if str_eq k key then (key, value) ∷ rest else (k, v) ∷ below

abbrev pub set_fields : Fields → Fields → Fields
set_fields fields [] = fields
set_fields fields ((key, value) ∷ rest) = set_fields (set_field fields key value) rest

abbrev pub response_error {ℓ} : {A : Type ℓ} → String → Reply A
response_error text = err (detail (sentinel model_response) text)

abbrev single_call : ChatToolCall → Reply Decision
single_call call =
    if not (str_eq call.type "") && not (str_eq call.type "function")
    then response_error "unsupported tool call type"
    else ok (record {
      kind = tool_call;
      output = "";
      call = record { id = call.id; name = call.name; arguments = call.arguments };
    })

abbrev pub no_call : ToolCall
no_call = record { id = ""; name = ""; arguments = "" }

abbrev final_answer : String → Option String → Reply Decision
final_answer reason content =
    if not (str_eq reason "") && not (str_eq reason "stop")
    then response_error "finish reason without a tool call"
    else elim content [
      | none ↦ response_error "final response has null content"
      | some output ↦ ok (record { kind = final; output = output; call = no_call })
    ]

abbrev by_calls : Choice → List ChatToolCall → Reply Decision
by_calls choice [] = final_answer choice.finish_reason choice.content
by_calls choice (call ∷ []) = single_call call
by_calls choice (call ∷ other ∷ more) =
    response_error "harness accepts one tool call per model attempt"

-- The decision of the first choice.
unfoldable pub decide_choices : List Choice → Reply Decision
decide_choices [] = response_error "response has no choices"
decide_choices (choice ∷ more) = by_calls choice choice.tool_calls

module _ {W : Type 0} {B : Type 0} (wire : Wire W B) where
  -- `marshalOpenAIChatRequest`.
  unfoldable pub marshal_openai_chat_request : ChatRequest → Fields → Reply B
  marshal_openai_chat_request payload extra_body =
      then_reply (wire.marshal_request payload) (λ body.
        if is_empty extra_body
        then ok body
        else then_reply (wire.fields_of body)
            (λ fields. wire.marshal_fields (set_fields fields extra_body)))

  abbrev pub payload_of : OpenaiModel → ModelInput → ChatRequest
  payload_of m input = record { model = m.model; messages = messages m input; tools = m.tools }

  abbrev pub request_of : OpenaiModel → B → HttpRequest B
  request_of m body = record {
    endpoint = m.endpoint;
    headers =
        ("Content-Type", "application/json")
        ∷ ("Accept", "application/json")
        ∷ (if not (str_eq m.api_key "")
            then ("Authorization", wire.append "Bearer " m.api_key) ∷ []
            else []);
    body = body;
    follows_redirects = m.follows_redirects;
  }

  -- The text of an error response: at most 4096 bytes.
  abbrev pub error_body : String → String
  error_body raw =
      let body = wire.trim_space raw in
      if ltb 4096 (wire.byte_length body) then wire.take_bytes 4096 body else body

  -- What is made of a body that was read.
  unfoldable pub decode_body : ℕ → String → Reply Decision
  unfolding decide_choices
  decode_body status raw =
      if ltb max_model_response_bytes (wire.byte_length raw)
      then response_error "response exceeds the limit"
      else if ltb status 200 || leb 300 status
      then err (provider_http (pos status) (error_body raw))
      else elim (wire.decode_response raw) [
        | err e ↦ response_error "decode JSON"
        | ok choices ↦ decide_choices choices
      ]

  received : ℕ → Reply String × W → Reply Decision × W
  unfolding decode_body
  received status (err e, w) = (err (both (sentinel model_provider) e), w)
  received status (ok raw, w) = (decode_body status raw, w)

  answered : Reply HttpResponse × W → Reply Decision × W
  unfolding received
  answered (err e, w) = (err (both (sentinel model_provider) e), w)
  answered (ok response, w) =
      received response.status_code (wire.read_body response (max_model_response_bytes + 1) w)

  sending : Context W → HttpRequest B → Option Error → W → Reply Decision × W
  unfolding answered
  sending ctx request (some e) w = (err (both (sentinel model_provider) e), w)
  sending ctx request none w = answered (wire.send ctx request w)

  with_body : OpenaiModel → Context W → Reply B → W → Reply Decision × W
  unfolding sending
  with_body m ctx (err e) w = (err e, w)
  with_body m ctx (ok body) w =
      let request = request_of m body in sending ctx request (wire.new_request request) w

  -- `Next`; `none` is a nil context.
  unfoldable pub next_decision :
      OpenaiModel → Option (Context W) → ModelInput → W → Reply Decision × W
  unfolding with_body marshal_openai_chat_request
  next_decision m none input w = (err (detail (sentinel invalid_request) "context is required"), w)
  next_decision m (some ctx) input w =
      with_body m ctx
        (unless_config "encode request"
          (marshal_openai_chat_request (payload_of m input) m.extra_body))
        w

  -- The adapter as a model of the runtime.
  unfoldable pub openai_model : OpenaiModel → Model W
  openai_model m = record { next = λ ctx input w. next_decision m (some ctx) input w }
