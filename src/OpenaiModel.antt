-- ===== src/OpenaiModel.antt =====
-- openai_model.go: the model behind an OpenAI-compatible endpoint. URLs, JSON, texts and HTTP are
-- outside the repository: what is called of them are fields of a record. A map is a list of pairs,
-- and raw JSON a text.
pub mod Next
pub mod Conversation
pub mod Configured
use agent_harness_runtime.Base.{
  ℕ, ◌+◌, String, Bool, true, false, not, ◌&&◌, ◌||◌, Option, none, some, List, [], ◌∷◌, ◌++◌, map,
  str_eq, if◌then◌else◌,
}
use agent_harness_runtime.Errors.{
  Error, sentinel, detail, opaque, Reply, ok, err, model_adapter_config,
}
use agent_harness_runtime.Types.{Step, ModelInput}

pub record OpenaiToolDefinition : Type 0 where
  pub name : String
  pub description : String
  pub parameters : String
  pub strict : Bool

abbrev pub Fields : Type 0
Fields = List (String × String)

-- What is read of an `http.Client`: whether it follows redirects.
pub record HttpClient : Type 0 where
  pub follows_redirects : Bool

-- `http.DefaultClient`.
abbrev pub default_client : HttpClient
default_client = record { follows_redirects = true }

-- `OpenAICompatibleModelConfig`.
pub record OpenaiConfig : Type 0 where
  pub base_url : String
  pub api_key : String
  pub model : String
  pub system_prompt : String
  pub tools : List OpenaiToolDefinition
  pub extra_body : Fields
  pub http_client : Option HttpClient

-- `openAIChatTool`; a tool without parameters has none.
pub record ChatTool : Type 0 where
  pub type : String
  pub name : String
  pub description : String
  pub parameters : Option String
  pub strict : Bool

-- `OpenAICompatibleModel`; of its client, whether it follows redirects.
pub record OpenaiModel : Type 0 where
  pub endpoint : String
  pub api_key : String
  pub model : String
  pub system_prompt : String
  pub tools : List ChatTool
  pub extra_body : Fields
  pub follows_redirects : Bool

pub record ChatToolCall : Type 0 where
  pub id : String
  pub type : String
  pub name : String
  pub arguments : String

pub record ChatMessage : Type 0 where
  pub role : String
  pub content : Option String
  pub tool_calls : List ChatToolCall
  pub tool_call_id : String

pub record ChatRequest : Type 0 where
  pub model : String
  pub messages : List ChatMessage
  pub tools : List ChatTool

-- A `url.URL`, and what is called of `net/url`, `strings` and `encoding/json` on texts.
pub record Url : Type 0 where
  pub scheme : String
  pub host : String
  pub path : String
  pub raw_query : String
  pub fragment : String

pub record Texts : Type 0 where
  pub parse_url : String → Reply Url
  pub url_string : Url → String
  pub trim_space : String → String
  pub trim_slashes : String → String
  pub append : String → String → String
  pub json_valid : String → Bool

abbrev pub config_error {ℓ} : {A : Type ℓ} → String → Reply A
config_error text = err (detail (sentinel model_adapter_config) text)

abbrev pub then_reply {ℓ κ} : {A : Type ℓ} {C : Type κ} → Reply A → (A → Reply C) → Reply C
then_reply (err e) next = err e
then_reply (ok a) next = next a

-- An error whose text alone is kept.
abbrev pub unless_config {ℓ} : {A : Type ℓ} → String → Reply A → Reply A
unless_config text (err e) = config_error text
unless_config text (ok a) = ok a

abbrev pub is_empty {ℓ} : {A : Type ℓ} → List A → Bool
is_empty [] = true
is_empty (x ∷ xs) = false

abbrev pub is_one_of : String → List String → Bool
is_one_of key [] = false
is_one_of key (x ∷ xs) = str_eq key x || is_one_of key xs

-- The fields of a request that belong to the adapter.
abbrev pub reserved : String → Bool
reserved key = is_one_of key ("model" ∷ "messages" ∷ "tools" ∷ "stream" ∷ [])

abbrev given_client : Option HttpClient → HttpClient
given_client none = default_client
given_client (some client) = client

-- The client of the configuration, or the default; with a key, a copy that follows no redirect.
abbrev pub client_of : OpenaiConfig → HttpClient
client_of config =
    let client = given_client config.http_client in
    if str_eq config.api_key "" then client else record client { follows_redirects = false }

module _ (t : Texts) where
  -- `chatCompletionsEndpoint`.
  unfoldable pub chat_completions_endpoint : String → Reply String
  chat_completions_endpoint base_url =
      if str_eq (t.trim_space base_url) ""
      then config_error "base URL is required"
      else then_reply (unless_config "parse base URL" (t.parse_url base_url)) (λ url.
        if not (str_eq url.scheme "http" || str_eq url.scheme "https") || str_eq url.host ""
        then config_error "base URL must be an absolute http(s) URL"
        else if not (str_eq url.raw_query "") || not (str_eq url.fragment "")
        then config_error "base URL must not contain query or fragment"
        else ok (
            t.url_string
              (record url { path = t.append (t.trim_slashes url.path) "/chat/completions" })))

  -- A key is only sent to an HTTPS endpoint.
  unfoldable pub check_key : String → String → Reply String
  check_key api_key endpoint =
      if str_eq api_key ""
      then ok endpoint
      else then_reply (unless_config "parse endpoint" (t.parse_url endpoint)) (λ url.
        if not (str_eq url.scheme "https")
        then config_error "API key requires an HTTPS endpoint"
        else ok endpoint)

  -- The loop over the extra fields.
  unfoldable pub check_extra : Fields → Reply Fields
  check_extra [] = ok []
  check_extra ((key, value) ∷ rest) =
      let checked = check_extra rest in
      if str_eq (t.trim_space key) ""
      then config_error "extra body field name is required"
      else if reserved key
      then config_error "extra body field is reserved"
      else if not (t.json_valid value)
      then config_error "extra body field is not valid JSON"
      else then_reply checked (λ fields. ok ((key, value) ∷ fields))

  -- The loop over the tools, with the names seen so far.
  unfoldable pub check_tools : List String → List OpenaiToolDefinition → Reply (List ChatTool)
  check_tools seen [] = ok []
  check_tools seen (tool ∷ rest) =
      let checked = check_tools (tool.name ∷ seen) rest in
      if str_eq (t.trim_space tool.name) ""
      then config_error "tool name is required"
      else if is_one_of tool.name seen
      then config_error "duplicate tool name"
      else if not (str_eq tool.parameters "") && not (t.json_valid tool.parameters)
      then config_error "tool parameters are not valid JSON"
      else then_reply checked (λ tools. ok (
          record {
            type = "function";
            name = tool.name;
            description = tool.description;
            parameters = if str_eq tool.parameters "" then none else some tool.parameters;
            strict = tool.strict;
          }
          ∷ tools))

  -- `NewOpenAICompatibleModel`.
  unfoldable pub new_openai_model : OpenaiConfig → Reply OpenaiModel
  unfolding chat_completions_endpoint check_key check_extra check_tools
  new_openai_model config = then_reply (chat_completions_endpoint config.base_url) (λ endpoint.
      if str_eq (t.trim_space config.model) ""
      then config_error "model is required"
      else then_reply (check_key config.api_key endpoint) (λ secure.
        then_reply (check_extra config.extra_body) (λ extra_body.
          then_reply (check_tools [] config.tools) (λ tools. ok (record {
            endpoint = secure;
            api_key = config.api_key;
            model = config.model;
            system_prompt = config.system_prompt;
            tools = tools;
            extra_body = extra_body;
            follows_redirects = (client_of config).follows_redirects;
          })))))

-- The two messages of a step: the assistant's call and the tool's answer.
abbrev pub step_messages : List Step → List ChatMessage
step_messages [] = []
step_messages (step ∷ rest) =
    record {
      role = "assistant";
      content = none;
      tool_calls =
          record {
            id = step.call.id;
            type = "function";
            name = step.call.name;
            arguments = step.call.arguments;
          }
          ∷ [];
      tool_call_id = "";
    }
    ∷ record {
      role = "tool";
      content = some step.result.output;
      tool_calls = [];
      tool_call_id = step.call.id;
    }
    ∷ step_messages rest

abbrev pub text_message : String → String → ChatMessage
text_message role content = record {
  role = role;
  content = some content;
  tool_calls = [];
  tool_call_id = "";
}

-- The method `messages`.
unfoldable pub messages : OpenaiModel → ModelInput → List ChatMessage
messages m input =
    (if not (str_eq m.system_prompt "") then text_message "system" m.system_prompt ∷ [] else [])
    ++ text_message "user" input.prompt ∷ step_messages input.steps
