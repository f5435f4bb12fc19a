-- ===== src/Examples/Providers.antt =====
-- openai_model.go: the theorems on a conversation with one tool call, and on a provider that is
-- overloaded.
use agent_harness_runtime.Base.{
  ℕ, pos, String, true, false, ◌||◌, none, some, List, [], ◌∷◌, ◌≡◌, ◌↔◌, refl, str_eq,
}
use agent_harness_runtime.Errors.{
  ok, err, is, provider_http, model_provider, model_response, model_adapter_config,
}
use agent_harness_runtime.Types.{ModelInput, Decision, final}
use agent_harness_runtime.OpenaiModel.{
  Fields, default_client, OpenaiConfig, OpenaiModel, Texts, Url, reserved, new_openai_model,
  chat_completions_endpoint, check_key, check_extra, check_tools, messages,
}
use agent_harness_runtime.OpenaiModel.Next.{
  Choice, Wire, no_call, set_fields, decide_choices, decode_body, marshal_openai_chat_request,
  next_decision,
}
use agent_harness_runtime.OpenaiModel.Conversation.{exchanges_in, prompts_in, messages-exchanges}
use agent_harness_runtime.OpenaiModel.Next.Decisions.{
  Decides, decide_choices_iff, next_decision-classified,
}
use agent_harness_runtime.OpenaiModel.Configured.{get_field, new_openai_model-safe}
use agent_harness_runtime.Examples.{call, context}

abbrev texts : Texts
texts = record {
  parse_url =
      λ s. ok (record { scheme = "https"; host = s; path = ""; raw_query = ""; fragment = "" });
  url_string = λ u. u.host;
  trim_space = λ s. s;
  trim_slashes = λ s. s;
  append = λ a b. b;
  json_valid = λ s. true;
}

abbrev config : OpenaiConfig
config = record {
  base_url = "https://example.com";
  api_key = "key";
  model = "model-1";
  system_prompt = "";
  tools = record { name = "search"; description = ""; parameters = ""; strict = false } ∷ [];
  extra_body = ("temperature", "0") ∷ [];
  http_client = some default_client;
}

abbrev model : OpenaiModel
model = record {
  endpoint = "https://example.com";
  api_key = "key";
  model = "model-1";
  system_prompt = "";
  tools =
      record {
        type = "function";
        name = "search";
        description = "";
        parameters = none;
        strict = false;
      }
      ∷ [];
  extra_body = ("temperature", "0") ∷ [];
  follows_redirects = false;
}

accepted : new_openai_model texts config ≡ ok model
unfolding new_openai_model chat_completions_endpoint check_key check_extra check_tools
accepted = refl

new_openai_model-safe_example :
    ((fields : Fields) (key : String)
      → reserved key ≡ true
      → get_field (set_fields fields model.extra_body) key ≡ get_field fields key)
    × (str_eq model.api_key "" ≡ false
        → (model.follows_redirects ≡ false)
          × ((url : Url) × (texts.parse_url model.endpoint ≡ ok url)
              × (str_eq url.scheme "https" ≡ true)))
new_openai_model-safe_example = new_openai_model-safe texts config model accepted

abbrev input : ModelInput
input = record {
  prompt = "find it";
  steps =
      record { index = 1; call = call; result = record { call_id = "call-1"; output = "found" } }
      ∷ [];
}

messages-exchanges_example :
    (exchanges_in none (messages model input) ≡ (call, "found") ∷ [])
    × (prompts_in (messages model input) ≡ some "find it" ∷ [])
messages-exchanges_example = messages-exchanges model input

abbrev choices : List Choice
choices = record { finish_reason = "stop"; content = some "answer"; tool_calls = [] } ∷ []

abbrev answer : Decision
answer = record { kind = final; output = "answer"; call = no_call }

decide_choices_iff_example : (decide_choices choices ≡ ok answer) ↔ Decides choices answer
decide_choices_iff_example = decide_choices_iff choices answer

-- Every request is answered with the status 503.
abbrev wire : Wire ℕ String
wire = record {
  marshal_request = λ r. ok "{}";
  fields_of = λ b. ok [];
  marshal_fields = λ fs. ok "{}";
  new_request = λ r. none;
  send = λ ctx r w. (ok (record { status_code = 503; body = "" }), w);
  read_body = λ r n w. (ok r.body, w);
  byte_length = λ s. 0;
  take_bytes = λ n s. s;
  trim_space = λ s. s;
  append = λ a b. b;
  decode_response = λ s. ok [];
}

overloaded : (next_decision wire model (some context) input 0).0 ≡ err (provider_http (pos 503) "")
unfolding next_decision decode_body marshal_openai_chat_request
overloaded = refl

next_decision-classified_example :
    (is (provider_http (pos 503) "") model_provider
      || is (provider_http (pos 503) "") model_response
      || is (provider_http (pos 503) "") model_adapter_config)
    ≡ true
next_decision-classified_example =
    next_decision-classified wire model context input 0 (provider_http (pos 503) "") overloaded
