-- ===== src/Providers/Generate.antt =====
-- `generate_detailed` of src/agentops/providers.py: the provider is looked up, its call is built and
-- made, and its answer is taken apart. A member that is missing, or a value of another kind, raises.
pub mod Answers
use agentops_control_plane.Base.{
  ℕ, String, Bool, true, false, List, [], ◌∷◌, ◌++◌, Option, none, some, str_eq, if◌then◌else◌,
  ◌==◌,
}
use Prim.Native.String.{◌++◌ as joined}
use agentops_control_plane.Json.{
  Value, null, bool, num, text, arr, obj, nil, cons, Items, Fields, end, field,
}
use agentops_control_plane.Store.Rows.{ℤ}
use agentops_control_plane.Runs.Tools.{default, lookup}
use agentops_control_plane.Providers.Transport.{
  Attempt, Outcome, returned, provider_error, crashed, Called, Response, Read, broken, piece,
  unreadable_event, request, stream_request,
}
use agentops_control_plane.Providers.Mock.{Host, ProviderResult, or_text, generate_mock}
use agentops_control_plane.Providers.Registry.{
  Provider, mock, ollama, openai, anthropic, provider_of, name_of, endpoint, api_key_env,
  default_model, HttpCall, Registry, get_item, get_or, first_item, bind,
}

module _ (r : Registry) where
  -- value or {}
  abbrev pub or_empty : Value → Value
  or_empty null = obj end
  or_empty (bool false) = obj end
  or_empty (num n) = if r.is_zero n then obj end else num n
  or_empty (text s) = if str_eq s "" then obj end else text s
  or_empty (arr nil) = obj end
  or_empty v = v

  abbrev pub string_of : Value → String
  string_of (text s) = s
  string_of v = r.to_str v

  abbrev pub finish_of : Value → Option String
  finish_of null = none
  finish_of v = some (string_of v)

  abbrev pub to_read : Option Value → Read
  to_read none = unreadable_event "malformed provider event"
  to_read (some v) = piece (string_of v)

  -- The three `extract` functions, on a decoded event.
  abbrev pub extract : Provider → Value → Option Value
  extract openai event = bind (get_or (arr (cons (obj end) nil)) "choices" event) λ choices.
      bind (first_item choices)
        λ choice. bind (get_or (obj end) "delta" choice) λ delta. get_or (text "") "content" delta
  extract anthropic event =
      bind (get_or (obj end) "delta" event) λ delta. get_or (text "") "text" delta
  extract _ event = get_or (text "") "response" event

  abbrev pub event_of : Provider → String → Read
  event_of provider line = elim (r.loads line) [
    | none ↦ broken
    | some event ↦ to_read (extract provider event)
  ]

  abbrev pub answer : Provider → String → Value → Value → Value → Value → ProviderResult
  answer provider model body ins outs finish = record {
    text = string_of body;
    provider = name_of provider;
    model = model;
    input_tokens = r.count ins;
    output_tokens = r.count outs;
    finish_reason = finish_of finish;
  }

  -- The parts of a response that the result is made of.
  abbrev pub result_of : Provider → String → Value → Option ProviderResult
  result_of openai model response = bind (get_or null "usage" response) λ usage.
      bind (get_item "choices" response) λ choices. bind (first_item choices) λ choice.
        bind (get_item "message" choice) λ message. bind (get_item "content" message) λ content.
          bind (get_or null "prompt_tokens" (or_empty usage)) λ ins.
            bind (get_or null "completion_tokens" (or_empty usage)) λ outs.
              bind (get_or null "finish_reason" choice)
                λ finish. some (answer openai model content ins outs finish)
  result_of anthropic model response = bind (get_or null "usage" response) λ usage.
      bind (get_item "content" response) λ contents. bind (first_item contents) λ content.
        bind (get_item "text" content) λ body.
          bind (get_or null "input_tokens" (or_empty usage)) λ ins.
            bind (get_or null "output_tokens" (or_empty usage)) λ outs.
              bind (get_or null "stop_reason" response)
                λ finish. some (answer anthropic model body ins outs finish)
  result_of provider model response = bind (get_or (text "") "response" response) λ body.
      bind (get_or null "prompt_eval_count" response) λ ins.
        bind (get_or null "eval_count" response)
          λ outs. some (answer provider model body ins outs (text "stop"))

  abbrev pub message : String → String → Value
  message role content = obj (field "role" (text role) (field "content" (text content) end))

  abbrev pub messages : String → String → Value
  messages system prompt =
      if str_eq system ""
      then arr (cons (message "user" prompt) nil)
      else arr (cons (message "system" system) (cons (message "user" prompt) nil))

  -- The member "stream" of a payload.
  abbrev pub stream_field : Bool → Fields
  stream_field true = field "stream" (bool true) end
  stream_field false = end

  unfoldable pub call_of : Provider → String → String → String → String → Bool → HttpCall
  call_of openai key model prompt system streams = record {
    url = "https://api.openai.com/v1/chat/completions";
    payload = obj (
        field "model" (text model)
          (field "messages" (messages system prompt) (stream_field streams)));
    headers = ("Authorization", joined "Bearer " key) ∷ [];
  }
  call_of anthropic key model prompt system streams = record {
    url = "https://api.anthropic.com/v1/messages";
    payload = obj (
        field "model" (text model) (
          field "max_tokens" (num "1024") (
            field "system" (text system)
              (field "messages" (arr (cons (message "user" prompt) nil)) (stream_field streams)))));
    headers = ("x-api-key", key) ∷ ("anthropic-version", "2023-06-01") ∷ [];
  }
  call_of provider key model prompt system streams = record {
    url = joined (r.rstrip (default (endpoint ollama) (r.getenv "OLLAMA_HOST"))) "/api/generate";
    payload = obj (
        field "model" (text model) (
          field "prompt" (text prompt)
            (field "system" (text system) (field "stream" (bool streams) end))));
    headers = [];
  }

  abbrev pub is_sse : Provider → Bool
  is_sse openai = true
  is_sse anthropic = true
  is_sse _ = false

  abbrev pub streamed : Provider → String → Outcome String → Outcome ProviderResult
  streamed provider model (returned body) = returned (record {
    text = body;
    provider = name_of provider;
    model = model;
    input_tokens = none;
    output_tokens = none;
    finish_reason = none;
  })
  streamed provider model (provider_error e) = provider_error e
  streamed provider model (crashed e) = crashed e

  abbrev pub taken_apart : Provider → String → Outcome Value → Outcome ProviderResult
  taken_apart provider model (returned response) = elim (result_of provider model response) [
    | none ↦ crashed "malformed provider response"
    | some result ↦ returned result
  ]
  taken_apart provider model (provider_error e) = provider_error e
  taken_apart provider model (crashed e) = crashed e

  -- A call of a provider over the network, and what `on_chunk` is given.
  unfoldable pub call_provider :
      Provider → String → String → String → String → Bool → Outcome ProviderResult × List String
  unfolding call_of request stream_request
  call_provider provider key model prompt system streams =
      let call = call_of provider key model prompt system streams in
      let scheme = r.scheme call.url in
      if streams
      then (let (c, s) =
            stream_request (is_sse provider) r.host.strip (event_of provider) (r.stream call)
              r.retries scheme in
          (streamed provider model c.outcome, s.published))
      else (taken_apart provider model (request (r.post call) r.retries scheme).outcome, [])

  -- api_key or os.getenv(...)
  abbrev pub key_of : Provider → Option String → String
  key_of provider api_key =
      or_text (default "" api_key) (default "" (r.getenv (api_key_env provider)))

  abbrev pub with_key :
      Provider → String → String → String → String → Bool → Outcome ProviderResult × List String
  with_key provider key model prompt system streams =
      if str_eq key ""
      then (provider_error "the provider's API key is not configured", [])
      else call_provider provider key model prompt system streams

  unfoldable pub generate_by :
      Provider
      → String
      → String
      → String
      → Bool
      → Option String
      → Outcome ProviderResult × List String
  unfolding call_provider
  generate_by mock model prompt system streams api_key =
      generate_mock r.host model prompt system streams
  generate_by ollama model prompt system streams api_key =
      call_provider ollama "" model prompt system streams
  generate_by provider model prompt system streams api_key =
      with_key provider (key_of provider api_key) model prompt system streams

  -- `generate_detailed`; `streams` says whether there is an `on_chunk`.
  unfoldable pub generate_detailed :
      String
      → String
      → String
      → String
      → Bool
      → Option String
      → Outcome ProviderResult × List String
  unfolding provider_of generate_by
  generate_detailed provider model prompt system streams api_key = elim (provider_of provider) [
    | none ↦ (provider_error "unknown provider", [])
    | some p ↦ generate_by p (or_text model (default_model p)) prompt system streams api_key
  ]
