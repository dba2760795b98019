-- ===== src/Providers/Generate/Answers.antt =====
-- The streamed answers of the providers, and the texts that are returned.
use agentops_control_plane.Base.{
  ℕ, String, Bool, true, ◌≡◌, sym, List, Option, arith, Bool-cases, Option-cases, inl, inr, str_eq,
}
use agentops_control_plane.Store.Rows.{ℤ, pos, negsuc}
use agentops_control_plane.Providers.Transport.{
  Outcome, returned, provider_error, crashed, Response, Read, join, allowed_scheme, stream_request,
}
use agentops_control_plane.Providers.Streams.{stream_request-Delivers}
use agentops_control_plane.Providers.Mock.{ProviderResult, or_text}
use agentops_control_plane.Providers.Mock.Chunks.{IsStripping, generate_mock-join}
use agentops_control_plane.Providers.Registry.{
  Provider, mock, ollama, openai, anthropic, Registry, provider_of, default_model,
}
use agentops_control_plane.Providers.Generate.{
  call_of, event_of, is_sse, streamed, call_provider, key_of, with_key, generate_by,
  generate_detailed,
}

stream_request-join :
    (sse : Bool) (strip : String → String) (event : String → Read) (network : ℕ → Response)
    (retries : ℤ) (scheme : String) (text : String)
    → (stream_request sse strip event network retries scheme).0.outcome ≡ returned text
    → text ≡ join (stream_request sse strip event network retries scheme).1.published
unfolding stream_request
stream_request-join sse strip event network (pos n) scheme text e =
    elim (Bool-cases (allowed_scheme scheme)) [
      | inl allowed ↦
          let (k, le, before, published, honest) =
            stream_request-Delivers sse strip event network n scheme allowed in
          honest text e
      | inr refused ↦ ground arith
    ]
stream_request-join sse strip event network (negsuc n) scheme text e = ground arith

module _ (r : Registry) (h : IsStripping r.host) where
  streamed-text :
      (p : Provider) (model : String) (o : Outcome String) (result : ProviderResult)
      → streamed r p model o ≡ returned result
      → o ≡ returned result.text
  streamed-text p model (returned body) result e = ground arith
  streamed-text p model (provider_error x) result e = grind arith
  streamed-text p model (crashed x) result e = grind arith

  abbrev Joins : Outcome ProviderResult × List String → Type 0
  Joins (o, chunks) = (result : ProviderResult) → o ≡ returned result → join chunks ≡ result.text

  call_provider-Joins :
      (p : Provider) (key model prompt system : String)
      → Joins (call_provider r p key model prompt system true)
  unfolding call_provider
  call_provider-Joins p key model prompt system result e =
      let call = call_of r p key model prompt system true in
      sym (
        stream_request-join (is_sse r p) r.host.strip (event_of r p) (r.stream call) r.retries
          (r.scheme call.url) result.text
          (streamed-text p model
            (stream_request (is_sse r p) r.host.strip (event_of r p) (r.stream call) r.retries
              (r.scheme call.url)).0.outcome
            result e))

  with_key-Joins :
      (p : Provider) (key model prompt system : String)
      → Joins (with_key r p key model prompt system true)
  with_key-Joins p key model prompt system result e = elim (Bool-cases (str_eq key "")) [
    | inl missing ↦ grind arith
    | inr given ↦ ground (arith, call_provider-Joins p key model prompt system result)
  ]

  generate_by-Joins :
      (p : Provider) (model prompt system : String) (api_key : Option String)
      → Joins (generate_by r p model prompt system true api_key)
  unfolding generate_by
  generate_by-Joins mock model prompt system api_key result e =
      (generate_mock-join r.host h model prompt system result e).1
  generate_by-Joins ollama model prompt system api_key result e =
      call_provider-Joins ollama "" model prompt system result e
  generate_by-Joins openai model prompt system api_key result e =
      with_key-Joins openai (key_of r openai api_key) model prompt system result e
  generate_by-Joins anthropic model prompt system api_key result e =
      with_key-Joins anthropic (key_of r anthropic api_key) model prompt system result e

-- Whatever the provider, the network and the retries: where `generate_detailed` returns under a
-- stream, the chunks that its consumer was given, joined, are the text that it returns, no piece
-- twice and none left out.
pub generate_detailed-join :
    (r : Registry)
    → IsStripping r.host
    → (provider model prompt system : String) (api_key : Option String) (result : ProviderResult)
    → (generate_detailed r provider model prompt system true api_key).0 ≡ returned result
    → join (generate_detailed r provider model prompt system true api_key).1 ≡ result.text
unfolding generate_detailed
generate_detailed-join r h provider model prompt system api_key result e =
    elim (Option-cases (provider_of provider)) [
      | inl unknown ↦ grind arith
      | inr (p, found) ↦ ground (
        arith,
        generate_by-Joins r h p (or_text model (default_model p)) prompt system api_key result,
      )
    ]
