-- ===== src/Providers/Steps.antt =====
-- An LLM step of a run over the providers: `_apply_llm` of src/agentops/service.py calls
-- `generate_detailed` with an `on_chunk` that writes one llm.chunk event.
use agentops_control_plane.Base.{
  ℕ, zero, suc, String, true, ◌≡◌, refl, sym, ap, ◌∙◌, List, ◌∷◌, Option, none, arith, length,
}
use agentops_control_plane.Json.{Value, text}
use agentops_control_plane.Store.Rows.{Config, AgentEvent, EventType}
use agentops_control_plane.Store.Exec.{Db, Error, Result, ok, err}
use agentops_control_plane.Runs.Env.{Env, Call, Request, Reply}
use agentops_control_plane.Runs.Tools.{Usage, request, stream_chunks, apply_llm, usage_of}
use agentops_control_plane.Providers.Transport.{Outcome, returned, provider_error, crashed, join}
use agentops_control_plane.Providers.Mock.{ProviderResult}
use agentops_control_plane.Providers.Mock.Chunks.{IsStripping}
use agentops_control_plane.Providers.Registry.{Registry}
use agentops_control_plane.Providers.Generate.{generate_detailed}
use agentops_control_plane.Providers.Generate.Answers.{generate_detailed-join}

abbrev pub reply_of : Outcome ProviderResult → Result Reply
reply_of (returned r) = ok (record {
  text = r.text;
  input_tokens = r.input_tokens;
  output_tokens = r.output_tokens;
  finish_reason = r.finish_reason;
})
reply_of (provider_error e) = err (Error.provider e)
reply_of (crashed e) = err (Error.runtime e)

-- The call that a step makes, with its chunks.
abbrev pub generated : Registry → Request → Outcome ProviderResult × List String
generated r q = generate_detailed r q.provider q.model q.prompt q.system true q.api_key

abbrev pub generate_of : Registry → Request → ℕ × Result Reply
generate_of r q = let (o, chunks) = generated r q in (length chunks, reply_of o)

-- The environment in which the providers answer; what the network does is up to each call.
abbrev pub over : (Call → Registry) → Env → Env
over registries env = record env { generate = λ call q. generate_of (registries call) q }

-- The events of a run's chunks, on those that were there.
abbrev pub with_chunks : ℕ → ℕ → List AgentEvent → List AgentEvent
with_chunks run_id zero events = events
with_chunks run_id (suc n) events =
    with_chunks run_id n ((record { run_id = run_id; event_type = EventType.llm_chunk }) ∷ events)

stream_chunks_lem :
    (env : Env) (run_id n : ℕ) (s : Db)
    → stream_chunks env run_id n s ≡ (ok tt, record s { events = with_chunks run_id n s.events })
unfolding stream_chunks
stream_chunks_lem env run_id zero s = refl
stream_chunks_lem env run_id (suc n) s = stream_chunks_lem env run_id n (record s {
  events = (record { run_id = run_id; event_type = EventType.llm_chunk }) ∷ s.events;
})

reply_of-text :
    (o : Outcome ProviderResult) (reply : Reply)
    → reply_of o ≡ ok reply
    → (r : ProviderResult) × (o ≡ returned r) × (reply.text ≡ r.text)
reply_of-text (returned r) reply e = (r, refl, ground arith)
reply_of-text (provider_error x) reply e = grind arith
reply_of-text (crashed x) reply e = grind arith

abbrev finished : Result Reply → Result (Value × Option Usage)
finished (ok reply) = ok (text reply.text, usage_of reply)
finished (err e) = err e

finished-text :
    (answer : Result Reply) (out : Value × Option Usage)
    → finished answer ≡ ok out
    → (reply : Reply) × (answer ≡ ok reply) × (out.0 ≡ text reply.text)
finished-text (ok reply) out e = (reply, refl, ground arith)
finished-text (err x) out e = grind arith

apply_llm_lem :
    (env : Env) (call : Call) (project_id : ℕ) (config : Config) (v : Value) (s : Db)
    → config.credential_ref ≡ none
    → let (n, answer) = env.generate call (request env config v none) in
      apply_llm env call project_id config v s
      ≡ (finished answer, record s { events = with_chunks call.run_id n s.events })
unfolding apply_llm
apply_llm_lem env call project_id config v s keyless =
    let (n, answer) = env.generate call (request env config v none) in
    ground (arith, stream_chunks_lem env call.run_id n s)

-- An LLM step with no credential of its own, over whatever providers and network: the step writes
-- one event for each chunk and nothing else, and where it has an output, that is the text that the
-- chunks make, joined.
pub apply_llm-join :
    (registries : Call → Registry) (env : Env) (call : Call) (project_id : ℕ) (config : Config)
    (v : Value) (s : Db)
    → IsStripping (registries call).host
    → config.credential_ref ≡ none
    → let chunks = (generated (registries call) (request env config v none)).1 in
      let (result, s') = apply_llm (over registries env) call project_id config v s in
      (s' ≡ record s { events = with_chunks call.run_id (length chunks) s.events })
      × ((out : Value × Option Usage) → result ≡ ok out → out.0 ≡ text (join chunks))
apply_llm-join registries env call project_id config v s h keyless =
    let q = request env config v none in
    let (o, chunks) = generated (registries call) q in
    let e = apply_llm_lem (over registries env) call project_id config v s keyless in
    rw e (
      refl,
      λ out done.
          let (reply, found, body) = finished-text (reply_of o) out done in
          let (r, sent, same) = reply_of-text o reply found in
          let joins =
            generate_detailed-join (registries call) h q.provider q.model q.prompt q.system
              q.api_key r sent in
          body ∙ ap text (same ∙ sym joins),
    )
