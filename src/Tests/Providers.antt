-- ===== src/Tests/Providers.antt =====
-- Calls of the providers: a server that fails once and then answers, one that refuses each call, and
-- a registry in which ollama streams.
use agentops_control_plane.Base.{
  ℕ, zero, suc, ◌*◌, ◌≤◌, ◌<◌, String, Bool, true, false, ◌≡◌, ◌⊎◌, refl, Option, some, none, [],
  ◌∷◌, length, total, str_eq, arith,
}
use Prim.Native.Char.{Char}
use Prim.Native.String.{◌++◌ as joined, [] as nothing, ◌∷◌ as char}
use package.text.Mathlib.TextLemmas.{cons-append}
use agentops_control_plane.Base.Sorting.{self}
use agentops_control_plane.Json.{Value, text, obj, field, end}
use agentops_control_plane.Store.Rows.{pos}
use agentops_control_plane.Store.Exec.{ok}
use agentops_control_plane.Runs.Env.{Call}
use agentops_control_plane.Runs.Tools.{Usage, request as request_of, apply_llm}
use agentops_control_plane.Providers.Transport.{
  Attempt, answered, failed, http, url, absent, seconds, Response, ended, provider_error, piece,
  join, returned, request, stream_request, request_from, stream_from, read_lines, read_line,
  backoff_delay, retryable,
}
use agentops_control_plane.Providers.Retries.{request-Decides, is_retried, final, waits}
use agentops_control_plane.Providers.Streams.{
  pieces, refused, refused_response, single_end, stream_request-Delivers,
  stream_request-unauthorized,
}
use agentops_control_plane.Providers.Mock.{Host, starts_blank, tone_of, ProviderResult}
use agentops_control_plane.Providers.Mock.Chunks.{IsStripping}
use agentops_control_plane.Providers.Registry.{Registry, provider_of}
use agentops_control_plane.Providers.Generate.{
  generate_detailed, generate_by, call_provider, call_of,
}
use agentops_control_plane.Providers.Generate.Answers.{generate_detailed-join}
use agentops_control_plane.Providers.Steps.{over, generated, with_chunks, apply_llm-join}
use agentops_control_plane.Tests.{env, db, no_config}

-- Busy, with a Retry-After header, and then an answer.
abbrev busy : ℕ → Attempt String
busy zero = failed (http 503 (seconds (pos 2)))
busy (suc trial) = answered "hello"

request-Decides_example :
    (k : ℕ) × (k ≤ 2)
    × ((j : ℕ) → j < k → is_retried (busy j) ≡ true)
    × ((k ≡ 2) ⊎ (is_retried (busy k) ≡ false))
    × ((request busy (pos 2) "https").outcome ≡ final (busy k))
    × ((request busy (pos 2) "https").delays ≡ waits busy 0 k)
    × (total self (request busy (pos 2) "https").delays ≤ 30 * 2)
request-Decides_example = request-Decides busy 2 "https" refl

request-busy : (request busy (pos 2) "https").delays ≡ 2 ∷ []
unfolding request request_from backoff_delay retryable
request-busy = refl

-- The connection is lost before the first line, then there are two pieces.
abbrev replies : ℕ → Response
replies zero = record { lines = []; ends = failed url }
replies (suc trial) = record { lines = "hel" ∷ "" ∷ "lo" ∷ []; ends = answered tt }

abbrev same : String → String
same s = s

stream_request-Delivers_example :
    let (c, s) = stream_request false same piece replies (pos 2) "http" in
    (k : ℕ) × (k ≤ 2)
    × ((j : ℕ) → j < k → pieces false same piece replies j ≡ [])
    × (s.published ≡ pieces false same piece replies k)
    × ((text : String) → c.outcome ≡ returned text → text ≡ join s.published)
stream_request-Delivers_example = stream_request-Delivers false same piece replies 2 "http" refl

stream_request-replies :
    let (c, s) = stream_request false same piece replies (pos 2) "http" in
    (c.outcome ≡ returned "hello") × (s.published ≡ "hel" ∷ "lo" ∷ []) × (c.delays ≡ 1 ∷ [])
unfolding stream_request stream_from read_lines read_line backoff_delay
stream_request-replies = (refl, refl, refl)

-- A key that is refused once, and then taken.
abbrev refused_once : ℕ → Attempt String
refused_once zero = refused absent
refused_once (suc trial) = answered "hello"

-- A stream that is refused twice, and then comes.
abbrev refused_twice : ℕ → Response
refused_twice zero = refused_response absent
refused_twice (suc zero) = refused_response absent
refused_twice (suc (suc trial)) = record { lines = "data:hello" ∷ []; ends = answered tt }

refused_twice_at : (j : ℕ) → j < 2 → refused_twice j ≡ refused_response absent
refused_twice_at zero lt = refl
refused_twice_at (suc zero) lt = refl
refused_twice_at (suc (suc j)) lt = absurd (omega arith)

stream_request-unauthorized_example :
    let (c, s) = stream_request true same piece refused_twice (pos 2) "https" in
    let (last, stream) = single_end true same piece absent refused_twice 2 in
    (request refused_once (pos 2) "https" ≡ ended (provider_error "provider request failed"))
    × (c.outcome ≡ last.outcome)
    × (s ≡ stream)
    × (length c.delays ≡ 2)
stream_request-unauthorized_example =
    stream_request-unauthorized true same piece absent 2 "https" refused_once refused_twice refl
      refl refused_twice_at

abbrev blank : Char → Bool
blank c = str_eq (char c nothing) " "

abbrev lstrip : String → String
lstrip nothing = nothing
lstrip (char c s) = elim (blank c) [ true ↦ lstrip s | false ↦ char c s ]

abbrev host : Host
host = record {
  hexdigest = λ _. "0123456789abcdef0123456789abcdef";
  file = λ _. none;
  strip = lstrip;
  split = λ s. s ∷ [];
  hex = λ _. 19088743;
  is_space = blank;
}

lstrip-starts : (s : String) → starts_blank blank (lstrip s) ≡ false
lstrip-starts nothing = refl
lstrip-starts (char c s) = ground (arith, lstrip-starts s)

first_letter :
    (c : Char) (word rest : String)
    → blank c ≡ false
    → starts_blank blank (joined (char c word) rest) ≡ false
first_letter c word rest h = rw (cons-append c word rest) h

tone_of-starts : (n : ℕ) (rest : String) → starts_blank blank (joined (tone_of n) rest) ≡ false
tone_of-starts zero rest = first_letter "A" "cknowledged" rest refl
tone_of-starts (suc zero) rest = first_letter "U" "nderstood" rest refl
tone_of-starts (suc (suc zero)) rest = first_letter "C" "onfirmed" rest refl
tone_of-starts (suc (suc (suc n))) rest = first_letter "N" "oted" rest refl

host-IsStripping : IsStripping host
host-IsStripping = record { stripped = lstrip-starts; letters = tone_of-starts }

-- JSON that has the whole line under "response".
abbrev registry : Registry
registry = record {
  host = host;
  getenv = λ _. none;
  retries = pos 2;
  scheme = λ _. "http";
  rstrip = same;
  loads = λ line. some (obj (field "response" (text line) end));
  to_str = λ _. "";
  count = λ _. none;
  is_zero = λ _. false;
  post = λ _ _. failed url;
  stream = λ _. replies;
}

abbrev hello : ProviderResult
hello = record {
  text = "hello";
  provider = "ollama";
  model = "llama3.2";
  input_tokens = none;
  output_tokens = none;
  finish_reason = none;
}

generate_detailed-join_example :
    join (generate_detailed registry "ollama" "" "prompt" "" true none).1 ≡ "hello"
unfolding generate_detailed generate_by call_provider call_of provider_of stream_request stream_from
    read_lines read_line
generate_detailed-join_example =
    generate_detailed-join registry host-IsStripping "ollama" "" "prompt" "" none hello refl

abbrev call : Call
call = record { run_id = 1; index = 0; trial = 0 }

apply_llm-join_example :
    let chunks = (generated registry (request_of env no_config (text "input") none)).1 in
    let (result, s') = apply_llm (over (λ _. registry) env) call 1 no_config (text "input") db in
    (s' ≡ record db { events = with_chunks 1 (length chunks) db.events })
    × ((out : Value × Option Usage) → result ≡ ok out → out.0 ≡ text (join chunks))
apply_llm-join_example =
    apply_llm-join (λ _. registry) env call 1 no_config (text "input") db host-IsStripping refl
