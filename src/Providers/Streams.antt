-- ===== src/Providers/Streams.antt =====
-- Calls of `_stream_request`: what their consumers receive, the text returned, and refusals.
use agentops_control_plane.Base.{
  ℕ, zero, suc, ◌≤◌, ◌<◌, Bool, true, false, ◌≡◌, refl, sym, ◌∙◌, ap, List, [], ◌∷◌, ◌++◌, String,
  arith, length, Bool-cases, inl, inr, ◌⊎◌, if◌then◌else◌, ◌+◌, str_eq,
}
use agentops_control_plane.Store.Rows.{pos}
use agentops_control_plane.Providers.Transport.{
  Attempt, failed, Failure, http, RetryAfter, returned, Called, Read, silent, stop, broken, piece,
  unreadable_event, ReadEnd, complete, bad_json, lost, died, ended, provider_error, Stream,
  Response, publish, join, nonempty, read_line, after_read, read_lines, read, last_end, round_end,
  slept, backoff_delay, stream_from, stream_request, request, request_from, retryable,
  allowed_scheme,
}

-- A stream before its first piece.
abbrev pub start : Stream
start = record { chunks = []; published = [] }

-- What was handed to the consumer is what the code has kept.
abbrev pub InStep : Stream → Type 0
InStep s = s.published ≡ s.chunks

nonempty-nil : (xs : List String) → nonempty xs ≡ false → xs ≡ []
nonempty-nil [] h = refl
nonempty-nil (x ∷ xs) h = grind arith

published-InStep :
    (blank : Bool) (chunk : String) (s : Stream)
    → InStep s
    → InStep (if blank then s else publish chunk s)
published-InStep true chunk s h = h
published-InStep false chunk s h = ap (λ xs. xs ++ chunk ∷ []) h

-- A stream that is in step and has kept nothing is at its start.
start-of : (s : Stream) → InStep s → nonempty s.chunks ≡ false → s ≡ start
start-of s h e = ground (arith, nonempty-nil s.chunks e)

module _ (sse : Bool) (strip : String → String) (event : String → Read) where
  after_read-InStep :
      (rest : Stream → ReadEnd × Stream) (s : Stream) (r : Read)
      → ((s' : Stream) → InStep s' → InStep (rest s').1)
      → InStep s
      → InStep (after_read sse strip event rest s r).1
  after_read-InStep rest s silent keep h = keep s h
  after_read-InStep rest s stop keep h = h
  after_read-InStep rest s broken keep h = h
  after_read-InStep rest s (unreadable_event e) keep h = h
  after_read-InStep rest s (piece chunk) keep h =
      keep (if str_eq chunk "" then s else publish chunk s)
        (published-InStep (str_eq chunk "") chunk s h)

  read_lines-InStep :
      (lines : List String) (ends : Attempt (Unit {0})) (s : Stream)
      → InStep s
      → InStep (read_lines sse strip event lines ends s).1
  unfolding read_lines
  read_lines-InStep [] ends s h = h
  read_lines-InStep (line ∷ lines) ends s h =
      after_read-InStep (read_lines sse strip event lines ends) s (read_line sse strip event line)
        (read_lines-InStep lines ends) h

  module _ (network : ℕ → Response) where
    -- The pieces of the response to one attempt.
    abbrev pub pieces : ℕ → List String
    pieces trial = (read sse strip event network trial start).1.published

    read-InStep : (trial : ℕ) → InStep (read sse strip event network trial start).1
    read-InStep trial = read_lines-InStep (network trial).lines (network trial).ends start refl

    -- What is returned is what was published.
    abbrev pub Honest : Called String × Stream → Type 0
    Honest (c, s) = (text : String) → c.outcome ≡ returned text → text ≡ join s.published

    last_end-Honest :
        (e : ReadEnd) (s : Stream)
        → InStep s
        → ((last_end sse strip event network (e, s)).1 ≡ s)
          × Honest (last_end sse strip event network (e, s))
    last_end-Honest complete s h = (refl, λ text r. ground arith)
    last_end-Honest bad_json s h = (refl, λ text r. grind arith)
    last_end-Honest (died x) s h = (refl, λ text r. grind arith)
    last_end-Honest (lost f) s h = (ground arith, λ text r. grind arith)

    -- A round that is not the last either goes on from the start, or ends as a last round does.
    round_end-cases :
        (trial : ℕ) (again : Stream → Called String × Stream) (e : ReadEnd) (s : Stream)
        → InStep s
        → ((f : Failure) × (s ≡ start)
            × (round_end sse strip event network trial again (e, s)
                ≡ (slept (backoff_delay f trial) (again start).0, (again start).1)))
          ⊎ (round_end sse strip event network trial again (e, s)
              ≡ last_end sse strip event network (e, s))
    round_end-cases trial again complete s h = inr refl
    round_end-cases trial again bad_json s h = inr refl
    round_end-cases trial again (died x) s h = inr refl
    round_end-cases trial again (lost f) s h = elim (Bool-cases (nonempty s.chunks)) [
      | inl kept ↦ inr (rw kept refl)
      | inr none ↦ inl (f, start-of s h none, rw (start-of s h none) refl)
    ]

    -- The call that the round `trial` starts behind rounds without a piece.
    abbrev pub Delivers : ℕ → ℕ → ℕ → Type 0
    Delivers trial left k =
        let result = stream_from sse strip event network left trial start in
        (k ≤ left)
        × ((j : ℕ) → j < k → pieces (trial + j) ≡ [])
        × (result.1.published ≡ pieces (trial + k))
        × Honest result

    here : (trial : ℕ) → pieces (trial + 0) ≡ pieces trial
    here trial = ap pieces (omega arith)

    there : (trial k : ℕ) → pieces (trial + suc k) ≡ pieces (suc trial + k)
    there trial k = ap pieces (omega arith)

    empty_before :
        (trial k : ℕ)
        → pieces trial ≡ []
        → ((j : ℕ) → j < k → pieces (suc trial + j) ≡ [])
        → (j : ℕ) → j < suc k
        → pieces (trial + j) ≡ []
    empty_before trial k first later zero lt = here trial ∙ first
    empty_before trial k first later (suc j) lt = there trial j ∙ later j (omega arith)

    Delivers-last :
        (left trial : ℕ)
        → stream_from sse strip event network left trial start
          ≡ last_end sse strip event network (read sse strip event network trial start)
        → Delivers trial left 0
    Delivers-last left trial e =
        let (r, s) = read sse strip event network trial start in
        let (same, honest) = last_end-Honest r s (read-InStep trial) in
        (
          omega arith,
          (λ j lt. elim lt [ ]),
          rw e (ap (λ x. x.published) same ∙ sym (here trial)),
          rw e honest,
        )

    stream_from-Delivers : (left trial : ℕ) → (k : ℕ) × Delivers trial left k
    unfolding stream_from
    stream_from-Delivers zero trial = (0, Delivers-last zero trial refl)
    stream_from-Delivers (suc left) trial =
        let (r, s) = read sse strip event network trial start in
        elim (round_end-cases trial (stream_from sse strip event network left (suc trial)) r s
          (read-InStep trial)) [
            | inr e ↦ (0, Delivers-last (suc left) trial e)
            | inl (f, empty, e) ↦
                let (k, (le, before, published, honest)) = stream_from-Delivers left (suc trial) in
                (
                  suc k,
                  (
                    omega (arith, le),
                    empty_before trial k (ap (λ x. x.published) empty) before,
                    rw e (published ∙ sym (there trial k)),
                    rw e honest,
                  ),
                )
          ]

-- The bound on the retries of a stream, and its outcomes: there is one attempt among the n + 1 such
-- that the consumer gets the pieces of its response and nothing else, no attempt before it has a
-- piece, and where a text is returned it is these pieces, joined.
pub stream_request-Delivers :
    (sse : Bool) (strip : String → String) (event : String → Read) (network : ℕ → Response) (n : ℕ)
    (scheme : String)
    → allowed_scheme scheme ≡ true
    → let (c, s) = stream_request sse strip event network (pos n) scheme in
      (k : ℕ) × (k ≤ n)
      × ((j : ℕ) → j < k → pieces sse strip event network j ≡ [])
      × (s.published ≡ pieces sse strip event network k)
      × ((text : String) → c.outcome ≡ returned text → text ≡ join s.published)
unfolding stream_request
stream_request-Delivers sse strip event network n scheme allowed =
    let (k, (le, before, published, honest)) = stream_from-Delivers sse strip event network n 0 in
    let same = λ (j : ℕ). ap (pieces sse strip event network) {x = 0 + j} {y = j} (omega arith) in
    rw allowed (k, le, (λ j lt. sym (same j) ∙ before j lt), published ∙ same k, honest)

abbrev pub refused : {A : Type 0} → RetryAfter → Attempt A
refused header = failed (http 401 header)

abbrev pub refused_response : RetryAfter → Response
refused_response header = record { lines = []; ends = refused header }

module _ (sse : Bool) (strip : String → String) (event : String → Read) (header : RetryAfter)
    (network : ℕ → Response) where
  -- How the stream would end with one response only.
  abbrev pub single_end : ℕ → Called String × Stream
  single_end trial = last_end sse strip event network (read sse strip event network trial start)

  last_end-delays :
      (e : ReadEnd) (s : Stream) → (last_end sse strip event network (e, s)).0.delays ≡ []
  last_end-delays complete s = refl
  last_end-delays bad_json s = refl
  last_end-delays (died x) s = refl
  last_end-delays (lost f) s = ground arith

  EndsAfter : ℕ → ℕ → Called String × Stream → Type 0
  EndsAfter n trial (c, s) =
      (c.outcome ≡ (single_end trial).0.outcome)
      × (s ≡ (single_end trial).1)
      × (length c.delays ≡ n)

  stream_from-refused :
      (n trial : ℕ)
      → ((j : ℕ) → j < n → network (trial + j) ≡ refused_response header)
      → EndsAfter n (trial + n) (stream_from sse strip event network n trial start)
  unfolding stream_from read_lines EndsAfter
  stream_from-refused zero trial h =
      let same : trial + 0 ≡ trial = omega arith in
      let (e, s) = read sse strip event network trial start in
      rw same (refl, refl, ap length (last_end-delays e s))
  stream_from-refused (suc n) trial h =
      let first : network trial ≡ refused_response header =
        sym (ap network {x = trial + 0} {y = trial} (omega arith)) ∙ h 0 (omega arith) in
      let same : trial + suc n ≡ suc trial + n = omega arith in
      let (outcome, stream, delays) = stream_from-refused n (suc trial) (λ j lt.
        let shift : suc trial + j ≡ trial + suc j = omega arith in
        rw shift (h (suc j) (omega arith))) in
      rw (same, first) (outcome, stream, ap suc delays)

request_from-refused :
    {A : Type 0} (header : RetryAfter) (calls : ℕ → Attempt A) (n : ℕ)
    → calls 0 ≡ refused header
    → request_from calls n 0 ≡ ended (provider_error "provider request failed")
unfolding request_from retryable
request_from-refused header calls zero first = rw (request_from, first) refl
request_from-refused header calls (suc n) first = rw (request_from, first) refl

-- A server that refuses a call with 401. Without a stream the first refusal ends the call with an
-- error, whatever the server would answer after it, and nothing is slept. With a stream, where the
-- first `n` of at most n + 1 attempts are refused so, there is a delay after each, and the stream ends
-- as the response to the last attempt makes it end.
pub stream_request-unauthorized :
    {A : Type 0} (sse : Bool) (strip : String → String) (event : String → Read)
    (header : RetryAfter) (n : ℕ) (scheme : String) (calls : ℕ → Attempt A) (network : ℕ → Response)
    → allowed_scheme scheme ≡ true
    → calls 0 ≡ refused header
    → ((j : ℕ) → j < n → network j ≡ refused_response header)
    → let (c, s) = stream_request sse strip event network (pos n) scheme in
      let (last, stream) = single_end sse strip event header network n in
      (request calls (pos n) scheme ≡ ended (provider_error "provider request failed"))
      × (c.outcome ≡ last.outcome)
      × (s ≡ stream)
      × (length c.delays ≡ n)
unfolding request request_from retryable stream_request EndsAfter
stream_request-unauthorized sse strip event header n scheme calls network allowed first refusals =
    let h =
      stream_from-refused sse strip event header network n 0
        (λ j lt. let same : 0 + j ≡ j = omega arith in rw same (refusals j lt)) in
    let same : 0 + n ≡ n = omega arith in
    let (outcome, stream, delays) : EndsAfter sse strip event header network n n
        (stream_from sse strip event network n 0 start) =
      rw same at h in
    rw allowed (request_from-refused header calls n first, outcome, stream, delays)
