-- ===== src/Providers/Transport.antt =====
-- `_backoff_delay`, `_retryable`, `_request` and `_stream_request` of src/agentops/providers.py. The
-- network is a parameter: what each attempt at a call comes to. A delay is a number of seconds.
use agentops_control_plane.Base.{
  ℕ, zero, suc, ◌^◌, min, String, Bool, true, false, ◌&&◌, ◌||◌, List, [], ◌∷◌, ◌++◌, ◌==◌, leb,
  ltb, str_eq, if◌then◌else◌, drop_prefix,
}
use Prim.Native.String.{◌++◌ as joined}
use text.Mathlib.Text.{starts_with}
use agentops_control_plane.Store.Rows.{ℤ, pos, negsuc}
use agentops_control_plane.Runs.Tools.{clamp}

-- The Retry-After header, as `int` reads it.
pub data RetryAfter : Type 0 where
  absent unreadable : RetryAfter
  seconds : ℤ → RetryAfter

-- The exceptions that the loops catch: HTTPError, another URLError, TimeoutError, JSONDecodeError.
pub data Failure : Type 0 where
  http : ℕ → RetryAfter → Failure
  url timeout malformed : Failure

abbrev pub exponential : ℕ → ℕ
exponential trial = min (2 ^ trial) 8

unfoldable pub backoff_delay : Failure → ℕ → ℕ
backoff_delay (http code (seconds n)) trial = clamp 30 n
backoff_delay _ trial = exponential trial

unfoldable pub retryable : Failure → Bool
retryable (http code header) = code == 408 || code == 429 || (leb 500 code && ltb code 600)
retryable url = true
retryable timeout = true
retryable malformed = false

-- What one attempt at a call comes to; `raised` is an exception that no clause catches.
pub data Attempt (A : Type 0) : Type 0 where
  answered : A → Attempt A
  failed : Failure → Attempt A
  raised : String → Attempt A

-- How a call ends: it returns, it raises ProviderError, or another exception goes through.
pub data Outcome (A : Type 0) : Type 0 where
  returned : A → Outcome A
  provider_error crashed : String → Outcome A

-- The end of a call, with the delays that were slept between the attempts.
pub record Called (A : Type 0) : Type 0 where
  pub outcome : Outcome A
  pub delays : List ℕ

abbrev pub slept : {A : Type 0} → ℕ → Called A → Called A
slept delay c = record c { delays = delay ∷ c.delays }

abbrev pub ended : {A : Type 0} → Outcome A → Called A
ended o = record { outcome = o; delays = [] }

abbrev pub allowed_scheme : String → Bool
allowed_scheme scheme = str_eq scheme "http" || str_eq scheme "https"

module _ {A : Type 0} (network : ℕ → Attempt A) where
  -- The attempts from `trial` on, `left` of them behind this one.
  unfoldable pub request_from : ℕ → ℕ → Called A
  request_from zero trial = elim (network trial) [
    | answered a ↦ ended (returned a)
    | failed f ↦ ended (provider_error "provider request failed")
    | raised e ↦ ended (crashed e)
  ]
  request_from (suc left) trial = elim (network trial) [
    | answered a ↦ ended (returned a)
    | failed f ↦
        if retryable f
        then slept (backoff_delay f trial) (request_from left (suc trial))
        else ended (provider_error "provider request failed")
    | raised e ↦ ended (crashed e)
  ]

  -- `_request`; with a negative number of retries the loop has no round.
  unfoldable pub request : ℤ → String → Called A
  unfolding request_from
  request retries scheme =
      if allowed_scheme scheme
      then elim retries [
        | pos n ↦ request_from n 0
        | negsuc n ↦ ended (provider_error "provider request failed")
      ]
      else ended (provider_error "provider endpoint must use HTTP or HTTPS")

-- The lines of a response, stripped, and how the response ends: by itself, or by an exception.
pub record Response : Type 0 where
  pub lines : List String
  pub ends : Attempt (Unit {0})

-- What a line comes to: no text, a piece of text, malformed JSON, or an exception of `extract`.
pub data Read : Type 0 where
  silent stop broken : Read
  piece : String → Read
  unreadable_event : String → Read

-- How the reading of a response ends.
pub data ReadEnd : Type 0 where
  complete bad_json : ReadEnd
  lost : Failure → ReadEnd
  died : String → ReadEnd

-- `"".join`
abbrev pub join : List String → String
join [] = ""
join (s ∷ ss) = joined s (join ss)

abbrev pub nonempty {ℓ} : {A : Type ℓ} → List A → Bool
nonempty [] = false
nonempty (x ∷ xs) = true

-- A stream call in flight: the list `chunks` of the code, and what `on_chunk` was given.
pub record Stream : Type 0 where
  pub chunks : List String
  pub published : List String

abbrev pub publish : String → Stream → Stream
publish chunk s = record { chunks = s.chunks ++ chunk ∷ []; published = s.published ++ chunk ∷ [] }

abbrev pub end_of : Attempt (Unit {0}) → ReadEnd
end_of (answered _) = complete
end_of (failed f) = lost f
end_of (raised e) = died e

module _ (sse : Bool) (strip : String → String) (event : String → Read) where
  -- A line within a server-sent event, or a bare line; `event` decodes the JSON and extracts.
  abbrev pub payload : String → Read
  payload line = if str_eq line "" then silent else event line

  abbrev pub data_line : String → Read
  data_line line = if str_eq line "[DONE]" then stop else payload line

  unfoldable pub read_line : String → Read
  read_line line =
      if sse
      then (if starts_with line "data:"
          then data_line (strip (drop_prefix "data:" line))
          else silent)
      else payload line

  -- What follows a line; `rest` is the loop over the lines behind it.
  abbrev pub after_read : (Stream → ReadEnd × Stream) → Stream → Read → ReadEnd × Stream
  after_read rest s silent = rest s
  after_read rest s stop = (complete, s)
  after_read rest s broken = (bad_json, s)
  after_read rest s (piece chunk) = rest (if str_eq chunk "" then s else publish chunk s)
  after_read rest s (unreadable_event e) = (died e, s)

  -- The loop over the lines.
  unfoldable pub read_lines : List String → Attempt (Unit {0}) → Stream → ReadEnd × Stream
  unfolding read_line
  read_lines [] ends s = (end_of ends, s)
  read_lines (line ∷ lines) ends s = after_read (read_lines lines ends) s (read_line line)

  module _ (network : ℕ → Response) where
    abbrev pub read : ℕ → Stream → ReadEnd × Stream
    read trial s = let r = network trial in read_lines r.lines r.ends s

    -- What follows the reading of a response in the last round.
    abbrev pub last_end : ReadEnd × Stream → Called String × Stream
    last_end (complete, s) = (ended (returned (join s.chunks)), s)
    last_end (bad_json, s) = (ended (provider_error "provider stream returned malformed JSON"), s)
    last_end (died e, s) = (ended (crashed e), s)
    last_end (lost f, s) =
        if nonempty s.chunks
        then (ended (provider_error "provider stream failed after partial output"), s)
        else (ended (provider_error "provider stream failed"), s)

    -- The same in a round that is not the last; `again` is the next round.
    abbrev pub round_end :
        ℕ → (Stream → Called String × Stream) → ReadEnd × Stream → Called String × Stream
    round_end trial again (lost f, s) =
        if nonempty s.chunks
        then (ended (provider_error "provider stream failed after partial output"), s)
        else let (c, s') = again s in (slept (backoff_delay f trial) c, s')
    round_end trial again e = last_end e

    unfoldable pub stream_from : ℕ → ℕ → Stream → Called String × Stream
    unfolding read_lines
    stream_from zero trial s = last_end (read trial s)
    stream_from (suc left) trial s = round_end trial (stream_from left (suc trial)) (read trial s)

    -- `_stream_request`; without a round it returns the empty text.
    unfoldable pub stream_request : ℤ → String → Called String × Stream
    unfolding stream_from
    stream_request retries scheme =
        let start : Stream = record { chunks = []; published = [] } in
        if allowed_scheme scheme
        then elim retries [
          | pos n ↦ stream_from n 0 start
          | negsuc n ↦ (ended (returned ""), start)
        ]
        else (ended (provider_error "provider endpoint must use HTTP or HTTPS"), start)
