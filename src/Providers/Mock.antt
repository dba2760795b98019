-- ===== src/Providers/Mock.antt =====
-- The mock provider of src/agentops/providers.py: `_mock_fingerprint`, `_mock_answer` and
-- `_generate_mock`. SHA-256, the files of the script directory and the methods of `str` are
-- parameters.
pub mod Chunks
use agentops_control_plane.Base.{
  zero, suc, ◌⊎◌, Option-cases, ℕ, ◌%◌, String, Bool, true, false, ◌≡◌, refl, sym, ◌∙◌, ap, List,
  [], ◌∷◌, length, str_eq, if◌then◌else◌, Bool-cases, inl, inr, Option, none, some, arith, ◌==◌,
}
use Prim.Native.Char.{Char}
use Prim.Native.String.{◌++◌ as joined, [] as nothing, ◌∷◌ as char, slice}
use text.Mathlib.TextLemmas.{append_assoc, append-nil, cons-append, nil-append}
use agentops_control_plane.Providers.Transport.{Outcome, returned, provider_error, crashed, join}

-- `hexdigest` is SHA-256 of a text in UTF-8, `file` the text of a file of the script directory,
-- `strip` and `split` the methods of `str`, `hex` is `int` with base 16, and `is_space` says what
-- `\s` matches.
pub record Host : Type 0 where
  pub hexdigest : String → String
  pub file : String → Option String
  pub strip : String → String
  pub split : String → List String
  pub hex : String → ℕ
  pub is_space : Char → Bool

pub record ProviderResult : Type 0 where
  pub text : String
  pub provider : String
  pub model : String
  pub input_tokens : Option ℕ
  pub output_tokens : Option ℕ
  pub finish_reason : Option String

abbrev pub join_with : String → List String → String
join_with sep [] = ""
join_with sep (s ∷ []) = s
join_with sep (s ∷ t ∷ ss) = joined s (joined sep (join_with sep (t ∷ ss)))

abbrev pub first_words : ℕ → List String → List String
first_words zero ws = []
first_words (suc n) [] = []
first_words (suc n) (w ∷ ws) = w ∷ first_words n ws

abbrev pub or_text : String → String → String
or_text text fallback = if str_eq text "" then fallback else text

abbrev pub or_chunk : List String → String → List String
or_chunk [] text = text ∷ []
or_chunk (c ∷ cs) text = c ∷ cs

module _ (is_space : Char → Bool) where
  -- A match of `\S+\s*` so far, and whether it has come to its blanks.
  unfoldable pub match_from : Bool → String → String → List String
  match_from in_blanks chunk nothing = chunk ∷ []
  match_from in_blanks chunk (char c s) = elim (is_space c) [
    | true ↦ match_from true (joined chunk (char c nothing)) s
    | false ↦ elim in_blanks [
      | true ↦ chunk ∷ match_from false (char c nothing) s
      | false ↦ match_from false (joined chunk (char c nothing)) s
    ]
  ]

  -- re.findall(r"\S+\s*", text)
  unfoldable pub findall : String → List String
  unfolding match_from
  findall nothing = []
  findall (char c s) = elim (is_space c) [
    | true ↦ findall s
    | false ↦ match_from false (char c nothing) s
  ]

  abbrev pub starts_blank : String → Bool
  starts_blank nothing = false
  starts_blank (char c s) = is_space c

-- ("Acknowledged", "Understood", "Confirmed", "Noted")[seed % 4]
abbrev pub tone_of : ℕ → String
tone_of zero = "Acknowledged"
tone_of (suc zero) = "Understood"
tone_of (suc (suc zero)) = "Confirmed"
tone_of _ = "Noted"

module _ (host : Host) where
  unfoldable pub mock_fingerprint : String → String → String → String
  mock_fingerprint model system prompt =
      host.hexdigest (join_with "\u{1f}" (model ∷ system ∷ prompt ∷ []))

  -- The text that no script pins.
  unfoldable pub synthetic : String → String → String
  synthetic fingerprint prompt =
      let tone = tone_of (host.hex (slice fingerprint 0 8) % 4) in
      let subject = or_text (join_with " " (first_words 8 (host.split prompt))) "the request" in
      joined tone (
        joined ". Regarding " (
          joined subject (
            joined
              " -- I have reviewed the details and recommend proceeding with the documented resolution path. [mock:"
              (joined (slice fingerprint 0 8) "]"))))

  unfoldable pub mock_answer : String → String → String → Outcome String
  unfolding mock_fingerprint synthetic
  mock_answer model system prompt =
      let fingerprint = mock_fingerprint model system prompt in
      let name = slice fingerprint 0 16 in
      elim (host.file (joined name ".fail")) [
        | some why ↦ provider_error (or_text (host.strip why) "simulated provider outage")
        | none ↦ elim (host.file (joined name ".txt")) [
          | some pinned ↦ returned (host.strip pinned)
          | none ↦ returned (synthetic fingerprint prompt)
        ]
      ]

  abbrev pub counted : String → String → String → String → ProviderResult
  counted model system prompt text = record {
    text = text;
    provider = "mock";
    model = model;
    input_tokens = some (length (host.split (joined system (joined " " prompt))));
    output_tokens = some (length (host.split text));
    finish_reason = some "stop";
  }

  -- `_generate_mock`, and what `on_chunk` is given where there is one.
  unfoldable pub generate_mock :
      String → String → String → Bool → Outcome ProviderResult × List String
  unfolding mock_answer findall
  generate_mock model prompt system streams = elim (mock_answer model system prompt) [
    | returned text ↦ (
      returned (counted model system prompt text),
      if streams then or_chunk (findall host.is_space text) text else [],
    )
    | provider_error why ↦ (provider_error why, [])
    | crashed why ↦ (crashed why, [])
  ]
