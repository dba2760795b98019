-- ===== src/Providers/Mock/Chunks.antt =====
-- The chunks that the mock provider streams, put together again.
use agentops_control_plane.Base.{
  ◌⊎◌, Option-cases, ℕ, ◌%◌, String, Bool, true, false, ◌≡◌, refl, ◌∙◌, ap, List, [], ◌∷◌, inl, inr,
  arith,
}
use Prim.Native.Char.{Char}
use Prim.Native.String.{◌++◌ as joined, [] as nothing, ◌∷◌ as char, slice}
use text.Mathlib.TextLemmas.{append_assoc, append-nil, cons-append, nil-append}
use agentops_control_plane.Providers.Transport.{Outcome, returned, provider_error, crashed, join}
use agentops_control_plane.Providers.Mock.{
  Host, ProviderResult, or_chunk, match_from, findall, starts_blank, tone_of, synthetic,
  mock_fingerprint, mock_answer, generate_mock,
}

module _ (is_space : Char → Bool) where
  snoc-append :
      (chunk : String) (c : Char) (s : String)
      → joined (joined chunk (char c nothing)) s ≡ joined chunk (char c s)
  snoc-append chunk c s =
      append_assoc chunk (char c nothing) s
      ∙ ap (joined chunk) (cons-append c nothing s ∙ ap (char c) (nil-append s))

  word-append : (c : Char) (s : String) → joined (char c nothing) s ≡ char c s
  word-append c s = cons-append c nothing s ∙ ap (char c) (nil-append s)

  match_from-join :
      (in_blanks : Bool) (chunk text : String)
      → join (match_from is_space in_blanks chunk text) ≡ joined chunk text
  unfolding match_from
  match_from-join in_blanks chunk nothing = refl
  match_from-join true chunk (char c s) = ground (
    arith,
    match_from-join true (joined chunk (char c nothing)) s,
    match_from-join false (char c nothing) s,
    snoc-append chunk c s,
    word-append c s,
  )
  match_from-join false chunk (char c s) = ground (
    arith,
    match_from-join true (joined chunk (char c nothing)) s,
    match_from-join false (joined chunk (char c nothing)) s,
    snoc-append chunk c s,
  )

  join-or_chunk :
      (chunks : List String) (text : String)
      → join chunks ≡ text
      → join (or_chunk chunks text) ≡ text
  join-or_chunk [] text h = append-nil text
  join-or_chunk (c ∷ cs) text h = h

  -- A text that does not start with a blank is put together again from its chunks.
  pub findall-join :
      (text : String)
      → starts_blank is_space text ≡ false
      → join (or_chunk (findall is_space text) text) ≡ text
  unfolding findall
  findall-join nothing h = refl
  findall-join (char c s) h =
      join-or_chunk (findall is_space (char c s)) (char c s)
        (ground (arith, match_from-join false (char c nothing) s, word-append c s))

Outcome-cases :
    {A : Type 0} (o : Outcome A)
    → ((a : A) × (o ≡ returned a))
      ⊎ (((e : String) × (o ≡ provider_error e)) ⊎ ((e : String) × (o ≡ crashed e)))
Outcome-cases (returned a) = inl (a, refl)
Outcome-cases (provider_error e) = inr (inl (e, refl))
Outcome-cases (crashed e) = inr (inr (e, refl))

module _ (host : Host) where
  -- What is documented of `strip`, and what `\s` does not match.
  pub record IsStripping : Type 0 where
    pub stripped : (s : String) → starts_blank host.is_space (host.strip s) ≡ false
    pub letters :
        (n : ℕ) (rest : String) → starts_blank host.is_space (joined (tone_of n) rest) ≡ false

  synthetic-starts :
      IsStripping
      → (fingerprint prompt : String)
      → starts_blank host.is_space (synthetic host fingerprint prompt) ≡ false
  unfolding synthetic
  synthetic-starts h fingerprint prompt = h.letters (host.hex (slice fingerprint 0 8) % 4) _

  mock_answer-starts :
      IsStripping
      → (model system prompt text : String) → mock_answer host model system prompt ≡ returned text
      → starts_blank host.is_space text ≡ false
  unfolding mock_answer
  mock_answer-starts h model system prompt text e =
      let fingerprint = mock_fingerprint host model system prompt in
      let name = slice fingerprint 0 16 in
      elim (Option-cases (host.file (joined name ".txt"))) [
        | inl absent ↦ ground (arith, synthetic-starts h fingerprint prompt)
        | inr (pinned, found) ↦ ground (arith, h.stripped pinned)
      ]

  -- The mock answers a call alike with a stream and without one, and the chunks that it streams,
  -- joined, are the text that it returns.
  pub generate_mock-join :
      IsStripping
      → (model prompt system : String) (r : ProviderResult)
      → (generate_mock host model prompt system true).0 ≡ returned r
      → ((generate_mock host model prompt system false).0 ≡ returned r)
        × (join (generate_mock host model prompt system true).1 ≡ r.text)
  unfolding generate_mock
  generate_mock-join h model prompt system r e =
      elim (Outcome-cases (mock_answer host model system prompt)) [
        | inl (text, answer) ↦ ground (
          arith,
          findall-join host.is_space text (mock_answer-starts h model system prompt text answer),
        )
        | inr failing ↦ ground arith
      ]
