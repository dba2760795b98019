-- ===== src/Providers/Retries.antt =====
-- The attempts of `_request`: which one decides the call, and how long is slept before it.
use agentops_control_plane.Base.{
  ℕ, zero, suc, ◌+◌, ◌*◌, ◌≤◌, ◌<◌, Bool, true, false, ◌≡◌, ◌⊎◌, inl, inr, refl, List, [], ◌∷◌,
  String, ap, ◌∙◌, arith, Bool-cases, total,
}
use agentops_control_plane.Base.Sorting.{self}
use agentops_control_plane.Store.Rows.{pos, negsuc}
use agentops_control_plane.Providers.Transport.{
  Attempt, answered, failed, raised, Outcome, returned, provider_error, crashed, retryable,
  backoff_delay, Failure, http, url, timeout, malformed, absent, unreadable, seconds, request_from,
  request, allowed_scheme,
}

abbrev pub is_retried : {A : Type 0} → Attempt A → Bool
is_retried (failed f) = retryable f
is_retried _ = false

-- How a call ends that an attempt decides.
abbrev pub final : {A : Type 0} → Attempt A → Outcome A
final (answered a) = returned a
final (failed f) = provider_error "provider request failed"
final (raised e) = crashed e

abbrev pub delay_of : {A : Type 0} → Attempt A → ℕ → ℕ
delay_of (failed f) trial = backoff_delay f trial
delay_of _ trial = 0

pub backoff_delay-le : (f : Failure) (trial : ℕ) → backoff_delay f trial ≤ 30
unfolding backoff_delay
backoff_delay-le (http code absent) trial = omega arith
backoff_delay-le (http code unreadable) trial = omega arith
backoff_delay-le (http code (seconds (pos n))) trial = omega arith
backoff_delay-le (http code (seconds (negsuc n))) trial = omega arith
backoff_delay-le url trial = omega arith
backoff_delay-le timeout trial = omega arith
backoff_delay-le malformed trial = omega arith

delay_of-le : {A : Type 0} (a : Attempt A) (trial : ℕ) → delay_of a trial ≤ 30
delay_of-le (answered a) trial = omega arith
delay_of-le (failed f) trial = backoff_delay-le f trial
delay_of-le (raised e) trial = omega arith

module _ {A : Type 0} (network : ℕ → Attempt A) where
  -- The delays of the attempts from `trial` on.
  abbrev pub waits : ℕ → ℕ → List ℕ
  waits trial zero = []
  waits trial (suc n) = delay_of (network trial) trial ∷ waits (suc trial) n

  abbrev pub Decides : ℕ → ℕ → ℕ → Type 0
  Decides trial left k =
      (k ≤ left)
      × ((j : ℕ) → j < k → is_retried (network (trial + j)) ≡ true)
      × ((k ≡ left) ⊎ (is_retried (network (trial + k)) ≡ false))
      × ((request_from network left trial).outcome ≡ final (network (trial + k)))
      × ((request_from network left trial).delays ≡ waits trial k)

  request_from-final :
      (left trial : ℕ)
      → (left ≡ 0) ⊎ (is_retried (network trial) ≡ false)
      → ((request_from network left trial).outcome ≡ final (network trial))
        × ((request_from network left trial).delays ≡ [])
  unfolding request_from
  request_from-final zero trial h = ground arith
  request_from-final (suc left) trial h = ground arith

  request_from-again :
      (left trial : ℕ)
      → is_retried (network trial) ≡ true
      → ((request_from network (suc left) trial).outcome
          ≡ (request_from network left (suc trial)).outcome)
        × ((request_from network (suc left) trial).delays
            ≡ delay_of (network trial) trial ∷ (request_from network left (suc trial)).delays)
  unfolding request_from
  request_from-again left trial h = ground arith

  Decides-final :
      (left trial : ℕ) → (left ≡ 0) ⊎ (is_retried (network trial) ≡ false) → Decides trial left 0
  Decides-final left trial h =
      let here : network (trial + 0) ≡ network trial = ap network (omega arith) in
      let (outcome, delays) = request_from-final left trial h in
      (omega arith, (λ j lt. elim lt [ ]), rw here (ground arith), rw here outcome, delays)

  retried-from :
      (trial k : ℕ)
      → is_retried (network trial) ≡ true
      → ((j : ℕ) → j < k → is_retried (network (suc trial + j)) ≡ true)
      → (j : ℕ) → j < suc k
      → is_retried (network (trial + j)) ≡ true
  retried-from trial k first later zero lt =
      let here : network (trial + 0) ≡ network trial = ap network (omega arith) in rw here first
  retried-from trial k first later (suc j) lt =
      let there : network (trial + suc j) ≡ network (suc trial + j) = ap network (omega arith) in
      rw there (later j (omega arith))

  Decides-again :
      (left trial k : ℕ)
      → is_retried (network trial) ≡ true
      → Decides (suc trial) left k
      → Decides trial (suc left) (suc k)
  Decides-again left trial k again (le, before, over, outcome, delays) =
      let there : network (trial + suc k) ≡ network (suc trial + k) = ap network (omega arith) in
      let (same, slept) = request_from-again left trial again in
      (
        omega arith,
        retried-from trial k again before,
        rw there (ground arith),
        rw there (same ∙ outcome),
        slept ∙ ap (λ ds. delay_of (network trial) trial ∷ ds) delays,
      )

  request_from-Decides : (left trial : ℕ) → (k : ℕ) × Decides trial left k
  request_from-Decides zero trial = (0, Decides-final zero trial (inl refl))
  request_from-Decides (suc left) trial = elim (Bool-cases (is_retried (network trial))) [
    | inr over ↦ (0, Decides-final (suc left) trial (inr over))
    | inl again ↦
        let (k, rest) = request_from-Decides left (suc trial) in
        (suc k, Decides-again left trial k again rest)
  ]

  waits-le : (trial k : ℕ) → total self (waits trial k) ≤ 30 * k
  waits-le trial zero = omega arith
  waits-le trial (suc k) = omega (arith, waits-le (suc trial) k, delay_of-le (network trial) trial)

-- A call over HTTP with `n` retries: the first attempt that is no retryable failure decides it, or
-- the last of the n + 1 attempts. The ones before it are the retryable failures that are slept
-- after, at most 30 seconds for each.
pub request-Decides :
    {A : Type 0} (network : ℕ → Attempt A) (n : ℕ) (scheme : String)
    → allowed_scheme scheme ≡ true
    → (k : ℕ) × (k ≤ n)
      × ((j : ℕ) → j < k → is_retried (network j) ≡ true)
      × ((k ≡ n) ⊎ (is_retried (network k) ≡ false))
      × ((request network (pos n) scheme).outcome ≡ final (network k))
      × ((request network (pos n) scheme).delays ≡ waits network 0 k)
      × (total self (request network (pos n) scheme).delays ≤ 30 * n)
unfolding request
request-Decides network n scheme allowed =
    let (k, (le, before, over, outcome, delays)) = request_from-Decides network n 0 in
    let same = λ (j : ℕ). ap network {x = 0 + j} {y = j} (omega arith) in
    rw allowed (
      k,
      le,
      (λ j lt. rw (← same j) (before j lt)),
      rw (← same k) over,
      rw (← same k) outcome,
      delays,
      rw delays (omega (arith, waits-le network 0 k)),
    )
