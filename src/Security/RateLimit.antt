-- ===== src/Security/RateLimit.antt =====
-- The request rate limit of `security_boundary` in src/agentops/main.py: a deque of the times of
-- the requests that were let through, one for each actor. A time is a number of ticks, and
-- `window` is the number of ticks in 60 seconds.
use agentops_control_plane.Base.{
  ℕ, ◌+◌, ◌≤◌, Bool, true, false, ◌≡◌, refl, List, [], ◌∷◌, ◌++◌, length, tally, tally-append, ltb,
  leb, if◌then◌else◌, arith, ◌∙◌, sym, inl, inr, Bool-cases,
}

abbrev pub max_requests : ℕ
max_requests = 240

module _ (window : ℕ) where
  -- while bucket and bucket[0] < timestamp - 60: bucket.popleft()
  unfoldable pub evict : ℕ → List ℕ → List ℕ
  evict timestamp [] = []
  evict timestamp (first ∷ bucket) =
      let rest = evict timestamp bucket in
      if ltb (first + window) timestamp then rest else first ∷ bucket

  -- The decision on a request, and the actor's bucket after it.
  unfoldable pub admit : ℕ → List ℕ → Bool × List ℕ
  admit timestamp bucket =
      let kept = evict timestamp bucket in
      if leb max_requests (length kept) then (false, kept) else (true, kept ++ timestamp ∷ [])

  -- The decisions on one actor's requests, in their order.
  pub decisions : List ℕ → List ℕ → List Bool
  unfolding admit
  decisions [] bucket = []
  decisions (t ∷ ts) bucket = let (admitted, rest) = admit t bucket in admitted ∷ decisions ts rest

  -- A request made at `x` still counts at `t`.
  abbrev pub counts : ℕ → ℕ → Bool
  counts t x = leb t (x + window)

  -- The specification: every request that was let through is remembered for ever, and one more is
  -- let through if fewer than 240 of them lie in the window.
  abbrev pub sliding_window : List ℕ → List ℕ → List Bool
  sliding_window [] log = []
  sliding_window (t ∷ ts) log =
      let fits = ltb (tally (counts t) log) max_requests in
      fits ∷ sliding_window ts (if fits then t ∷ log else log)

  abbrev pub IsNondecreasing : ℕ → List ℕ → Type 0
  IsNondecreasing last [] = Unit {0}
  IsNondecreasing last (t ∷ ts) = (last ≤ t) × IsNondecreasing t ts

  -- A bucket in order, between two times.
  abbrev IsOrdered : ℕ → ℕ → List ℕ → Type 0
  IsOrdered lo hi [] = lo ≤ hi
  IsOrdered lo hi (x ∷ xs) = (lo ≤ x) × IsOrdered x hi xs

  IsOrdered-weaken :
      (lo lo' hi : ℕ) (xs : List ℕ) → lo ≤ lo' → IsOrdered lo' hi xs → IsOrdered lo hi xs
  IsOrdered-weaken lo lo' hi [] h o = omega arith
  IsOrdered-weaken lo lo' hi (x ∷ xs) h o = (omega arith, o.1)

  late : (lo hi t : ℕ) (xs : List ℕ) → hi ≤ t → IsOrdered lo hi xs → IsOrdered lo t xs
  late lo hi t [] h o = omega arith
  late lo hi t (x ∷ xs) h o = (o.0, late x hi t xs h o.1)

  IsOrdered-snoc :
      (lo hi t : ℕ) (xs : List ℕ) → hi ≤ t → IsOrdered lo hi xs → IsOrdered lo t (xs ++ t ∷ [])
  IsOrdered-snoc lo hi t [] h o = (omega arith, omega arith)
  IsOrdered-snoc lo hi t (x ∷ xs) h o = (o.0, IsOrdered-snoc x hi t xs h o.1)

  IsOrdered-evict : (lo hi t : ℕ) (xs : List ℕ) → IsOrdered lo hi xs → IsOrdered lo hi (evict t xs)
  unfolding evict
  IsOrdered-evict lo hi t [] o = o
  IsOrdered-evict lo hi t (x ∷ xs) o = elim (Bool-cases (ltb (x + window) t)) [
    | inl e ↦ rw e (IsOrdered-weaken lo x hi (evict t xs) o.0 (IsOrdered-evict x hi t xs o.1))
    | inr e ↦ rw e o
  ]

  -- What is evicted at `t` counts no more, then or later.
  tally-evict :
      (t t' : ℕ) (xs : List ℕ) → t ≤ t' → tally (counts t') (evict t xs) ≡ tally (counts t') xs
  unfolding evict
  tally-evict t t' [] h = refl
  tally-evict t t' (x ∷ xs) h = ground (arith, tally-evict t t' xs h)

  tally-IsOrdered :
      (t x hi : ℕ) (xs : List ℕ)
      → t ≤ x + window
      → IsOrdered x hi xs
      → tally (counts t) xs ≡ length xs
  tally-IsOrdered t x hi [] h o = refl
  tally-IsOrdered t x hi (y ∷ ys) h o = ground (arith, tally-IsOrdered t y hi ys (omega arith) o.1)

  -- Everything that `evict` keeps counts.
  tally-evict_self :
      (t lo hi : ℕ) (xs : List ℕ)
      → IsOrdered lo hi xs
      → tally (counts t) (evict t xs) ≡ length (evict t xs)
  unfolding evict
  tally-evict_self t lo hi [] o = refl
  tally-evict_self t lo hi (x ∷ xs) o = elim (Bool-cases (ltb (x + window) t)) [
    | inl e ↦ rw e (tally-evict_self t x hi xs o.1)
    | inr e ↦ rw e (tally-IsOrdered t x hi (x ∷ xs) (ground arith) (omega arith, o.1))
  ]

  -- The log and the bucket count the same from `hi` on.
  abbrev Agrees : ℕ → List ℕ → List ℕ → Type 0
  Agrees hi log bucket = (t : ℕ) → hi ≤ t → tally (counts t) log ≡ tally (counts t) bucket

  kept-Agrees :
      (hi t : ℕ) (log bucket : List ℕ)
      → hi ≤ t
      → Agrees hi log bucket
      → Agrees t log (evict t bucket)
  kept-Agrees hi t log bucket h a t' h' = a t' (omega arith) ∙ sym (tally-evict t t' bucket h')

  admitted-Agrees :
      (hi t : ℕ) (log bucket : List ℕ)
      → hi ≤ t
      → Agrees hi log bucket
      → Agrees t (t ∷ log) (evict t bucket ++ t ∷ [])
  admitted-Agrees hi t log bucket h a t' h' =
      rw tally-append (omega (arith, kept-Agrees hi t log bucket h a t' h'))

  decisions_from :
      (lo hi : ℕ) (ts log bucket : List ℕ)
      → IsOrdered lo hi bucket
      → Agrees hi log bucket
      → IsNondecreasing hi ts
      → decisions ts bucket ≡ sliding_window ts log
  unfolding decisions admit
  decisions_from lo hi [] log bucket o a s = refl
  decisions_from lo hi (t ∷ ts) log bucket o a s =
      let size : tally (counts t) log ≡ length (evict t bucket) =
        a t s.0 ∙ sym (tally-evict t t bucket (omega arith)) ∙ tally-evict_self t lo hi bucket o in
      elim (Bool-cases (leb max_requests (length (evict t bucket)))) [
        | inl full ↦ ground (
          arith,
          decisions_from lo t ts log (evict t bucket)
              (late lo hi t _ s.0 (IsOrdered-evict lo hi t bucket o))
              (kept-Agrees hi t log bucket s.0 a) s.1,
        )
        | inr room ↦ ground (
          arith,
          decisions_from lo t ts (t ∷ log) (evict t bucket ++ t ∷ [])
              (IsOrdered-snoc lo hi t _ s.0 (IsOrdered-evict lo hi t bucket o))
              (admitted-Agrees hi t log bucket s.0 a) s.1,
        )
      ]

  -- For requests in the order of time, the deque of one actor decides as the specification does:
  -- a request is let through exactly if fewer than 240 of those let through lie within the window
  -- before it.
  pub decisions-eq-sliding_window :
      (ts : List ℕ) → IsNondecreasing 0 ts → decisions ts [] ≡ sliding_window ts []
  decisions-eq-sliding_window ts s = decisions_from 0 0 ts [] [] (omega arith) (λ t h. refl) s
