-- ===== src/Evaluations/Gate.antt =====
-- The release gate and its latency quantile.
use agentops_control_plane.Base.{
  ℕ, ◌*◌, ◌/◌, ◌≤◌, ◌<◌, ◌≡◌, ◌↔◌, refl, true, false, List, [], ◌∷◌, Option, none, some, length,
  tally, leb, arith, min, ◌-◌, ◌⊎◌, inl, inr, ap, Bool, Bool-cases, Option-cases, leb→le, ltb, ◌++◌,
}
use agentops_control_plane.Base.Sorting.{
  sort_by, at, self, tally-at, tally-below, tally-sort_by, length-sort_by, sort_by-IsSorted,
}
use agentops_control_plane.Evaluations.{
  CaseResult, Thresholds, Reason, pass_rate, p95_latency, costs, reason, passed, passed_count, p95,
  durations, some_given, evaluation_gate, reasons_of, verdict_of,
}

-- At least 95 in 100 of the values are at most the latency quantile of a list that is not empty.
pub p95_lem :
    (values : List ℕ)
    → 0 < length values
    → length values * 95 ≤ tally (λ v. leb v (p95 values)) values * 100
unfolding p95
p95_lem values some_value =
    let i = min (length values - 1) (length values * 95 / 100) in
    let sorted = sort_by self values in
    let low =
      tally-at sorted i (sort_by-IsSorted self values)
        (ground (arith, length-sort_by self values)) in
    ground (arith, low, tally-sort_by self (λ v. leb v (at sorted i)) values)

-- A threshold is met, where it is given.
abbrev pub IsMet : Option ℕ → (ℕ → Type 0) → Type 0
IsMet none P = Unit {0}
IsMet (some bound) P = P bound

-- More than 95 in 100 of the values, rounded down, are at most the bound.
abbrev pub MostWithin : List ℕ → ℕ → Type 0
MostWithin values bound = length values * 95 / 100 < tally (λ v. leb v bound) values

abbrev pub AllMet : (List ℕ → ℕ) → List CaseResult → Thresholds → Type 0
AllMet sum results t =
    IsMet t.pass_rate_min (λ m. m * length results ≤ passed_count results * 1000000)
    × IsMet t.max_cost_usd (λ m. sum (costs results) ≤ m)
    × IsMet t.max_p95_latency_ms (MostWithin (durations results))

tally-weaken : (m n : ℕ) (xs : List ℕ) → m ≤ n → tally (λ v. leb v m) xs ≤ tally (λ v. leb v n) xs
tally-weaken m n [] h = omega arith
tally-weaken m n (x ∷ xs) h = ground (arith, tally-weaken m n xs h)

p95-within :
    (values : List ℕ) (bound : ℕ) → 0 < length values → p95 values ≤ bound → MostWithin values bound
unfolding p95
p95-within values bound some_value h =
    let i = min (length values - 1) (length values * 95 / 100) in
    let sorted = sort_by self values in
    let low =
      tally-at sorted i (sort_by-IsSorted self values)
        (ground (arith, length-sort_by self values)) in
    omega (
      arith,
      low,
      tally-weaken (at sorted i) bound sorted h,
      tally-sort_by self (λ v. leb v bound) values,
    )

within-p95 :
    (values : List ℕ) (bound : ℕ) → 0 < length values → MostWithin values bound → p95 values ≤ bound
unfolding p95
within-p95 values bound some_value most =
    let i = min (length values - 1) (length values * 95 / 100) in
    let sorted = sort_by self values in
    elim (Bool-cases (leb (at sorted i) bound)) [
      | inl low ↦ leb→le (at sorted i) bound low
      | inr high ↦
          let few =
            tally-below bound sorted i (sort_by-IsSorted self values)
              (ground (arith, length-sort_by self values)) (ground arith) in
          absurd (omega (arith, few, most, tally-sort_by self (λ v. leb v bound) values))
    ]

append-nil_parts : {A : Type 0} (xs ys : List A) → xs ++ ys ≡ [] → (xs ≡ []) × (ys ≡ [])
append-nil_parts [] ys h = (refl, h)
append-nil_parts (x ∷ xs) ys h = absurd (ground arith)

module _ {P : ℕ → Type 0} (bound : Option ℕ) (violated : ℕ → Bool) (why : Reason) where
  reason-IsMet :
      ((m : ℕ) → violated m ≡ false → P m) → reason bound violated why ≡ [] → IsMet bound P
  reason-IsMet f e = elim (Option-cases bound) [
    | inl absent ↦ rw absent tt
    | inr (m, given) ↦ elim (Bool-cases (violated m)) [
      | inl bad ↦ absurd (ground arith)
      | inr good ↦ rw given (f m good)
    ]
  ]

  IsMet-reason :
      ((m : ℕ) → P m → violated m ≡ false) → IsMet bound P → reason bound violated why ≡ []
  IsMet-reason f met = elim (Option-cases bound) [
    | inl absent ↦ rw absent refl
    | inr (m, given) ↦ let here : P m = rw given at met in rw (given, f m here) refl
  ]

module _ (sum : List ℕ → ℕ) (r : CaseResult) (rs : List CaseResult) where
  abbrev rows : List CaseResult
  rows = r ∷ rs

  abbrev too_low : ℕ → Bool
  too_low m = ltb (passed_count rows * 1000000) (m * length rows)

  abbrev too_dear : ℕ → Bool
  too_dear m = ltb m (sum (costs rows))

  abbrev too_slow : ℕ → Bool
  too_slow m = ltb m (p95 (durations rows))

  reasons_of-empty : (t : Thresholds) → reasons_of sum rows t ≡ [] → AllMet sum rows t
  unfolding reasons_of
  reasons_of-empty t e =
      let dear = reason t.max_cost_usd too_dear Reason.cost in
      let slow = reason t.max_p95_latency_ms too_slow p95_latency in
      let low = reason t.pass_rate_min too_low pass_rate in
      let (rest, none_slow) = append-nil_parts (low ++ dear) slow e in
      let (none_low, none_dear) = append-nil_parts low dear rest in
      (
        reason-IsMet t.pass_rate_min too_low pass_rate (λ m h. ground arith) none_low,
        reason-IsMet t.max_cost_usd too_dear Reason.cost (λ m h. ground arith) none_dear,
        reason-IsMet t.max_p95_latency_ms too_slow p95_latency
            (λ m h. p95-within (durations rows) m (omega arith) (ground arith)) none_slow,
      )

  reasons_of-none : (t : Thresholds) → AllMet sum rows t → reasons_of sum rows t ≡ []
  unfolding reasons_of
  reasons_of-none t (rate, cost, latency) =
      let no_rate = IsMet-reason t.pass_rate_min too_low pass_rate (λ m h. ground arith) rate in
      let no_cost = IsMet-reason t.max_cost_usd too_dear Reason.cost (λ m h. ground arith) cost in
      let no_latency =
        IsMet-reason t.max_p95_latency_ms too_slow p95_latency
          (λ m h. let low = within-p95 (durations rows) m (omega arith) h in ground arith)
          latency in
      rw (no_rate, no_cost, no_latency) refl

-- The gate gives a verdict exactly where there is a result and some threshold is given.
pub evaluation_gate-silent :
    (sum : List ℕ → ℕ) (results : List CaseResult) (t : Thresholds)
    → ((evaluation_gate sum results t).0 ≡ none) ↔ ((results ≡ []) ⊎ (some_given t ≡ false))
unfolding evaluation_gate
evaluation_gate-silent sum [] t = (λ e. inl refl, λ e. refl)
evaluation_gate-silent sum (r ∷ rs) t = (λ e. inr (ground arith), λ e. ground arith)

-- Where there is a result and some threshold is given, the gate passes exactly if every given
-- threshold is met: the rate of passed cases is no lower, the sum of the costs, as `sum` rounds it,
-- no higher, and more than 95 in 100 of the latencies, rounded down, no higher.
pub evaluation_gate-passed :
    (sum : List ℕ → ℕ) (results : List CaseResult) (t : Thresholds)
    → 0 < length results
    → some_given t ≡ true
    → ((evaluation_gate sum results t).0 ≡ some passed) ↔ AllMet sum results t
unfolding evaluation_gate
evaluation_gate-passed sum [] t some_result given = elim some_result [ ]
evaluation_gate-passed sum (r ∷ rs) t some_result given = rw given (
  λ e. reasons_of-empty sum r rs t (ground arith),
  λ met. ap (λ x. some (verdict_of x)) (reasons_of-none sum r rs t met),
)
