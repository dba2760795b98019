-- ===== src/Tests/Evaluations.antt =====
-- The theorems on evaluations, applied.
use agentops_control_plane.Base.{
  ℕ, ◌*◌, ◌+◌, ◌/◌, total, Bool, none, some, true, false, [], ◌∷◌, ◌++◌, ◌≡◌, ◌↔◌, refl, arith,
  tally, List, one_of, String, str_eq,
}
use agentops_control_plane.Json.{null}
use agentops_control_plane.Evaluations.{
  CaseResult, Thresholds, passed, evaluation_gate, comparison, case_ids,
}
use agentops_control_plane.Evaluations.Gate.{AllMet, evaluation_gate-passed}
use agentops_control_plane.Evaluations.Comparison.{indicator, comparison-once}

abbrev result : String → ℕ → Bool → CaseResult
result case_id n ok = record {
  case_id = case_id;
  run_id = n;
  passed = ok;
  actual = none;
  expected = null;
  duration_ms = 10 * n;
  cost_usd = 5;
}

abbrev left : List CaseResult
left = result "one" 1 true ∷ result "two" 2 false ∷ result "three" 3 true ∷ []

abbrev right : List CaseResult
right = result "four" 4 true ∷ result "two" 2 true ∷ result "one" 1 false ∷ []

-- A sum that rounds, to even numbers.
abbrev sum : List ℕ → ℕ
sum costs = 2 * ((total (λ c. c) costs + 1) / 2)

abbrev thresholds : Thresholds
thresholds = record {
  pass_rate_min = some 600000;
  max_cost_usd = some 16;
  max_p95_latency_ms = some 30;
}

evaluation_gate-passed_example :
    ((evaluation_gate sum left thresholds).0 ≡ some passed) ↔ AllMet sum left thresholds
evaluation_gate-passed_example = evaluation_gate-passed sum left thresholds (omega arith) refl

comparison-once_example :
    tally (λ r. str_eq r.case_id "two") (comparison left right)
    ≡ indicator (one_of "two" (case_ids left ++ case_ids right))
comparison-once_example = comparison-once left right "two"
