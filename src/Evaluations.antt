-- ===== src/Evaluations.antt =====
-- `_evaluation_gate` and `compare_evaluations` of src/agentops/service.py. Latencies are in
-- thousandths of a millisecond and rates in millionths. Costs are doubles, counted in a unit of which
-- every double is a multiple; the sum of doubles rounds, and is a parameter.
pub mod Gate
pub mod Comparison
pub mod Matchers
pub mod Job
pub mod Cases
pub mod Executor
pub mod Progress
pub mod Finish
use agentops_control_plane.Base.{
  ℕ, zero, suc, ◌+◌, ◌-◌, ◌*◌, ◌/◌, min, Bool, true, false, ◌&&◌, ◌||◌, not, Option, none, some,
  String, str_eq, List, [], ◌∷◌, ◌++◌, map, ◌==◌, ltb, if◌then◌else◌, length, tally, total,
}
use agentops_control_plane.Base.Sorting.{sort_by, at, self}
use agentops_control_plane.Json.{Value}

-- The result of one case of a dataset.
pub record CaseResult : Type 0 where
  pub case_id : String
  pub run_id : ℕ
  pub passed : Bool
  pub actual : Option Value
  pub expected : Value
  pub duration_ms : ℕ
  pub cost_usd : ℕ

pub record Thresholds : Type 0 where
  pub pass_rate_min : Option ℕ
  pub max_cost_usd : Option ℕ
  pub max_p95_latency_ms : Option ℕ

pub data Verdict : Type 0 where
  passed failed : Verdict

pub data Reason : Type 0 where
  pass_rate cost p95_latency : Reason

abbrev pub passed_count : List CaseResult → ℕ
passed_count results = tally (λ r. r.passed) results

-- The element of `sorted(values)` at min(len - 1, int(len * 0.95)).
unfoldable pub p95 : List ℕ → ℕ
p95 values = at (sort_by self values) (min (length values - 1) (length values * 95 / 100))

abbrev pub durations : List CaseResult → List ℕ
durations results = map (λ r. r.duration_ms) results

abbrev pub is_given : Option ℕ → Bool
is_given none = false
is_given (some _) = true

abbrev pub some_given : Thresholds → Bool
some_given t = is_given t.pass_rate_min || is_given t.max_cost_usd || is_given t.max_p95_latency_ms

-- One `if threshold is not None and ...: reasons.append(...)`.
abbrev pub reason : Option ℕ → (ℕ → Bool) → Reason → List Reason
reason none violated r = []
reason (some bound) violated r = if violated bound then r ∷ [] else []

abbrev pub costs : List CaseResult → List ℕ
costs results = map (λ r. r.cost_usd) results

-- `sum` is Python's, of doubles.
unfoldable pub reasons_of : (List ℕ → ℕ) → List CaseResult → Thresholds → List Reason
unfolding p95
reasons_of sum results t =
    reason t.pass_rate_min (λ m. ltb (passed_count results * 1000000) (m * length results))
      pass_rate
    ++ reason t.max_cost_usd (λ m. ltb m (sum (costs results))) cost
    ++ reason t.max_p95_latency_ms (λ m. ltb m (p95 (durations results))) p95_latency

abbrev pub verdict_of : List Reason → Verdict
verdict_of [] = passed
verdict_of _ = failed

unfoldable pub evaluation_gate :
    (List ℕ → ℕ) → List CaseResult → Thresholds → Option Verdict × List Reason
unfolding reasons_of
evaluation_gate sum [] t = (none, [])
evaluation_gate sum (r ∷ rs) t =
    let reasons = reasons_of sum (r ∷ rs) t in
    if some_given t then (some (verdict_of reasons), reasons) else (none, [])

pub data Transition : Type 0 where
  regressed fixed removed added stable_fail stable_pass : Transition

abbrev pub order : Transition → ℕ
order regressed = 0
order fixed = 1
order removed = 2
order added = 3
order stable_fail = 4
order stable_pass = 5

pub record Row : Type 0 where
  pub case_id : String
  pub transition : Transition
  pub expected : Option Value
  pub left : Option CaseResult
  pub right : Option CaseResult

abbrev pub transition : Option CaseResult → Option CaseResult → Transition
transition none right = added
transition (some left) none = removed
transition (some left) (some right) =
    if left.passed && not right.passed
    then regressed
    else if not left.passed && right.passed
    then fixed
    else if right.passed
    then stable_pass
    else stable_fail

abbrev pub or_first {ℓ} : {A : Type ℓ} → Option A → Option A → Option A
or_first none b = b
or_first (some a) b = some a

-- {case["case_id"]: case for case in results}.get(case_id): the last result of a case counts.
abbrev pub by_case : List CaseResult → String → Option CaseResult
by_case [] case_id = none
by_case (r ∷ rs) case_id =
    or_first (by_case rs case_id) (if str_eq r.case_id case_id then some r else none)

abbrev pub without : String → List String → List String
without k [] = []
without k (j ∷ js) = let rest = without k js in if str_eq j k then rest else j ∷ rest

-- list(dict.fromkeys(ids))
abbrev pub fromkeys : List String → List String
fromkeys [] = []
fromkeys (k ∷ ks) = k ∷ without k (fromkeys ks)

abbrev pub case_ids : List CaseResult → List String
case_ids results = map (λ r. r.case_id) results

abbrev pub expected_of : Option CaseResult → Option Value
expected_of none = none
expected_of (some r) = some r.expected

abbrev pub row_of : List CaseResult → List CaseResult → String → Row
row_of left right case_id = record {
  case_id = case_id;
  transition = transition (by_case left case_id) (by_case right case_id);
  expected = expected_of (or_first (by_case left case_id) (by_case right case_id));
  left = by_case left case_id;
  right = by_case right case_id;
}

-- The rows of the comparison, the regressions first.
unfoldable pub comparison : List CaseResult → List CaseResult → List Row
comparison left right =
    sort_by (λ r. order r.transition)
      (map (row_of left right) (fromkeys (case_ids left ++ case_ids right)))

-- counts[name]
abbrev pub count : Transition → List Row → ℕ
count t rows = tally (λ r. order r.transition == order t) rows
