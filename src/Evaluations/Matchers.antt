-- ===== src/Evaluations/Matchers.antt =====
-- `_match_evaluation` of src/agentops/service.py. The regular expressions, the JSON schemas, the
-- judging model and the methods of `str` are parameters.
use agentops_control_plane.Base.{
  ℕ, String, Bool, false, List, Option, none, some, ltb, str_eq, if◌then◌else◌,
}
use agentops_control_plane.Json.{Value}
use agentops_control_plane.Store.Exec.{Result, ok, err}
use agentops_control_plane.Datasets.{Body, Matcher, exact, contains, regex, json_schema, llm_judge}

-- `equal` is `==` of decoded values, `to_str` is `str`, where no output is None, `occurs_in` is
-- Python's `in` of two texts and `len` the length of a text. `search` is `re.search`, without an
-- answer where the pattern is malformed or the time is up, `validates` is `jsonschema.validate`,
-- `judge` what the provider and the model answer for a rubric and an actual output, and `says_pass`
-- says whether this answer starts with PASS. `elapsed` is the time of a run's spans, in
-- thousandths of a millisecond. `rounded` is round(sum(...), 6) of the costs of a run's spans, from
-- billionths of a dollar to a double, and `sum` is `sum` of doubles.
pub record Judge : Type 0 where
  pub equal : Option Value → Value → Bool
  pub to_str : Option Value → String
  pub occurs_in : String → String → Bool
  pub len : String → ℕ
  pub search : String → String → Option Bool
  pub validates : Option Value → Value → Bool
  pub judge : String → String → String → Option Value → Result String
  pub says_pass : String → Bool
  pub elapsed : ℕ → ℕ
  pub rounded : List ℕ → ℕ
  pub sum : List ℕ → ℕ

abbrev pub found : Option Bool → Bool
found none = false
found (some b) = b

module _ (j : Judge) where
  abbrev pub verdict : Result String → Result Bool
  verdict (ok answer) = ok (j.says_pass answer)
  verdict (err e) = err e

  -- case.get("rubric") or expected
  abbrev pub rubric_of : Body → String
  rubric_of body = if str_eq body.rubric "" then j.to_str (some body.expected) else body.rubric

  abbrev pub match_by : Matcher → Body → Option Value → Result Bool
  match_by exact body actual = ok (j.equal actual body.expected)
  match_by contains body actual = ok (j.occurs_in (j.to_str (some body.expected)) (j.to_str actual))
  match_by regex body actual =
      let pattern = j.to_str (some body.expected) in
      if ltb 2000 (j.len pattern) then ok false else ok (found (j.search pattern (j.to_str actual)))
  match_by json_schema body actual = ok (j.validates actual body.expected)
  match_by llm_judge body actual =
      verdict (j.judge body.judge_provider body.judge_model (rubric_of body) actual)

  unfoldable pub match_evaluation : Body → Option Value → Result Bool
  match_evaluation body actual = match_by body.matcher body actual
