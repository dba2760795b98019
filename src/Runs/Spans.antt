-- ===== src/Runs/Spans.antt =====
-- `_record_span` of src/agentops/service.py: one span for each step of a run, with its token counts
-- and its cost.
use agentops_control_plane.Base.{
  ℕ, ◌+◌, ◌*◌, ◌/◌, max, String, Bool, true, false, ◌&&◌, Option, none, some, ◌==◌, if◌then◌else◌,
}
use agentops_control_plane.Json.{Value}
use agentops_control_plane.Store.Rows.{Tool, llm, Config, Step, Span, SpanStatus}
use agentops_control_plane.Store.Exec.{Db, Error, Exec, gets, modify, raise_if, ◌>>=◌, ◌>>◌}
use agentops_control_plane.Runs.Env.{Env}
use agentops_control_plane.Runs.Tools.{default, Usage}

abbrev pub is_llm : Tool → Bool
is_llm llm = true
is_llm _ = false

-- SET ... WHERE run_id=? AND step_index=?, and the UNIQUE key of the table.
abbrev pub set_span : ℕ → ℕ → Span → Db → Db
set_span run_id index span s = record s {
  spans = λ r i. if r == run_id && i == index then some span else s.spans r i;
}

abbrev pub is_some {ℓ} : {A : Type ℓ} → Option A → Bool
is_some none = false
is_some (some _) = true

module _ (env : Env) where
  abbrev pub tokens : Value → ℕ
  tokens v = max 1 (env.len (env.encode v) / 4)

  abbrev pub input_tokens_of : Tool → Value → Option Usage → ℕ
  input_tokens_of llm v none = tokens v
  input_tokens_of llm v (some u) = max 1 (default 0 u.input_tokens)
  input_tokens_of _ v u = 0

  abbrev pub output_tokens_of : Tool → Option Value → Option Usage → ℕ
  output_tokens_of llm none u = 0
  output_tokens_of llm (some v) none = tokens v
  output_tokens_of llm (some v) (some u) = max 1 (default 0 u.output_tokens)
  output_tokens_of _ v u = 0

  -- The cost is in billionths of a dollar, so that the division by 1000 is exact.
  abbrev pub cost_of : Config → ℕ → ℕ → ℕ
  cost_of config ins outs =
      ins * default 0 config.input_cost_per_1k + outs * default 0 config.output_cost_per_1k

  unfoldable pub new_span :
      Step → Value → Option Value → SpanStatus → Option String → Option Usage → Span
  new_span step v out status error usage =
      let ins = input_tokens_of step.tool v usage in
      let outs = output_tokens_of step.tool out usage in
      record {
        step_name = step.name;
        tool = step.tool;
        status = status;
        input = v;
        output = out;
        error = error;
        input_tokens = ins;
        output_tokens = outs;
        cost_usd = cost_of step.config ins outs;
      }

  unfoldable pub record_span :
      ℕ
      → ℕ
      → Step
      → Value
      → Option Value
      → SpanStatus
      → Option String
      → Option Usage
      → Exec (Unit {0})
  unfolding new_span
  record_span run_id index step v out status error usage = do
    taken ← gets (λ s. is_some (s.spans run_id index))
    raise_if taken Error.integrity
    modify (set_span run_id index (new_span step v out status error usage))
