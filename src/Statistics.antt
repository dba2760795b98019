-- ===== src/Statistics.antt =====
-- Statistics and alerts of src/agentops/service.py: `stats`, `trends`, `create_alert`, `get_alert` and
-- `list_alerts`. Durations are left out, as spans have none here. Costs of spans are in billionths
-- of a dollar; rounded, rates and thresholds are in millionths.
pub mod Agreement
use agentops_control_plane.Base.{
  ℕ, zero, suc, ◌+◌, ◌*◌, String, Bool, true, false, ◌&&◌, Option, none, some, List, [], ◌∷◌, ◌++◌,
  map, ◌==◌, leb, if◌then◌else◌, keep, occurs, tally, total,
}
use agentops_control_plane.Base.Table.{Table, insert, newest_first}
use agentops_control_plane.Store.Rows.{
  Run, RunStatus, Span, Workflow, Approval, ApprovalStatus, completed, failed,
}
use agentops_control_plane.Store.Exec.{Db, Error, Result, ok, err}
use agentops_control_plane.Runs.Pause.{is_pending}
use agentops_control_plane.Evaluations.Job.{steps_of}
use agentops_control_plane.Packages.Export.{reversed}
use agentops_control_plane.Listings.{
  Scope, take, unless_empty, in_scope, joined, joined_run, is_status,
}
use agentops_control_plane.Service.{
  Service, Served, Alert, Metric, failure_rate, pending_approvals, total_cost_usd, or_raise,
}

-- run_scope: "", " AND 1=0", or the workflows of the projects.
abbrev pub run_in : Scope → Db → Run → Bool
run_in none s r = true
run_in (some []) s r = false
run_in (some (p ∷ ps)) s r = joined s r.workflow_id (λ w. occurs w.project_id (p ∷ ps))

-- approval_scope and span_scope, by the run that a row belongs to.
abbrev pub of_run_in : Scope → Db → ℕ → Bool
of_run_in none s run_id = true
of_run_in (some []) s run_id = false
of_run_in (some (p ∷ ps)) s run_id = joined_run s run_id (λ w. occurs w.project_id (p ∷ ps))

-- SELECT COUNT(*) FROM runs WHERE ...
unfoldable pub count_runs : (Run → Bool) → Scope → Db → ℕ
unfolding newest_first
count_runs test scope s = tally (λ row. test row.1 && run_in scope s row.1) (newest_first s.runs)

unfoldable pub count_approvals : (Approval → Bool) → Scope → Db → ℕ
unfolding newest_first
count_approvals test scope s =
    tally (λ row. test row.1 && of_run_in scope s row.1.run_id) (newest_first s.approvals)

abbrev pub span_value : (Span → ℕ) → Option Span → ℕ
span_value f none = 0
span_value f (some x) = f x

-- The spans of a run lie below the number of its workflow's steps.
abbrev pub span_sum : (Span → ℕ) → ℕ → (ℕ → Option Span) → ℕ
span_sum f zero spans = 0
span_sum f (suc n) spans = span_value f (spans n) + span_sum f n spans

abbrev pub run_sum : (Span → ℕ) → Db → ℕ × Run → ℕ
run_sum f s row = span_sum f (steps_of (s.workflows.row row.1.workflow_id)) (s.spans row.0)

unfoldable pub sum_spans : (Span → ℕ) → Scope → Db → ℕ
unfolding newest_first
sum_spans f scope s =
    total (run_sum f s) (keep (λ row. of_run_in scope s row.0) (newest_first s.runs))

-- `success_rate` is the two numbers of its fraction, which is 0 where there is no run.
pub record Stats : Type 0 where
  pub total_runs : ℕ
  pub completed_runs : ℕ
  pub failed_runs : ℕ
  pub success_rate : ℕ × ℕ
  pub pending_approvals : ℕ
  pub input_tokens : ℕ
  pub output_tokens : ℕ
  pub total_cost_usd : ℕ

-- `round` is the rounding of a cost.
module _ (round : ℕ → ℕ) where
  unfoldable pub stats : Scope → Db → Stats
  unfolding count_runs count_approvals sum_spans
  stats scope s =
      let all_runs = count_runs (λ r. true) scope s in
      let completed_ones = count_runs (is_status completed) scope s in
      record {
        total_runs = all_runs;
        completed_runs = completed_ones;
        failed_runs = count_runs (is_status failed) scope s;
        success_rate = (completed_ones, all_runs);
        pending_approvals = count_approvals (λ a. is_pending a.status) scope s;
        input_tokens = sum_spans (λ x. x.input_tokens) scope s;
        output_tokens = sum_spans (λ x. x.output_tokens) scope s;
        total_cost_usd = round (sum_spans (λ x. x.cost_usd) scope s);
      }

  -- Whether the current value of a metric reaches a threshold; a rate of no runs is 0.
  abbrev pub reaches : Stats → Metric → ℕ → Bool
  reaches x failure_rate threshold =
      if x.total_runs == 0
      then leb threshold 0
      else leb (threshold * x.total_runs) (x.failed_runs * 1000000)
  reaches x pending_approvals threshold = leb threshold (x.pending_approvals * 1000000)
  reaches x total_cost_usd threshold = leb threshold x.total_cost_usd

  -- The alerts, the newest first, each with whether it is triggered.
  unfoldable pub list_alerts : Scope → Service → List (ℕ × Alert × Bool)
  unfolding stats newest_first
  list_alerts scope v =
      map
        (λ row.
          (row.0, row.1, row.1.enabled && reaches (stats scope v.db) row.1.metric row.1.threshold))
        (newest_first v.alerts)

unfoldable pub get_alert : ℕ → Served Alert
get_alert id v = or_raise (v.alerts.row id) (Error.not_found "alert not found") v

unfoldable pub create_alert : String → Metric → ℕ → Served Alert
unfolding get_alert
create_alert name metric threshold v = get_alert v.alerts.next (record v {
  alerts =
      insert (record { name = name; metric = metric; threshold = threshold; enabled = true })
        v.alerts;
})

-- The cost of the newest runs of a scope, the oldest of them first.
unfoldable pub trends : ℕ → Scope → Db → List (ℕ × RunStatus × ℕ)
unfolding newest_first
trends limit scope s =
    map (λ row. (row.0, row.1.status, run_sum (λ x. x.cost_usd) s row))
      (reversed (
        unless_empty scope (
          take limit (
            keep (λ row. joined s row.1.workflow_id (λ w. in_scope scope w.project_id))
              (newest_first s.runs)))))
