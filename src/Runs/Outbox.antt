-- ===== src/Runs/Outbox.antt =====
-- `_dispatch_webhooks` and `_enqueue_outbox` of src/agentops/service.py: an event of a run becomes
-- a row of the outbox for each destination, at most one for each idempotency key.
use agentops_control_plane.Base.{
  ℕ, Bool, true, false, ◌&&◌, ◌||◌, none, some, List, [], ◌∷◌, ◌==◌, if◌then◌else◌,
}
use agentops_control_plane.Base.Table.{Table, insert, any_row, newest_first}
use agentops_control_plane.Security.Redact.{redact}
use agentops_control_plane.Store.Rows.{
  Run, Event, run_completed, run_failed, run_rejected, run_cancelled, approval_pending,
  approval_escalated, approval_expired, Webhook, Destination, OutboxEvent, OutboxStatus,
}
use agentops_control_plane.Store.Exec.{Exec, modify, when, ◌>>=◌, ◌>>◌}
use agentops_control_plane.Runs.Env.{Env}
use agentops_control_plane.Runs.Rows.{get_run, get_workflow}

abbrev pub event_code : Event → ℕ
event_code run_completed = 0
event_code run_failed = 1
event_code run_rejected = 2
event_code run_cancelled = 3
event_code approval_pending = 4
event_code approval_escalated = 5
event_code approval_expired = 6

abbrev pub same_event : Event → Event → Bool
same_event a b = event_code a == event_code b

abbrev pub same_destination : Destination → Destination → Bool
same_destination (Destination.webhook i) (Destination.webhook j) = i == j
same_destination Destination.slack Destination.slack = true
same_destination Destination.email Destination.email = true
same_destination _ _ = false

abbrev pub same_key : Event → ℕ → Destination → OutboxEvent → Bool
same_key event run_id destination row =
    same_event row.event event
    && row.run_id == run_id
    && same_destination row.destination destination

abbrev subscribes : Event → List Event → Bool
subscribes event [] = false
subscribes event (e ∷ es) = same_event event e || subscribes event es

module _ (env : Env) where
  -- A run as `get_run` returns it to a client.
  unfoldable pub view : Run → Run
  view run = record run {
    input = redact env.lower run.input;
    output = elim run.output [ none ↦ none | some v ↦ some (redact env.lower v) ];
  }

  unfoldable pub new_event : Event → ℕ → Destination → Run → OutboxEvent
  unfolding view
  new_event event run_id destination run = record {
    event = event;
    run_id = run_id;
    destination = destination;
    payload = view run;
    status = OutboxStatus.pending;
    attempts = 0;
    next_attempt_at = some env.now;
    claimed_at = none;
    last_error = none;
  }

  -- INSERT OR IGNORE
  unfoldable pub enqueue_outbox :
      Event → ℕ → Destination → Run → Table OutboxEvent → Table OutboxEvent
  unfolding any_row new_event
  enqueue_outbox event run_id destination run t =
      if any_row (same_key event run_id destination) t
      then t
      else insert (new_event event run_id destination run) t

  unfoldable pub enqueue_webhooks :
      Event → ℕ → Run → ℕ → List (ℕ × Webhook) → Table OutboxEvent → Table OutboxEvent
  unfolding enqueue_outbox
  enqueue_webhooks event run_id run project_id [] t = t
  enqueue_webhooks event run_id run project_id ((webhook_id, webhook) ∷ rest) t =
      enqueue_webhooks event run_id run project_id rest (
        if webhook.project_id == project_id && webhook.enabled && subscribes event webhook.events
        then enqueue_outbox event run_id (Destination.webhook webhook_id) run t
        else t)

  unfoldable pub dispatch_webhooks : ℕ → Event → Exec (Unit {0})
  unfolding enqueue_webhooks newest_first get_run get_workflow
  dispatch_webhooks run_id event = do
    run ← get_run run_id
    workflow ← get_workflow run.workflow_id
    modify λ s. record s {
      outbox =
          enqueue_webhooks event run_id run workflow.project_id (newest_first s.webhooks) s.outbox;
    }
    when env.slack (
        modify
          λ s. record s { outbox = enqueue_outbox event run_id Destination.slack run s.outbox })
    when env.email (
        modify
          λ s. record s { outbox = enqueue_outbox event run_id Destination.email run s.outbox })
