-- ===== src/Tests/Deliveries.antt =====
-- The theorems on the outbox worker, applied.
use agentops_control_plane.Base.{
  ℕ, none, some, true, false, [], ◌∷◌, ◌≡◌, refl, arith, ◌==◌, if◌then◌else◌,
}
use agentops_control_plane.Base.Table.{insert, empty}
use agentops_control_plane.Store.Rows.{
  Webhook, OutboxEvent, OutboxStatus, Destination, run_completed,
}
use agentops_control_plane.Deliveries.{Worker, Send, max_attempts, claim_outbox, poll}
use agentops_control_plane.Deliveries.Claims.{deliver_others, claim_outbox-exclusive}
use agentops_control_plane.Deliveries.Attempts.{
  AllCounted, LastCall, poll-AllCounted, deliver_at, deliver_at-dead,
}
use agentops_control_plane.Tests.{run}

abbrev webhook : Webhook
webhook = record {
  project_id = 1;
  url = "https://example.org/hook";
  events = run_completed ∷ [];
  enabled = true;
}

abbrev waiting_row : OutboxEvent
waiting_row = record {
  event = run_completed;
  run_id = 1;
  destination = Destination.webhook 1;
  payload = run;
  status = OutboxStatus.pending;
  attempts = 3;
  next_attempt_at = some 0;
  claimed_at = none;
  last_error = none;
}

abbrev closed_row : OutboxEvent
closed_row = record waiting_row { status = OutboxStatus.delivered; attempts = 1 }

-- The row 1 waits, and the row 2 is delivered.
abbrev worker : Worker
worker = record {
  webhooks = insert webhook empty;
  outbox = insert closed_row (insert waiting_row empty);
  deliveries = [];
}

-- Every call fails, and the sixth with another error.
abbrev failing : Send
failing row = some (if row.attempts == 5 then "timed out" else "connection refused")

-- Another worker has both rows delivered meanwhile.
claim_outbox-exclusive_example :
    let claimed = (claim_outbox 1000 1 worker.outbox).1 in
    let w' =
      deliver_others failing ((1010, 1) ∷ (1299, 2) ∷ []) (record worker { outbox = claimed }) in
    (w'.outbox.row 1 ≡ claimed.row 1)
    × ((claim_outbox 1299 1 w'.outbox).0 ≡ false)
    × ((k : ℕ) → (claim_outbox 1299 1 w'.outbox).1.row k ≡ w'.outbox.row k)
unfolding claim_outbox
claim_outbox-exclusive_example =
    claim_outbox-exclusive failing 1000 1299 1 ((1010, 1) ∷ (1299, 2) ∷ []) worker refl
      (omega arith, (omega arith, tt)) (omega arith)

worker-AllCounted : AllCounted worker.outbox
worker-AllCounted id row there = record {
  bounded = ground arith;
  waiting = λ p. ground arith;
  claimed = λ c. ground arith;
  timed = λ p. ground arith;
}

poll-AllCounted_example : AllCounted (poll failing 1000 worker).outbox
poll-AllCounted_example = poll-AllCounted failing 1000 worker worker-AllCounted

deliver_at-dead_example :
    (row' : OutboxEvent) × ((deliver_at failing 1 (1000 ∷ 1030 ∷ 1150 ∷ []) worker).outbox.row 1
      ≡ some row')
    × (row'.attempts ≡ 6)
    × (row'.status
        ≡ (if row'.attempts == max_attempts then OutboxStatus.dead else OutboxStatus.pending))
    × LastCall failing 1 (1000 ∷ 1030 ∷ 1150 ∷ []) worker row'.last_error
deliver_at-dead_example =
    deliver_at-dead failing 1 (1000 ∷ 1030 ∷ 1150 ∷ []) worker waiting_row
      (λ r d. (if r.attempts == 5 then "timed out" else "connection refused", rw d refl)) refl refl
      (omega arith) (omega arith) (omega arith)
