-- ===== src/Deliveries.antt =====
-- The outbox worker of src/agentops/service.py: `_due_outbox`, `_claim_outbox` and
-- `_deliver_outbox`.
pub mod Claims
pub mod Attempts
pub mod Records
use agentops_control_plane.Base.{
  ℕ, zero, suc, ◌+◌, ◌-◌, min, String, Bool, true, false, ◌&&◌, ◌||◌, not, Option, none, some, List,
  [], ◌∷◌, ◌==◌, leb, if◌then◌else◌,
}
use agentops_control_plane.Base.Table.{Table, update, newest_first}
use agentops_control_plane.Store.Rows.{Destination, OutboxEvent, OutboxStatus, Webhook}

-- datetime.now(UTC) - timedelta(seconds=300), as the test `claimed_at <= cutoff`.
abbrev pub lease : ℕ
lease = 300

abbrev pub max_attempts : ℕ
max_attempts = 6

abbrev lease_over : ℕ → Option ℕ → Bool
lease_over now none = false
lease_over now (some t) = leb (t + lease) now

abbrev pub is_waiting : OutboxStatus → Bool
is_waiting OutboxStatus.pending = true
is_waiting _ = false

abbrev pub is_claimed : OutboxStatus → Bool
is_claimed OutboxStatus.claimed = true
is_claimed _ = false

-- next_attempt_at IS NULL OR next_attempt_at <= ?
abbrev pub attempt_due : ℕ → Option ℕ → Bool
attempt_due now none = true
attempt_due now (some t) = leb t now

-- The condition of `_due_outbox` on a row.
unfoldable pub is_due : ℕ → OutboxEvent → Bool
is_due now row =
    (is_waiting row.status && attempt_due now row.next_attempt_at)
    || (is_claimed row.status && lease_over now row.claimed_at)

-- The condition of `_claim_outbox` on a row.
unfoldable pub is_claimable : ℕ → OutboxEvent → Bool
is_claimable now row =
    is_waiting row.status || (is_claimed row.status && lease_over now row.claimed_at)

abbrev pub claim_row : ℕ → OutboxEvent → OutboxEvent
claim_row now row =
    if is_claimable now row
    then record row { status = OutboxStatus.claimed; claimed_at = some now }
    else row

abbrev claims : ℕ → Option OutboxEvent → Bool
claims now none = false
claims now (some row) = is_claimable now row

-- One UPDATE: whether it changed the row, and the table after it.
unfoldable pub claim_outbox : ℕ → ℕ → Table OutboxEvent → Bool × Table OutboxEvent
unfolding is_claimable
claim_outbox now id t = (claims now (t.row id), update id (claim_row now) t)

-- How the `try` block of `_deliver_outbox` ends: sent; the webhook is disabled; `NotFoundError`; any
-- other exception, with its text.
pub data Sending : Type 0 where
  sent disabled gone : Sending
  raised : String → Sending

pub data Delivery : Type 0 where
  delivered dead failed : Delivery

abbrev pub status_of : Sending → Delivery
status_of sent = delivered
status_of disabled = dead
status_of gone = dead
status_of (raised _) = failed

abbrev pub error_of : Sending → Option String
error_of sent = none
error_of disabled = none
error_of gone = some "webhook destination no longer exists"
error_of (raised e) = some e

-- A row of `webhook_deliveries`.
pub record DeliveryRow : Type 0 where
  pub webhook_id : ℕ
  pub run_id : ℕ
  pub delivered : Bool
  pub error : Option String

-- `recorded` is set behind the sending, so a raise leaves it unset.
abbrev pub recorded : Destination → Sending → OutboxEvent → Option DeliveryRow
recorded (Destination.webhook id) sent row =
    some (record { webhook_id = id; run_id = row.run_id; delivered = true; error = none })
recorded (Destination.webhook id) disabled row =
    some (record { webhook_id = id; run_id = row.run_id; delivered = false; error = none })
recorded _ _ row = none

-- (2, 8, 30, 120, 600)[i]; past the end Python raises.
abbrev pub delay_at : ℕ → Option ℕ
delay_at zero = some 2
delay_at (suc zero) = some 8
delay_at (suc (suc zero)) = some 30
delay_at (suc (suc (suc zero))) = some 120
delay_at (suc (suc (suc (suc zero)))) = some 600
delay_at _ = none

abbrev pub later : ℕ → Option ℕ → Option ℕ
later now none = none
later now (some d) = some (now + d)

abbrev close_row : OutboxStatus → Option String → OutboxEvent → OutboxEvent
close_row status error row = record row {
  status = status;
  attempts = row.attempts + 1;
  last_error = error;
}

-- The row after an attempt.
unfoldable pub settle : ℕ → Sending → OutboxEvent → OutboxEvent
settle now sending row = elim (status_of sending) [
  | delivered ↦ close_row OutboxStatus.delivered (error_of sending) row
  | dead ↦ close_row OutboxStatus.dead (error_of sending) row
  | failed ↦
      if leb max_attempts (row.attempts + 1)
      then close_row OutboxStatus.dead (error_of sending) row
      else record row {
        status = OutboxStatus.pending;
        claimed_at = none;
        attempts = row.attempts + 1;
        last_error = error_of sending;
        next_attempt_at = later now (delay_at (min (row.attempts + 1 - 1) 4));
      }
]

-- The network: the error of a call of Slack, of the mail server or of the webhook, if it fails.
abbrev pub Send : Type 0
Send = OutboxEvent → Option String

abbrev pub called : Option String → Sending
called none = sent
called (some e) = raised e

-- The sending as the rows decide it: a webhook is looked up, and a disabled one is not called.
abbrev pub sending_of : Send → Table Webhook → OutboxEvent → Destination → Sending
sending_of send webhooks row (Destination.webhook id) = elim (webhooks.row id) [
  | none ↦ gone
  | some w ↦ if w.enabled then called (send row) else disabled
]
sending_of send webhooks row _ = called (send row)

pub record Worker : Type 0 where
  pub webhooks : Table Webhook
  pub outbox : Table OutboxEvent
  pub deliveries : List DeliveryRow

abbrev record_delivery : Option DeliveryRow → List DeliveryRow → List DeliveryRow
record_delivery none ds = ds
record_delivery (some d) ds = d ∷ ds

-- `_deliver_outbox`
unfoldable pub deliver_outbox : Send → ℕ → ℕ → Worker → Worker
unfolding claim_outbox
deliver_outbox send now id w = elim (w.outbox.row id) [
  | none ↦ w
  | some row ↦
      if not (is_waiting row.status || is_claimed row.status)
      then w
      else let (won, claimed) = claim_outbox now id w.outbox in
        if not won
        then record w { outbox = claimed }
        else let sending = sending_of send w.webhooks row row.destination in
          record w {
            deliveries = record_delivery (recorded row.destination sending row) w.deliveries;
            outbox = update id (settle now sending) claimed;
          }
]

abbrev due_ids : ℕ → List (ℕ × OutboxEvent) → List ℕ → List ℕ
due_ids now [] acc = acc
due_ids now ((id, row) ∷ rest) acc = due_ids now rest (if is_due now row then id ∷ acc else acc)

abbrev take : ℕ → List ℕ → List ℕ
take zero ids = []
take (suc n) [] = []
take (suc n) (id ∷ ids) = id ∷ take n ids

-- `_due_outbox`: the ids in their order, at most `limit` of them.
unfoldable pub due_outbox : ℕ → ℕ → Table OutboxEvent → List ℕ
unfolding is_due newest_first
due_outbox now limit t = take limit (due_ids now (newest_first t) [])

unfoldable pub deliver_all : Send → ℕ → List ℕ → Worker → Worker
unfolding deliver_outbox
deliver_all send now [] w = w
deliver_all send now (id ∷ ids) w = deliver_all send now ids (deliver_outbox send now id w)

-- One round of `_outbox_loop`.
unfoldable pub poll : Send → ℕ → Worker → Worker
unfolding due_outbox deliver_all
poll send now w = deliver_all send now (due_outbox now 20 w.outbox) w
