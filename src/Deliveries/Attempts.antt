-- ===== src/Deliveries/Attempts.antt =====
-- The attempts at a row of the outbox: each delivery that claims it is one attempt.
use agentops_control_plane.Base.{
  eq_of_==, ℕ, zero, suc, ◌+◌, ◌-◌, ◌≤◌, ◌<◌, String, ◌≡◌, ◌≢◌, inl, inr, refl, sym, ap, Option,
  none, some, List, [], ◌∷◌, ◌==◌, arith, length, Option-cases, Bool-cases, ◌∙◌, min, leb,
  if◌then◌else◌,
}
use agentops_control_plane.Base.Table.{Table, map_row}
use agentops_control_plane.Store.Rows.{OutboxEvent, OutboxStatus, Webhook}
use agentops_control_plane.Deliveries.{
  is_claimable, settle, Sending, sent, disabled, gone, raised, claim_row, sending_of,
  deliver_outbox, deliver_all, poll, due_outbox, Send, Worker, max_attempts, delay_at,
}

-- What holds of every row: six attempts at most, fewer while the row is open, and a time for the
-- next attempt while it waits.
pub record IsCounted (row : OutboxEvent) : Type 0 where
  pub bounded : row.attempts ≤ max_attempts
  pub waiting : row.status ≡ OutboxStatus.pending → row.attempts < max_attempts
  pub claimed : row.status ≡ OutboxStatus.claimed → row.attempts < max_attempts
  pub timed : row.status ≡ OutboxStatus.pending → row.next_attempt_at ≢ none

abbrev pub AllCounted : Table OutboxEvent → Type 0
AllCounted t = (id : ℕ) (row : OutboxEvent) → t.row id ≡ some row → IsCounted row

delay_at-le : (n : ℕ) → n ≤ 4 → (d : ℕ) × (delay_at n ≡ some d)
delay_at-le zero h = (2, refl)
delay_at-le (suc zero) h = (8, refl)
delay_at-le (suc (suc zero)) h = (30, refl)
delay_at-le (suc (suc (suc zero))) h = (120, refl)
delay_at-le (suc (suc (suc (suc zero)))) h = (600, refl)
delay_at-le (suc (suc (suc (suc (suc n))))) h = absurd (omega arith)

-- The status of a row after an attempt.
abbrev pub closes_as : Sending → ℕ → OutboxStatus
closes_as sent attempts = OutboxStatus.delivered
closes_as disabled attempts = OutboxStatus.dead
closes_as gone attempts = OutboxStatus.dead
closes_as (raised e) attempts =
    if leb max_attempts (attempts + 1) then OutboxStatus.dead else OutboxStatus.pending

-- An attempt at a row with fewer than six counts, and keeps the row within its six attempts. The row
-- is delivered if the sending returned, dead if its webhook is disabled or gone or if this was the
-- sixth failure, and waits for the next attempt otherwise.
pub settle_lem :
    (now : ℕ) (sending : Sending) (row : OutboxEvent)
    → row.attempts < max_attempts
    → IsCounted (settle now sending row)
      × ((settle now sending row).attempts ≡ row.attempts + 1)
      × ((settle now sending row).status ≡ closes_as sending row.attempts)
unfolding settle
settle_lem now sending row h = ground (arith, delay_at-le (min (row.attempts + 1 - 1) 4))

-- A delivery of one row, as a function on rows.
unfoldable pub delivered_row : Send → ℕ → Table Webhook → OutboxEvent → OutboxEvent
delivered_row send now webhooks row =
    if is_claimable now row
    then settle now (sending_of send webhooks row row.destination) (claim_row now row)
    else row

pub row-deliver_outbox :
    (send : Send) (now id : ℕ) (w : Worker) (k : ℕ)
    → (deliver_outbox send now id w).outbox.row k ≡ (
        if k == id
        then map_row (delivered_row send now w.webhooks) (w.outbox.row k)
        else w.outbox.row k)
unfolding deliver_outbox delivered_row
row-deliver_outbox send now id w k = ground (arith, eq_of_== k id)

delivered_row-IsCounted :
    (send : Send) (now : ℕ) (webhooks : Table Webhook) (row : OutboxEvent)
    → IsCounted row
    → IsCounted (delivered_row send now webhooks row)
unfolding delivered_row is_claimable
delivered_row-IsCounted send now webhooks row h =
    ground
      (arith, settle_lem now (sending_of send webhooks row row.destination) (claim_row now row))

deliver_outbox-AllCounted :
    (send : Send) (now id : ℕ) (w : Worker)
    → AllCounted w.outbox
    → AllCounted (deliver_outbox send now id w).outbox
deliver_outbox-AllCounted send now id w h k row e = elim (Option-cases (w.outbox.row k)) [
  | inl absent ↦ absurd (ground (arith, row-deliver_outbox send now id w k))
  | inr (old, there) ↦
      let keep = delivered_row-IsCounted send now w.webhooks old (h k old there) in
      elim (Bool-cases (k == id)) [
        | inl same ↦
            let e' : delivered_row send now w.webhooks old ≡ row =
              ground (arith, row-deliver_outbox send now id w k) in
            rw (← e') keep
        | inr other ↦
            let e' : old ≡ row = ground (arith, row-deliver_outbox send now id w k) in
            rw (← e') (h k old there)
      ]
]

deliver_all-AllCounted :
    (send : Send) (now : ℕ) (ids : List ℕ) (w : Worker)
    → AllCounted w.outbox
    → AllCounted (deliver_all send now ids w).outbox
unfolding deliver_all
deliver_all-AllCounted send now [] w h = h
deliver_all-AllCounted send now (id ∷ ids) w h =
    deliver_all-AllCounted send now ids (deliver_outbox send now id w)
      (deliver_outbox-AllCounted send now id w h)

-- A round of the outbox worker keeps every row within six attempts, an open row below six, and a
-- waiting row with a time for its next attempt.
pub poll-AllCounted :
    (send : Send) (now : ℕ) (w : Worker) → AllCounted w.outbox → AllCounted (poll send now w).outbox
unfolding poll
poll-AllCounted send now w = deliver_all-AllCounted send now (due_outbox now 20 w.outbox) w

-- Deliveries of one row, at the times of a list.
unfoldable pub deliver_at : Send → ℕ → List ℕ → Worker → Worker
deliver_at send id [] w = w
deliver_at send id (now ∷ times) w = deliver_at send id times (deliver_outbox send now id w)

delivered_row_failing :
    (send : Send) (now : ℕ) (webhooks : Table Webhook) (e : String) (row : OutboxEvent)
    → sending_of send webhooks row row.destination ≡ raised e
    → row.status ≡ OutboxStatus.pending
    → let row' = delivered_row send now webhooks row in
      (row'.attempts ≡ row.attempts + 1)
      × (row'.status ≡ (
          if leb max_attempts (row.attempts + 1) then OutboxStatus.dead else OutboxStatus.pending))
      × (row'.last_error ≡ some e)
      × (row'.destination ≡ row.destination)
unfolding delivered_row settle is_claimable
delivered_row_failing send now webhooks e row f p = ground arith

pub webhooks-deliver_outbox :
    (send : Send) (now id : ℕ) (w : Worker) → (deliver_outbox send now id w).webhooks ≡ w.webhooks
unfolding deliver_outbox
webhooks-deliver_outbox send now id w = ground arith

-- All but the last time.
abbrev pub all_but_last : List ℕ → List ℕ
all_but_last [] = []
all_but_last (now ∷ []) = []
all_but_last (now ∷ soon ∷ times) = now ∷ all_but_last (soon ∷ times)

-- The last delivery of a row: as it found the row, the call raised this error.
pub record LastCall (send : Send) (id : ℕ) (times : List ℕ) (w : Worker) (error : Option String)
    : Type 0 where
  pub before : OutboxEvent
  pub found : (deliver_at send id (all_but_last times) w).outbox.row id ≡ some before
  pub text : String
  pub raises : sending_of send w.webhooks before before.destination ≡ raised text
  pub kept : error ≡ some text

LastCall-cons :
    (send : Send) (id now soon : ℕ) (times : List ℕ) (w : Worker) (error : Option String)
    → LastCall send id (soon ∷ times) (deliver_outbox send now id w) error
    → LastCall send id (now ∷ soon ∷ times) w error
unfolding deliver_at
LastCall-cons send id now soon times w error call = record {
  before = call.before;
  found = call.found;
  text = call.text;
  raises =
      sym (
        ap (λ t. sending_of send t call.before call.before.destination)
          (webhooks-deliver_outbox send now id w))
      ∙ call.raises;
  kept = call.kept;
}

-- While every call for its destination fails, with whatever errors, a waiting row below six attempts
-- goes through one attempt for each of a number of deliveries, whatever their times: as long as six
-- are not exceeded, it waits while fewer than six are made, is dead with the sixth, and its error is
-- the one that the last of these calls raised.
pub deliver_at-dead :
    (send : Send) (id : ℕ) (times : List ℕ) (w : Worker) (row : OutboxEvent)
    → ((r : OutboxEvent)
        → r.destination ≡ row.destination
        → (e : String) × (sending_of send w.webhooks r r.destination ≡ raised e))
    → w.outbox.row id ≡ some row
    → row.status ≡ OutboxStatus.pending
    → row.attempts < max_attempts
    → 0 < length times
    → row.attempts + length times ≤ max_attempts
    → (row' : OutboxEvent) × ((deliver_at send id times w).outbox.row id ≡ some row')
      × (row'.attempts ≡ row.attempts + length times)
      × (row'.status
          ≡ (if row'.attempts == max_attempts then OutboxStatus.dead else OutboxStatus.pending))
      × LastCall send id times w row'.last_error
unfolding deliver_at
deliver_at-dead send id [] w row f r p a n m = absurd (omega arith)
deliver_at-dead send id (now ∷ []) w row f r p a n m =
    let row' = delivered_row send now w.webhooks row in
    let (e, raises) = f row refl in
    let step = delivered_row_failing send now w.webhooks e row raises p in
    let last : LastCall send id (now ∷ []) w row'.last_error = record {
      before = row;
      found = r;
      text = e;
      raises = raises;
      kept = step.2;
    } in
    (row', ground (arith, row-deliver_outbox send now id w id), ground arith, ground arith, last)
deliver_at-dead send id (now ∷ soon ∷ times) w row f r p a n m =
    let row' = delivered_row send now w.webhooks row in
    let (e, raises) = f row refl in
    let step = delivered_row_failing send now w.webhooks e row raises p in
    let same = webhooks-deliver_outbox send now id w in
    let (last, there, count, status, call) =
      deliver_at-dead send id (soon ∷ times) (deliver_outbox send now id w) row'
        (λ r' d. rw same (f r' (d ∙ step.3))) (ground (arith, row-deliver_outbox send now id w id))
        (ground arith) (omega arith) (omega arith) (omega arith) in
    (last, there, omega arith, status, LastCall-cons send id now soon times w last.last_error call)
