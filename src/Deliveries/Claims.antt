-- ===== src/Deliveries/Claims.antt =====
-- Claims of outbox rows, and rows that are closed.
use agentops_control_plane.Base.{
  ℕ, ◌+◌, ◌<◌, true, false, ◌≡◌, ◌≢◌, refl, sym, ◌∙◌, some, List, [], ◌∷◌, arith, Option-cases, inl,
  inr,
}
use agentops_control_plane.Store.Rows.{OutboxEvent, OutboxStatus}
use agentops_control_plane.Deliveries.{
  claim_outbox, is_claimable, is_due, lease, deliver_outbox, Send, Worker,
}
use agentops_control_plane.Deliveries.Attempts.{delivered_row, row-deliver_outbox}

-- Deliveries by other workers, each at its time.
unfoldable pub deliver_others : Send → List (ℕ × ℕ) → Worker → Worker
deliver_others send [] w = w
deliver_others send ((now, id) ∷ calls) w = deliver_others send calls (deliver_outbox send now id w)

abbrev pub AllBefore : ℕ → List (ℕ × ℕ) → Type 0
AllBefore limit [] = Unit {0}
AllBefore limit ((now, id) ∷ calls) = (now < limit) × AllBefore limit calls

-- A row that was claimed at a time.
IsHeld : ℕ → ℕ → OutboxEvent → Worker → Type 0
IsHeld now id row w =
    (w.outbox.row id ≡ some row) × (row.status ≡ OutboxStatus.claimed) × (row.claimed_at ≡ some now)

deliver_outbox-IsHeld :
    (send : Send) (now at id k : ℕ) (row : OutboxEvent) (w : Worker)
    → at < now + lease
    → IsHeld now id row w
    → IsHeld now id row (deliver_outbox send at k w)
unfolding IsHeld delivered_row is_claimable
deliver_outbox-IsHeld send now at id k row w early (there, claimed, when) =
    (ground (arith, row-deliver_outbox send at k w id), claimed, when)

deliver_others-IsHeld :
    (send : Send) (now id : ℕ) (row : OutboxEvent) (calls : List (ℕ × ℕ)) (w : Worker)
    → AllBefore (now + lease) calls
    → IsHeld now id row w
    → IsHeld now id row (deliver_others send calls w)
unfolding deliver_others
deliver_others-IsHeld send now id row [] w early held = held
deliver_others-IsHeld send now id row ((at, k) ∷ calls) w early held =
    deliver_others-IsHeld send now id row calls (deliver_outbox send at k w) early.1
      (deliver_outbox-IsHeld send now at id k row w early.0 held)

claim_outbox-IsHeld :
    (now id : ℕ) (w : Worker)
    → (claim_outbox now id w.outbox).0 ≡ true
    → (row : OutboxEvent) × IsHeld now id row
        (record w { outbox = (claim_outbox now id w.outbox).1 })
unfolding IsHeld claim_outbox
claim_outbox-IsHeld now id w won = elim (Option-cases (w.outbox.row id)) [
  | inl absent ↦ absurd (ground arith)
  | inr (row, there) ↦ (
    record row { status = OutboxStatus.claimed; claimed_at = some now },
    (ground arith, refl, refl),
  )
]

claim_outbox-lost :
    (now later id : ℕ) (row : OutboxEvent) (w : Worker)
    → later < now + lease
    → IsHeld now id row w
    → ((claim_outbox later id w.outbox).0 ≡ false)
      × ((k : ℕ) → (claim_outbox later id w.outbox).1.row k ≡ w.outbox.row k)
unfolding IsHeld claim_outbox
claim_outbox-lost now later id row w early (there, claimed, when) =
    (ground arith, λ k. ground arith)

-- Once a worker has won the claim of a row, and until it settles the row itself: whatever other
-- workers deliver in the 300 seconds from then on, the row stays as the claim left it, and every
-- claim of it in this time is lost and changes no row.
pub claim_outbox-exclusive :
    (send : Send) (now later id : ℕ) (calls : List (ℕ × ℕ)) (w : Worker)
    → (claim_outbox now id w.outbox).0 ≡ true
    → AllBefore (now + lease) calls
    → later < now + lease
    → let claimed = (claim_outbox now id w.outbox).1 in
      let w' = deliver_others send calls (record w { outbox = claimed }) in
      (w'.outbox.row id ≡ claimed.row id)
      × ((claim_outbox later id w'.outbox).0 ≡ false)
      × ((k : ℕ) → (claim_outbox later id w'.outbox).1.row k ≡ w'.outbox.row k)
unfolding IsHeld
claim_outbox-exclusive send now later id calls w won before early =
    let claimed = record w { outbox = (claim_outbox now id w.outbox).1 } in
    let (row, held) = claim_outbox-IsHeld now id w won in
    let held' = deliver_others-IsHeld send now id row calls claimed before held in
    let (lost, same) =
      claim_outbox-lost now later id row (deliver_others send calls claimed) early held' in
    (held'.0 ∙ sym held.0, lost, same)

-- A row that is due can be claimed by the worker that saw it due.
pub is_due-is_claimable :
    (now : ℕ) (row : OutboxEvent) → is_due now row ≡ true → is_claimable now row ≡ true
unfolding is_due is_claimable
is_due-is_claimable now row h = ground arith

-- The delivery of a row that is delivered or dead does nothing: it is not sent, no delivery is
-- recorded and no row changes.
pub deliver_outbox-closed :
    (send : Send) (now id : ℕ) (w : Worker) (row : OutboxEvent)
    → w.outbox.row id ≡ some row
    → row.status ≢ OutboxStatus.pending
    → row.status ≢ OutboxStatus.claimed
    → deliver_outbox send now id w ≡ w
unfolding deliver_outbox
deliver_outbox-closed send now id w row e p c = ground arith
