-- ===== src/Deliveries/Records.antt =====
-- The rows of `webhook_deliveries`: the flag `recorded` of `_deliver_outbox` is set behind the call,
-- so a call that raises leaves no row.
use agentops_control_plane.Base.{ℕ, String, ◌≡◌, ◌∙◌, refl, some, List, [], ◌∷◌, arith}
use agentops_control_plane.Base.Table.{Table}
use agentops_control_plane.Store.Rows.{OutboxEvent, Webhook}
use agentops_control_plane.Deliveries.{
  Send, Worker, raised, sending_of, deliver_outbox, settle, is_claimable,
}
use agentops_control_plane.Deliveries.Attempts.{
  deliver_at, delivered_row, row-deliver_outbox, webhooks-deliver_outbox,
}

delivered_row-destination :
    (send : Send) (now : ℕ) (webhooks : Table Webhook) (row : OutboxEvent)
    → (delivered_row send now webhooks row).destination ≡ row.destination
unfolding delivered_row settle is_claimable
delivered_row-destination send now webhooks row = ground arith

deliver_outbox-raised :
    (send : Send) (now id : ℕ) (w : Worker) (row : OutboxEvent) (e : String)
    → w.outbox.row id ≡ some row
    → sending_of send w.webhooks row row.destination ≡ raised e
    → (deliver_outbox send now id w).deliveries ≡ w.deliveries
unfolding deliver_outbox
deliver_outbox-raised send now id w row e there f = ground arith

-- While every call for the destination of a row fails, no delivery of the row, however often it is
-- made, leaves a row in `webhook_deliveries`.
pub deliver_at-unrecorded :
    (send : Send) (id : ℕ) (times : List ℕ) (w : Worker) (row : OutboxEvent) (e : String)
    → ((r : OutboxEvent)
        → r.destination ≡ row.destination
        → sending_of send w.webhooks r r.destination ≡ raised e)
    → w.outbox.row id ≡ some row
    → (deliver_at send id times w).deliveries ≡ w.deliveries
unfolding deliver_at
deliver_at-unrecorded send id [] w row e f there = refl
deliver_at-unrecorded send id (now ∷ times) w row e f there =
    let row' = delivered_row send now w.webhooks row in
    deliver_at-unrecorded send id times (deliver_outbox send now id w) row' e
      (λ r d.
        rw webhooks-deliver_outbox (f r (d ∙ delivered_row-destination send now w.webhooks row)))
      (ground (arith, row-deliver_outbox send now id w id))
    ∙ deliver_outbox-raised send now id w row e there (f row refl)
