-- ===== src/Runs/Dispatch.antt =====
-- The idempotency keys of the outbox.
use agentops_control_plane.Base.{ℕ, Bool, true, ◌≡◌, refl, arith, Bool-cases, inl, inr}
use agentops_control_plane.Base.Table.{Table, any_row, any_below, insert}
use agentops_control_plane.Store.Rows.{Run, Event, Destination, OutboxEvent}
use agentops_control_plane.Runs.Env.{Env}
use agentops_control_plane.Runs.Outbox.{enqueue_outbox, same_key, same_destination, new_event}

same_destination_refl : (d : Destination) → same_destination d d ≡ true
same_destination_refl (Destination.webhook i) = ground arith
same_destination_refl Destination.slack = refl
same_destination_refl Destination.email = refl

same_key-new_event :
    (env : Env) (event : Event) (run_id : ℕ) (d : Destination) (run : Run)
    → same_key event run_id d (new_event env event run_id d run) ≡ true
unfolding new_event
same_key-new_event env event run_id d run = ground (arith, same_destination_refl d)

any_row-insert :
    (p : OutboxEvent → Bool) (a : OutboxEvent) (t : Table OutboxEvent)
    → p a ≡ true
    → any_row p (insert a t) ≡ true
unfolding any_row any_below
any_row-insert p a t h = ground arith

-- Once an event of a run is in the outbox for a destination, enqueueing it again, with whatever
-- payload, leaves the outbox as it is.
pub enqueue_outbox-once :
    (env : Env) (event : Event) (run_id : ℕ) (d : Destination) (run later : Run)
    (t : Table OutboxEvent)
    → enqueue_outbox env event run_id d later (enqueue_outbox env event run_id d run t)
      ≡ enqueue_outbox env event run_id d run t
unfolding enqueue_outbox
enqueue_outbox-once env event run_id d run later t =
    elim (Bool-cases (any_row (same_key event run_id d) t)) [
      | inl taken ↦ ground arith
      | inr free ↦ ground (
        arith,
        any_row-insert (same_key event run_id d) (new_event env event run_id d run) t
            (same_key-new_event env event run_id d run),
      )
    ]
