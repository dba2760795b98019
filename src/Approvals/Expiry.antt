-- ===== src/Approvals/Expiry.antt =====
-- `expire_approvals` as a whole, and what becomes of a run whose approval expires.
use agentops_control_plane.Base.{
  ℕ, String, true, ◌≡◌, ◌≢◌, refl, Option, some, arith, Option-cases, inl, inr, List, [], ◌∷◌,
  if◌then◌else◌,
}
use agentops_control_plane.Base.Table.{newest_first, rows_below, map_row}
use agentops_control_plane.Json.{Value}
use agentops_control_plane.Store.Rows.{Approval, ApprovalStatus, Event}
use agentops_control_plane.Store.Exec.{Db, Error, err, Exec}
use agentops_control_plane.Runs.Env.{Env}
use agentops_control_plane.Runs.Outbox.{dispatch_webhooks}
use agentops_control_plane.Runs.Frames.{dispatch_webhooks_frame}
use agentops_control_plane.Runs.Pause.{is_pending}
use agentops_control_plane.Approvals.{
  Actor, Decision, expire_rows, expired_rows, has_expired, is_due, expire_approvals, announce,
  decide_approval, set_approval,
}
use agentops_control_plane.Approvals.Linked.{IsLinked, pending_unique, Waits}
use agentops_control_plane.Approvals.Sweep.{
  Ready-expired_rows, swept, expire_rows-IsLinked, expire_rows-row,
}
use agentops_control_plane.Approvals.Rejects.{IsRejected, expire_rows-rejects, expire_rows-run_ne}

module _ (env : Env) where
  announce_frame :
      (rows : List (ℕ × Approval)) (s : Db)
      → (announce env rows s).1 ≡ record s { outbox = (announce env rows s).1.outbox }
  unfolding announce
  announce_frame [] s = refl
  announce_frame ((id, a) ∷ rest) s = ground (
    arith,
    dispatch_webhooks_frame env a.run_id Event.approval_expired s,
    announce_frame rest (dispatch_webhooks env a.run_id Event.approval_expired s).1,
  )

  -- The state after a sweep, but for the outbox.
  expire_approvals_frame :
      (cutoff : ℕ) (s : Db)
      → (expire_approvals env cutoff s).1
        ≡ record (expire_rows cutoff (expired_rows cutoff (newest_first s.approvals)) s) {
          outbox = (expire_approvals env cutoff s).1.outbox;
        }
  unfolding expire_approvals
  expire_approvals_frame cutoff s =
      let rows = expired_rows cutoff (newest_first s.approvals) in
      ground (arith, announce_frame rows (expire_rows cutoff rows s))

pub IsLinked-outbox : (s t : Db) → t ≡ record s { outbox = t.outbox } → IsLinked s → IsLinked t
IsLinked-outbox s t e l = rw e (record { linked = l.linked; unique = l.unique; within = l.within })

-- The approval after a decision that came too late.
abbrev marked : ℕ → Db → Db
marked id =
    set_approval id
      λ x. if is_pending x.status then record x { status = ApprovalStatus.expired } else x

module _ (env : Env) (execute : ℕ → Exec (Unit {0})) where
  late_decision :
      (s : Db) (id : ℕ) (a : Approval) (decision : Decision) (note : String) (out : Option Value)
      (actor : Option Actor)
      → s.approvals.row id ≡ some a
      → a.status ≡ ApprovalStatus.pending
      → is_due env.now a.expires_at ≡ true
      → decide_approval env execute id decision note out actor s
        ≡ (err (Error.conflict "approval has expired"), marked id s)
  unfolding decide_approval
  late_decision s id a decision note out actor there pending due = ground arith

away-marked :
    (s : Db) (id : ℕ) (a : Approval)
    → IsLinked s
    → s.approvals.row id ≡ some a
    → a.status ≡ ApprovalStatus.pending
    → (k : ℕ) (b : Approval) → (marked id s).approvals.row k ≡ some b
    → b.status ≡ ApprovalStatus.pending
    → b.run_id ≢ a.run_id
away-marked s id a l there pending k b e p same = elim (Option-cases (s.approvals.row k)) [
  | inl absent ↦ absurd (ground arith)
  | inr (old, was) ↦ absurd (ground (arith, pending_unique l id k a old))
]

module _ (env : Env) (cutoff : ℕ) where
  -- Where approvals and runs are tied, the sweep marks exactly the pending approvals past their time
  -- as expired and rejects the run of each of them, every other approval stays as it is, and
  -- approvals and runs are tied after it.
  pub expire_approvals_lem :
      (s : Db)
      → IsLinked s
      → let s' = (expire_approvals env cutoff s).1 in
        IsLinked s'
        × ((k : ℕ) → s'.approvals.row k ≡ map_row (swept cutoff) (s.approvals.row k))
        × ((k : ℕ) (a : Approval)
            → s.approvals.row k ≡ some a
            → has_expired cutoff a ≡ true
            → IsRejected s' a.run_id)
  unfolding newest_first
  expire_approvals_lem s l =
      let n = s.approvals.next in
      let rows = expired_rows cutoff (rows_below n s.approvals.row) in
      let e = expire_approvals_frame env cutoff s in
      (
        IsLinked-outbox (expire_rows cutoff rows s) (expire_approvals env cutoff s).1 e
            (expire_rows-IsLinked cutoff n rows s l (Ready-expired_rows cutoff n s)),
        (λ k. rw e (ground (arith, expire_rows-row cutoff n s s (λ j h. refl) k, l.within k))),
        (λ k a there due.
            let (r, exists, waits, at) = l.linked k a there (ground arith) in
            rw e (
              expire_rows-rejects cutoff n s s k a (ground (arith, l.within k)) there due
                (r, exists))),
      )

  -- Where approvals and runs are tied, a decision that comes after the time of a pending approval
  -- but before a sweep is refused, the run waits as before, and no later sweep, at any time, touches
  -- it.
  pub expired_decision-strands :
      (execute : ℕ → Exec (Unit {0})) (s : Db) (id : ℕ) (a : Approval) (decision : Decision)
      (note : String) (out : Option Value) (actor : Option Actor)
      → IsLinked s
      → s.approvals.row id ≡ some a
      → a.status ≡ ApprovalStatus.pending
      → is_due env.now a.expires_at ≡ true
      → let (result, s') = decide_approval env execute id decision note out actor s in
        (result ≡ err (Error.conflict "approval has expired"))
        × ((expire_approvals env cutoff s').1.runs.row a.run_id ≡ s.runs.row a.run_id)
        × Waits s a
  unfolding newest_first
  expired_decision-strands execute s id a decision note out actor l there pending due =
      let t = marked id s in
      let rows = expired_rows cutoff (rows_below t.approvals.next t.approvals.row) in
      rw (late_decision env execute s id a decision note out actor there pending due) (
        refl,
        rw (expire_approvals_frame env cutoff t) (
            expire_rows-run_ne cutoff t.approvals.next rows t t a.run_id
              (Ready-expired_rows cutoff t.approvals.next t) (away-marked s id a l there pending)),
        l.linked id a there pending,
      )
