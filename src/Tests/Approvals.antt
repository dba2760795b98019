-- ===== src/Tests/Approvals.antt =====
-- The theorems on approvals, applied.
use agentops_control_plane.Base.{ℕ, none, some, true, ◌≡◌, ◌≢◌, refl, arith}
use agentops_control_plane.Base.Table.{map_row, any_row}
use agentops_control_plane.Json.{text}
use agentops_control_plane.Store.Rows.{Approval, ApprovalStatus, Run, RunStatus, operator}
use agentops_control_plane.Store.Exec.{ok, err, Error}
use agentops_control_plane.Runs.Env.{Env}
use agentops_control_plane.Runs.Outbox.{view}
use agentops_control_plane.Runs.Pause.{pause_writes, cancel_run, new_approval}
use agentops_control_plane.Approvals.{
  approved, rejected, apply_decision, decide_approval, expire_approvals, has_expired, Actor,
}
use agentops_control_plane.Approvals.Linked.{IsLinked, Waits, apply_decision-IsLinked}
use agentops_control_plane.Approvals.Sweep.{swept, pause_writes-IsLinked}
use agentops_control_plane.Approvals.Expiry.{expire_approvals_lem, expired_decision-strands}
use agentops_control_plane.Approvals.Rejects.{IsRejected}
use agentops_control_plane.Approvals.Decisions.{approve-pause, cancel_run_lem}
use agentops_control_plane.Tests.{env, db, run, waiting_run, workflow, pending, no_config, execute}

db-IsLinked : IsLinked db
db-IsLinked = record {
  linked = λ id a there p. (waiting_run, ground arith, refl, ground arith);
  unique = λ i j a b ra rb e e'. ground arith;
  within = λ k h. ground arith;
}

expire_approvals_example :
    let s' = (expire_approvals env 1000 db).1 in
    IsLinked s'
    × ((k : ℕ) → s'.approvals.row k ≡ map_row (swept 1000) (db.approvals.row k))
    × ((k : ℕ) (a : Approval)
        → db.approvals.row k ≡ some a
        → has_expired 1000 a ≡ true
        → IsRejected s' a.run_id)
expire_approvals_example = expire_approvals_lem env 1000 db db-IsLinked

expired_decision-strands_example :
    let (result, s') = decide_approval env execute 1 approved "" none none db in
    (result ≡ err (Error.conflict "approval has expired"))
    × ((expire_approvals env 2000 s').1.runs.row 2 ≡ db.runs.row 2)
    × Waits db pending
expired_decision-strands_example =
    expired_decision-strands env 2000 execute db 1 pending approved "" none none db-IsLinked refl
      refl refl

abbrev cancelled_run : Run
cancelled_run = record waiting_run {
  status = RunStatus.cancelled;
  error = some "cancelled by operator";
  finished_at = some 1000;
}

cancel_run_example :
    let (result, s') = cancel_run env 2 db in
    (result ≡ ok (view env cancelled_run))
    × (s'.runs.row 2 ≡ some cancelled_run)
    × ((k : ℕ) (a : Approval)
        → s'.approvals.row k ≡ some a
        → a.run_id ≡ 2
        → a.status ≢ ApprovalStatus.pending)
    × ((k : ℕ) → k ≢ 2 → s'.runs.row k ≡ db.runs.row k)
    × IsLinked s'
cancel_run_example = cancel_run_lem env db 2 waiting_run workflow db-IsLinked refl refl refl

apply_decision-IsLinked_example : IsLinked (apply_decision env 1 pending rejected "no" none none db)
apply_decision-IsLinked_example =
    apply_decision-IsLinked env db-IsLinked 1 pending refl refl rejected "no" none none

pause_writes-IsLinked_example : IsLinked (pause_writes env 1 0 no_config (text "v") db)
unfolding any_row
pause_writes-IsLinked_example =
    pause_writes-IsLinked env db-IsLinked 1 0 no_config (text "v") run refl (λ e. grind arith) refl

approve-pause_example :
    let a = new_approval env 1 0 no_config in
    let paused = pause_writes env 1 0 no_config (text "v") db in
    (paused.approvals.row 2 ≡ some a)
    × ((apply_decision env 2 a approved "" none none paused).runs.row 1
        ≡ some
            (record run { status = RunStatus.running; output = some (text "v"); current_step = 1 }))
approve-pause_example = approve-pause env db 1 0 no_config (text "v") "" none run refl

-- The time of the decision is before the approval's.
abbrev earlier : Env
earlier = record env { now = 800 }

abbrev decider : Actor
decider = record { name = "alice"; role = operator }

abbrev decided_run : Run
decided_run = record waiting_run { status = RunStatus.running; current_step = 2 }

decide_approval-ok :
    (decide_approval earlier execute 1 approved "" none (some decider) db).0
    ≡ ok (view earlier decided_run)
unfolding decide_approval
decide_approval-ok = refl
