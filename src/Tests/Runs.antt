-- ===== src/Tests/Runs.antt =====
-- The theorems on runs, applied.
use agentops_control_plane.Base.{
  ℕ, none, some, false, List, [], ◌∷◌, ◌≡◌, refl, occurs, arith, ◌<◌, if◌then◌else◌,
}
use agentops_control_plane.Json.{text, null}
use agentops_control_plane.Store.Rows.{Run, RunStatus, admin, operator}
use agentops_control_plane.Store.Exec.{ok}
use agentops_control_plane.Runs.Agent.{workflow_ancestry}
use agentops_control_plane.Runs.Start.{
  execute_with, recover_incomplete_runs, is_incomplete, start_run,
}
use agentops_control_plane.Runs.Outbox.{view}
use agentops_control_plane.Runs.Plain.{Shows, interpret}
use agentops_control_plane.Runs.Plain.Loop.{execute_with-interpret}
use agentops_control_plane.Runs.Recovery.{recover_incomplete_runs_lem, start_run-idempotent}
use agentops_control_plane.Runs.Ancestry.{IsDescending, Chain, workflow_ancestry-Chain}
use agentops_control_plane.Tests.{env, db, run, waiting_run, workflow, child, execute}

execute_with-interpret_example :
    Shows db 1
      (interpret env operator 100 0 workflow.steps (text "input"))
      (execute_with env child 1 db)
execute_with-interpret_example =
    execute_with-interpret env child db 1 run workflow refl refl refl
      (tt, refl, (admin ∷ operator ∷ [], refl), (tt, refl, (admin ∷ operator ∷ [], refl), tt))
      (λ _ _. refl) (λ _. refl)

recover_incomplete_runs_example :
    let (result, s') = recover_incomplete_runs db in
    (ids : List ℕ) × (result ≡ ok ids)
    × ((k : ℕ) (r : Run)
        → k < db.runs.next
        → db.runs.row k ≡ some r
        → (occurs k ids ≡ is_incomplete r.status)
          × (s'.runs.row k
              ≡ some
                  (if is_incomplete r.status then record r { status = RunStatus.queued } else r)))
recover_incomplete_runs_example = recover_incomplete_runs_lem db

start_run-idempotent_example :
    (id : ℕ) × (r' : Run) × (start_run env execute 1 null none false 100 operator (some "key") db
      ≡ (ok (id, view env r'), db))
    × (db.runs.row id ≡ some r')
    × (r'.idempotency_key ≡ some "key")
    × (r'.workflow_id ≡ 1)
start_run-idempotent_example =
    start_run-idempotent env execute db 1 workflow null none false 100 operator "key" 1 run refl
      refl (omega arith) refl refl refl

db-IsDescending : IsDescending db
db-IsDescending = record { older = λ k p r there e. (ground arith, run, ground arith) }

workflow_ancestry-Chain_example :
    (ids : List ℕ) × (workflow_ancestry 2 db ≡ (ok ids, db)) × Chain db (some 2) ids
workflow_ancestry-Chain_example = workflow_ancestry-Chain db 2 waiting_run db-IsDescending refl
