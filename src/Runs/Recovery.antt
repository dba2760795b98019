-- ===== src/Runs/Recovery.antt =====
-- Runs that are found again: by their idempotency key in `start_run`, and after a restart in
-- `recover_incomplete_runs`.
use agentops_control_plane.Base.{
  eq_iff, ℕ, zero, suc, ◌<◌, ◌≤◌, String, Bool, true, false, ◌≡◌, refl, Option, some, none, List,
  arith, occurs, str_eq, Bool-cases, Option-cases, inl, inr, ◌==◌, ap, eq_of_==, if◌then◌else◌,
  ◌&&◌,
}
use agentops_control_plane.Base.Table.{rows_below, newest_first, holds}
use agentops_control_plane.Json.{Value}
use agentops_control_plane.Store.Rows.{Role, Run, RunStatus, Workflow}
use agentops_control_plane.Store.Exec.{Db, Exec, ok}
use agentops_control_plane.Runs.Env.{Env}
use agentops_control_plane.Runs.Outbox.{view}
use agentops_control_plane.Runs.Start.{
  start_run, find_key, same_text, recover_incomplete_runs, is_incomplete, incomplete_ids,
}

incomplete_ids-above :
    (n : ℕ) (row : ℕ → Option Run) (k : ℕ)
    → n ≤ k
    → occurs k (incomplete_ids (rows_below n row)) ≡ false
unfolding rows_below
incomplete_ids-above zero row k le = refl
incomplete_ids-above (suc n) row k le = ground (arith, incomplete_ids-above n row k (omega arith))

incomplete_ids-below :
    (n : ℕ) (row : ℕ → Option Run) (k : ℕ)
    → k < n
    → occurs k (incomplete_ids (rows_below n row)) ≡ holds (λ r. is_incomplete r.status) (row k)
unfolding rows_below
incomplete_ids-below zero row k lt = elim lt [ ]
incomplete_ids-below (suc n) row k lt = elim (Bool-cases (k == n)) [
  | inl same ↦ rw (eq_of_== k n same) (ground (arith, incomplete_ids-above n row n (omega arith)))
  | inr other ↦ ground (arith, incomplete_ids-below n row k (ground arith))
]

-- A restart hands every run that is queued or running to the queue again, and no other; it leaves
-- them queued, and every other run as it is.
pub recover_incomplete_runs_lem :
    (s : Db)
    → let (result, s') = recover_incomplete_runs s in
      (ids : List ℕ) × (result ≡ ok ids)
      × ((k : ℕ) (r : Run)
          → k < s.runs.next
          → s.runs.row k ≡ some r
          → (occurs k ids ≡ is_incomplete r.status)
            × (s'.runs.row k
                ≡ some
                    (if is_incomplete r.status then record r { status = RunStatus.queued } else r)))
unfolding recover_incomplete_runs newest_first
recover_incomplete_runs_lem s = (
  incomplete_ids (newest_first s.runs),
  refl,
  λ k r lt there. (ground (arith, incomplete_ids-below s.runs.next s.runs.row k lt), ground arith),
)

abbrev has_key : String → ℕ → Run → Bool
has_key key workflow_id r = same_text r.idempotency_key key && r.workflow_id == workflow_id

find_key-below :
    (key : String) (workflow_id n : ℕ) (row : ℕ → Option Run) (k : ℕ) (r : Run)
    → k < n
    → row k ≡ some r
    → has_key key workflow_id r ≡ true
    → (id : ℕ) × (r' : Run) × (find_key key workflow_id (rows_below n row) ≡ some (id, r'))
      × (row id ≡ some r')
      × (has_key key workflow_id r' ≡ true)
unfolding rows_below
find_key-below key workflow_id zero row k r lt there h = elim lt [ ]
find_key-below key workflow_id (suc n) row k r lt there h = elim (Option-cases (row n)) [
  | inl absent ↦ rw absent (find_key-below key workflow_id n row k r (ground arith) there h)
  | inr (b, e) ↦ elim (Bool-cases (has_key key workflow_id b)) [
    | inl own ↦ (n, b, ground arith, e, own)
    | inr other ↦
        let (id, r', found, stored, same) =
          find_key-below key workflow_id n row k r (ground arith) there h in
        (id, r', ground arith, stored, same)
  ]
]

same_text-eq :
    (stored : Option String) (key : String) → same_text stored key ≡ true → stored ≡ some key
same_text-eq none key h = grind arith
same_text-eq (some k) key h = ap some ((eq_iff k key).0 h)

-- A key that is not empty, and that a stored run of the workflow has, starts nothing: `start_run`
-- returns a run of that workflow with that key as a client sees it, and the database is left as it
-- was.
pub start_run-idempotent :
    (env : Env) (execute : ℕ → Exec (Unit {0})) (s : Db) (workflow_id : ℕ) (w : Workflow)
    (payload : Value) (parent : Option ℕ) (queued : Bool) (max_steps : ℕ) (role : Role)
    (key : String) (k : ℕ) (r : Run)
    → s.workflows.row workflow_id ≡ some w
    → str_eq key "" ≡ false
    → k < s.runs.next
    → s.runs.row k ≡ some r
    → r.idempotency_key ≡ some key
    → r.workflow_id ≡ workflow_id
    → (id : ℕ) × (r' : Run) × (start_run env execute workflow_id payload parent queued max_steps
          role
          (some key)
          s
        ≡ (ok (id, view env r'), s))
      × (s.runs.row id ≡ some r')
      × (r'.idempotency_key ≡ some key)
      × (r'.workflow_id ≡ workflow_id)
unfolding start_run newest_first
start_run-idempotent env execute s workflow_id w payload parent queued max_steps role key k r flow
      given lt there has at =
    let (id, r', found, stored, same) =
      find_key-below key workflow_id s.runs.next s.runs.row k r lt there
        (ground (arith, (eq_iff key key).1 refl)) in
    (id, r', ground arith, stored, same_text-eq r'.idempotency_key key (ground arith), ground arith)
