-- ===== src/Schedules.antt =====
-- Schedules of src/agentops/service.py: `create_schedule`, `get_schedule`, `set_schedule_enabled` and
-- `run_due_schedules`. Times are in seconds.
pub mod Due
pub mod Round
use agentops_control_plane.Base.{
  ℕ, ◌+◌, String, Bool, true, ◌&&◌, Option, none, some, List, [], ◌∷◌, leb, keep,
}
use agentops_control_plane.Base.Table.{Table, insert, update, newest_first}
use agentops_control_plane.Base.Sorting.{sort_by}
use agentops_control_plane.Json.{Value}
use agentops_control_plane.Store.Rows.{Run, admin}
use agentops_control_plane.Store.Exec.{Db, Error, Exec, Result, ok, err}
use agentops_control_plane.Runs.Env.{Env}
use agentops_control_plane.Runs.Rows.{get_workflow}
use agentops_control_plane.Runs.Start.{start_run}

pub record Schedule : Type 0 where
  pub workflow_id : ℕ
  pub name : String
  pub input : Value
  pub interval_seconds : ℕ
  pub enabled : Bool
  pub next_run_at : ℕ
  pub last_run_id : Option ℕ

-- The database with its table of schedules.
pub record Timetable : Type 0 where
  pub db : Db
  pub schedules : Table Schedule

abbrev pub Timed : Type 0 → Type 0
Timed A = Timetable → Result A × Timetable

abbrev pub go_on : {A B : Type 0} → Result A → (A → Timed B) → Timed B
go_on (ok a) f t = f a t
go_on (err e) f t = (err e, t)

-- A method that leaves the schedules alone, and what follows it where it does not raise.
abbrev pub then_on : {A B : Type 0} → Exec A → (A → Timed B) → Timed B
then_on m f t = let (r, s) = m t.db in go_on r f (record t { db = s })

abbrev pub found : Option Schedule → Timed Schedule
found none t = (err (Error.not_found "schedule not found"), t)
found (some row) t = (ok row, t)

unfoldable pub get_schedule : ℕ → Timed Schedule
get_schedule id t = found (t.schedules.row id) t

-- `strip` is the method of `str`, `created_at` the time of the request.
unfoldable pub create_schedule : (String → String) → ℕ → ℕ → String → Value → ℕ → Timed Schedule
unfolding get_workflow get_schedule
create_schedule strip created_at workflow_id name payload interval =
    then_on (get_workflow workflow_id) λ workflow t. get_schedule t.schedules.next (record t {
      schedules =
          insert
            (record {
              workflow_id = workflow_id;
              name = strip name;
              input = payload;
              interval_seconds = interval;
              enabled = true;
              next_run_at = created_at;
              last_run_id = none;
            })
            t.schedules;
    })

abbrev pub set_schedule : ℕ → (Schedule → Schedule) → Timetable → Timetable
set_schedule id f t = record t { schedules = update id f t.schedules }

unfoldable pub set_schedule_enabled : ℕ → Bool → Timed Schedule
unfolding get_schedule
set_schedule_enabled id enabled t = elim (t.schedules.row id) [
  | none ↦ get_schedule id t
  | some row ↦ get_schedule id (set_schedule id (λ r. record r { enabled = enabled }) t)
]

-- enabled=1 AND next_run_at<=?
unfoldable pub is_due : ℕ → Schedule → Bool
is_due at row = row.enabled && leb row.next_run_at at

-- SELECT ... ORDER BY next_run_at
unfoldable pub due_rows : ℕ → Timetable → List (ℕ × Schedule)
unfolding is_due newest_first
due_rows at t =
    sort_by (λ row. row.1.next_run_at) (keep (λ row. is_due at row.1) (newest_first t.schedules))

module _ (env : Env) (execute : ℕ → Exec (Unit {0})) (at : ℕ) where
  -- The update behind the start of a schedule's run.
  unfoldable pub advance : ℕ → Schedule → ℕ → Timetable → Timetable
  advance id row run_id =
      set_schedule id
        λ r. record r { last_run_id = some run_id; next_run_at = at + row.interval_seconds }

  abbrev pub and_run :
      ℕ × Run → Result (List (ℕ × Run)) × Timetable → Result (List (ℕ × Run)) × Timetable
  and_run run (ok runs, t) = (ok (run ∷ runs), t)
  and_run run (err e, t) = (err e, t)

  -- The loop over the rows that were due.
  unfoldable pub run_rows : List (ℕ × Schedule) → Timed (List (ℕ × Run))
  unfolding start_run advance
  run_rows [] t = (ok [], t)
  run_rows ((id, row) ∷ rows) t =
      then_on (start_run env execute row.workflow_id row.input none true 100 admin none)
        (λ run t'. and_run run (run_rows rows (advance id row run.0 t'))) t

  unfoldable pub run_due_schedules : Timed (List (ℕ × Run))
  unfolding due_rows run_rows
  run_due_schedules t = run_rows (due_rows at t) t
