-- ===== src/Tests/Schedules.antt =====
-- Schedules: one that is due at time 1000, and one that is not.
use agentops_control_plane.Base.{ℕ, ◌+◌, ◌<◌, true, some, none, [], ◌≡◌, refl, List, length, arith}
use agentops_control_plane.Base.Table.{empty, insert, newest_first}
use agentops_control_plane.Json.{text}
use agentops_control_plane.Store.Rows.{Run}
use agentops_control_plane.Store.Exec.{Error, ok, err}
use agentops_control_plane.Schedules.{
  Schedule, Timetable, run_due_schedules, due_rows, is_due, create_schedule,
}
use agentops_control_plane.Schedules.Round.{IsSound, Advanced, run_due_schedules-Advanced}
use agentops_control_plane.Tests.{env, db, execute, workflow}

abbrev hourly : Schedule
hourly = record {
  workflow_id = 1;
  name = "hourly";
  input = text "input";
  interval_seconds = 3600;
  enabled = true;
  next_run_at = 900;
  last_run_id = none;
}

abbrev timetable : Timetable
timetable = record {
  db = db;
  schedules = insert (record hourly { next_run_at = 1001 }) (insert hourly empty);
}

timetable-IsSound : IsSound timetable
timetable-IsSound = record {
  flows = λ k row there. (workflow, ground arith);
  within = λ k row there. ground arith;
  intervals = λ k row there. ground arith;
}

run_due_schedules-Advanced_example :
    (runs : List (ℕ × Run)) × (t' : Timetable) × (run_due_schedules env execute 1000 timetable
      ≡ (ok runs, t'))
    × ((k : ℕ) (row : Schedule)
        → timetable.schedules.row k ≡ some row
        → Advanced 1000 env execute k row timetable t')
    × (t'.db.runs.next ≡ timetable.db.runs.next + length runs)
    × (length runs ≡ length (due_rows 1000 timetable))
    × ((j : ℕ) → j < timetable.db.runs.next → t'.db.runs.row j ≡ timetable.db.runs.row j)
    × (run_due_schedules env execute 1000 t' ≡ (ok [], t'))
run_due_schedules-Advanced_example =
    run_due_schedules-Advanced env execute 1000 timetable timetable-IsSound

due_rows-timetable : length (due_rows 1000 timetable) ≡ 1
unfolding due_rows is_due newest_first
due_rows-timetable = refl

create_schedule-missing :
    (create_schedule (λ s. s) 1000 7 "daily" (text "input") 86400 timetable).0
    ≡ err (Error.not_found "workflow not found")
unfolding create_schedule
create_schedule-missing = refl
