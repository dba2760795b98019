-- ===== src/Schedules/Round.antt =====
-- `run_due_schedules` of src/agentops/service.py as a whole.
use agentops_control_plane.Base.{
  ℕ, zero, suc, ◌+◌, ◌≤◌, ◌<◌, Bool, true, false, ◌≡◌, refl, ◌∙◌, ap, Option, some, List, [], arith,
  length, tally, keep, ltb, ◌&&◌, ◌==◌, Bool-cases, Option-cases, inl, inr, eq_of_==, if◌then◌else◌,
}
use agentops_control_plane.Base.Table.{newest_first, rows_below, holds}
use agentops_control_plane.Base.Sorting.{
  Stored, Stored-rows_below, tally-sort_by, All, All-sort_by, All-keep, All-map,
}
use agentops_control_plane.Store.Rows.{Run, Workflow}
use agentops_control_plane.Store.Exec.{Exec, ok}
use agentops_control_plane.Runs.Env.{Env}
use agentops_control_plane.Schedules.{
  Schedule, Timetable, is_due, due_rows, run_rows, run_due_schedules,
}
use agentops_control_plane.Schedules.Due.{
  has_id, AllAre, Started, Advances, HasFlow, run_rows-Advances,
}

-- The foreign key of the schedules, their ids, and the least interval.
pub record IsSound (t : Timetable) : Type 0 where
  pub flows :
      (k : ℕ) (row : Schedule)
      → t.schedules.row k ≡ some row
      → (w : Workflow) × (t.db.workflows.row row.workflow_id ≡ some w)
  pub within : (k : ℕ) (row : Schedule) → t.schedules.row k ≡ some row → k < t.schedules.next
  pub intervals : (k : ℕ) (row : Schedule) → t.schedules.row k ≡ some row → 1 ≤ row.interval_seconds

module _ (at : ℕ) where
  abbrev due : ℕ × Schedule → Bool
  due row = is_due at row.1

  Stored-due_rows : (t : Timetable) → All (Stored t.schedules.row) (due_rows at t)
  unfolding due_rows newest_first
  Stored-due_rows t =
      let rows = rows_below t.schedules.next t.schedules.row in
      All-sort_by (Stored t.schedules.row) (λ row. row.1.next_run_at) (keep due rows)
        (All-keep (Stored t.schedules.row) due rows
          (Stored-rows_below t.schedules.next t.schedules.row))

  tally-above :
      (n : ℕ) (row : ℕ → Option Schedule) (k : ℕ)
      → n ≤ k
      → tally (has_id k) (keep due (rows_below n row)) ≡ 0
  unfolding rows_below
  tally-above zero row k le = refl
  tally-above (suc n) row k le = ground (arith, tally-above n row k (omega arith))

  tally-below :
      (n : ℕ) (row : ℕ → Option Schedule) (k : ℕ)
      → k < n
      → tally (has_id k) (keep due (rows_below n row))
        ≡ (if holds (is_due at) (row k) then 1 else 0)
  unfolding rows_below
  tally-below zero row k lt = elim lt [ ]
  tally-below (suc n) row k lt = elim (Bool-cases (k == n)) [
    | inl same ↦ rw (eq_of_== k n same) (ground (arith, tally-above n row n (omega arith)))
    | inr other ↦ ground (arith, tally-below n row k (ground arith))
  ]

  -- How often an id is among the rows that are due.
  tally-due_rows :
      (t : Timetable) (k : ℕ)
      → tally (has_id k) (due_rows at t)
        ≡ (if ltb k t.schedules.next && holds (is_due at) (t.schedules.row k) then 1 else 0)
  unfolding due_rows newest_first
  tally-due_rows t k =
      let n = t.schedules.next in
      let row = t.schedules.row in
      tally-sort_by (λ r. r.1.next_run_at) (has_id k) (keep due (rows_below n row))
      ∙ elim (Bool-cases (ltb k n)) [
        | inl below ↦ ground (arith, tally-below n row k (ground arith))
        | inr above ↦ ground (arith, tally-above n row k (ground arith))
      ]

  keep-none :
      (n : ℕ) (row : ℕ → Option Schedule)
      → ((k : ℕ) (r : Schedule) → row k ≡ some r → is_due at r ≡ false)
      → keep due (rows_below n row) ≡ []
  unfolding rows_below
  keep-none zero row h = refl
  keep-none (suc n) row h = elim (Option-cases (row n)) [
    | inl absent ↦ rw absent (keep-none n row h)
    | inr (r, there) ↦ rw (there, h n r there) (keep-none n row h)
  ]

  run_due_schedules-none :
      (env : Env) (execute : ℕ → Exec (Unit {0})) (t : Timetable)
      → ((k : ℕ) (r : Schedule) → t.schedules.row k ≡ some r → is_due at r ≡ false)
      → run_due_schedules env execute at t ≡ (ok [], t)
  unfolding run_due_schedules due_rows newest_first run_rows
  run_due_schedules-none env execute t h = rw (keep-none t.schedules.next t.schedules.row h) refl

  -- Only the row that is stored under an id is in the list under it.
  AllAre-due_rows :
      (t : Timetable) (k : ℕ) (r : Schedule)
      → t.schedules.row k ≡ some r
      → AllAre k r (due_rows at t)
  AllAre-due_rows t k r there =
      All-map (Stored t.schedules.row) (λ x. (x.0 == k) ≡ true → x.1 ≡ r) (due_rows at t)
        (λ x stored same. ground (arith, ap t.schedules.row (eq_of_== x.0 k same)))
        (Stored-due_rows t)

  module _ (env : Env) (execute : ℕ → Exec (Unit {0})) where
    -- What a round does to a schedule.
    abbrev pub Advanced : ℕ → Schedule → Timetable → Timetable → Type 0
    Advanced k row t t' =
        (is_due at row ≡ true → Started env execute at k row row t t')
        × (is_due at row ≡ false → t'.schedules.row k ≡ some row)

    Advances-row :
        (t t' : Timetable) (k : ℕ) (row : Schedule)
        → IsSound t
        → Advances env execute at (due_rows at t) t t'
        → t.schedules.row k ≡ some row
        → Advanced k row t t'
    Advances-row t t' k row h a there =
        let below = h.within k row there in
        (
          (λ is_now.
              a.moved k row row (AllAre-due_rows t k row there) (ground (arith, tally-due_rows t k))
                there),
          (λ later. a.others k (ground (arith, tally-due_rows t k)) ∙ there),
        )

    Advances-again :
        (t t' : Timetable)
        → IsSound t
        → Advances env execute at (due_rows at t) t t'
        → (k : ℕ) (r : Schedule) → t'.schedules.row k ≡ some r
        → is_due at r ≡ false
    unfolding is_due
    Advances-again t t' h a k r e = elim (Option-cases (t.schedules.row k)) [
      | inl absent ↦ let same = a.others k (ground (arith, tally-due_rows t k)) in ground arith
      | inr (old, there) ↦
          let (moved, kept) = Advances-row t t' k old h a there in
          let interval = h.intervals k old there in
          elim (Bool-cases (is_due at old)) [
            | inl was ↦ let (id, after, before, now, run) = moved was in ground arith
            | inr later ↦ let same = kept later in ground arith
          ]
    ]

-- A round at a time, where each schedule has its workflow and an interval of at least a second:
-- every schedule that is due starts one queued run of its workflow with its input, which becomes its
-- last run, and is due next one interval after this time; every other schedule is left as it is.
-- There are no other new runs, no run that was there changes, and a second round at the same time
-- starts nothing and changes nothing.
pub run_due_schedules-Advanced :
    (env : Env) (execute : ℕ → Exec (Unit {0})) (at : ℕ) (t : Timetable)
    → IsSound t
    → (runs : List (ℕ × Run)) × (t' : Timetable) × (run_due_schedules env execute at t
        ≡ (ok runs, t'))
      × ((k : ℕ) (row : Schedule)
          → t.schedules.row k ≡ some row
          → Advanced at env execute k row t t')
      × (t'.db.runs.next ≡ t.db.runs.next + length runs)
      × (length runs ≡ length (due_rows at t))
      × ((j : ℕ) → j < t.db.runs.next → t'.db.runs.row j ≡ t.db.runs.row j)
      × (run_due_schedules env execute at t' ≡ (ok [], t'))
unfolding run_due_schedules
run_due_schedules-Advanced env execute at t h =
    let flows =
      All-map (Stored t.schedules.row) (HasFlow env execute at t.db) (due_rows at t)
        (λ x stored. h.flows x.0 x.1 stored) (Stored-due_rows at t) in
    let (runs, t', e, same, a) = run_rows-Advances env execute at (due_rows at t) t flows in
    (
      runs,
      t',
      e,
      (λ k row there. Advances-row at env execute t t' k row h a there),
      omega (arith, a.next, same),
      same,
      a.older,
      run_due_schedules-none at env execute t' (Advances-again at env execute t t' h a),
    )
