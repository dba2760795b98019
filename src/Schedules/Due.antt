-- ===== src/Schedules/Due.antt =====
-- A round of `run_due_schedules`.
use agentops_control_plane.Base.{
  ℕ, ◌+◌, ◌≤◌, ◌<◌, Bool, true, ◌≡◌, ◌≢◌, refl, sym, ◌∙◌, none, some, List, [], ◌∷◌, arith, ◌&&◌,
  length, tally, ◌==◌, Bool-cases, inl, inr, ==_refl, eq_of_==, if◌then◌else◌,
}
use agentops_control_plane.Base.Table.{insert, any_row-none, map_row}
use agentops_control_plane.Base.Sorting.{All}
use agentops_control_plane.Json.{Value}
use agentops_control_plane.Store.Rows.{Run, Workflow, admin}
use agentops_control_plane.Store.Exec.{Db, Exec, ok}
use agentops_control_plane.Runs.Env.{Env}
use agentops_control_plane.Runs.Outbox.{view}
use agentops_control_plane.Runs.Start.{start_run, new_run, same_key}
use agentops_control_plane.Schedules.{Schedule, Timetable, advance, run_rows, and_run}

abbrev pub has_id : ℕ → ℕ × Schedule → Bool
has_id k row = row.0 == k

-- The only row of the list with this id.
abbrev pub AllAre : ℕ → Schedule → List (ℕ × Schedule) → Type 0
AllAre k row rows = All (λ r. (r.0 == k) ≡ true → r.1 ≡ row) rows

module _ (env : Env) (execute : ℕ → Exec (Unit {0})) where
  -- The run of a schedule.
  abbrev pub scheduled : ℕ → Value → Run
  scheduled workflow_id payload = new_run env workflow_id payload none true 100 admin none

  start_run-scheduled :
      (s : Db) (workflow_id : ℕ) (w : Workflow) (payload : Value)
      → s.workflows.row workflow_id ≡ some w
      → start_run env execute workflow_id payload none true 100 admin none s ≡ (
        ok (s.runs.next, view env (scheduled workflow_id payload)),
        record s { runs = insert (scheduled workflow_id payload) s.runs },
      )
  unfolding start_run
  start_run-scheduled s workflow_id w payload flow =
      let free =
        any_row-none (λ r. r.workflow_id == workflow_id && same_key r.idempotency_key none) s.runs
          (λ r. ground arith) in
      ground (arith, free)

  module _ (at : ℕ) where
    -- A schedule whose run was started between two states: when it is due again, and the run.
    abbrev pub Started : ℕ → Schedule → Schedule → Timetable → Timetable → Type 0
    Started k row old t t' =
        (id : ℕ) × (t.db.runs.next ≤ id)
        × (id < t'.db.runs.next)
        × (t'.schedules.row k
            ≡ some (record old { last_run_id = some id; next_run_at = at + row.interval_seconds }))
        × (t'.db.runs.row id ≡ some (scheduled row.workflow_id row.input))

    -- What a list of rows does to a state.
    pub record Advances (rows : List (ℕ × Schedule)) (t t' : Timetable) : Type 0 where
      pub next : t'.db.runs.next ≡ t.db.runs.next + length rows
      pub older : (j : ℕ) → j < t.db.runs.next → t'.db.runs.row j ≡ t.db.runs.row j
      pub others : (k : ℕ) → tally (has_id k) rows ≡ 0 → t'.schedules.row k ≡ t.schedules.row k
      pub moved :
          (k : ℕ) (row old : Schedule)
          → AllAre k row rows
          → tally (has_id k) rows ≢ 0
          → t.schedules.row k ≡ some old
          → Started k row old t t'

    -- The state behind the first row.
    abbrev first : ℕ → Schedule → Timetable → Timetable
    first id row t = advance env execute at id row t.db.runs.next (record t {
      db = record t.db { runs = insert (scheduled row.workflow_id row.input) t.db.runs };
    })

    run_rows-cons :
        (id : ℕ) (row : Schedule) (rows : List (ℕ × Schedule)) (t : Timetable) (w : Workflow)
        → t.db.workflows.row row.workflow_id ≡ some w
        → run_rows env execute at ((id, row) ∷ rows) t
          ≡ and_run env execute at
              (t.db.runs.next, view env (scheduled row.workflow_id row.input))
              (run_rows env execute at rows (first id row t))
    unfolding run_rows
    run_rows-cons id row rows t w flow =
        rw (start_run-scheduled t.db row.workflow_id w row.input flow) refl

    first-row :
        (id : ℕ) (row : Schedule) (t : Timetable) (k : ℕ)
        → (first id row t).schedules.row k ≡ (
            if k == id
            then map_row
                (λ r. record r {
                  last_run_id = some t.db.runs.next;
                  next_run_at = at + row.interval_seconds;
                })
                (t.schedules.row k)
            else t.schedules.row k)
    unfolding advance
    first-row id row t k = refl

    first-db :
        (id : ℕ) (row : Schedule) (t : Timetable)
        → (first id row t).db
          ≡ record t.db { runs = insert (scheduled row.workflow_id row.input) t.db.runs }
    unfolding advance
    first-db id row t = refl

    first-older :
        (id : ℕ) (row : Schedule) (t : Timetable) (j : ℕ)
        → j < t.db.runs.next
        → (first id row t).db.runs.row j ≡ t.db.runs.row j
    first-older id row t j lt = rw (first-db id row t) (ground arith)

    -- What the first row sets its schedule to.
    abbrev set_to : Schedule → ℕ → Schedule → Schedule
    set_to row run_id old = record old {
      last_run_id = some run_id;
      next_run_at = at + row.interval_seconds;
    }

    first-there :
        (id : ℕ) (row old : Schedule) (t : Timetable)
        → t.schedules.row id ≡ some old
        → (first id row t).schedules.row id ≡ some (set_to row t.db.runs.next old)
    first-there id row old t there = rw (first-row id row t id, there, ==_refl id) refl

    first-new :
        (id : ℕ) (row : Schedule) (t : Timetable)
        → (first id row t).db.runs.row t.db.runs.next ≡ some (scheduled row.workflow_id row.input)
    first-new id row t = rw (first-db id row t, ==_refl t.db.runs.next) refl

    first-next :
        (id : ℕ) (row : Schedule) (t : Timetable)
        → (first id row t).db.runs.next ≡ t.db.runs.next + 1
    first-next id row t = rw (first-db id row t) refl

    Advances-nil : (t : Timetable) → Advances [] t t
    Advances-nil t = record {
      next = omega arith;
      older = λ j lt. refl;
      others = λ k none_of. refl;
      moved = λ k row old are some_of there. absurd (some_of refl);
    }

    -- The run of the first row stays, and so does what its schedule was set to, unless a later row
    -- has the same id.
    Started-first :
        (id : ℕ) (row : Schedule) (rows : List (ℕ × Schedule)) (t t' : Timetable) (old : Schedule)
        → Advances rows (first id row t) t'
        → AllAre id row rows
        → t.schedules.row id ≡ some old
        → Started id row old t t'
    Started-first id row rows t t' old a are there =
        let n = t.db.runs.next in
        let more : n < (first id row t).db.runs.next = omega (arith, first-next id row t) in
        let here = first-there id row old t there in
        elim (Bool-cases (tally (has_id id) rows == 0)) [
          | inl last ↦ (
            n,
            omega arith,
            omega (arith, a.next),
            a.others id (eq_of_== (tally (has_id id) rows) 0 last) ∙ here,
            a.older n more ∙ first-new id row t,
          )
          | inr again ↦
              let (run_id, after, below, moved, run) =
                a.moved id row (set_to row n old) are (ground arith) here in
              (run_id, omega arith, below, moved, run)
        ]

    Advances-cons :
        (id : ℕ) (row : Schedule) (rows : List (ℕ × Schedule)) (t t' : Timetable)
        → Advances rows (first id row t) t'
        → Advances ((id, row) ∷ rows) t t'
    Advances-cons id row rows t t' a =
        let more : t.db.runs.next + 1 ≡ (first id row t).db.runs.next = sym (first-next id row t) in
        record {
          next = omega (arith, a.next);
          older = λ j lt. a.older j (omega arith) ∙ first-older id row t j lt;
          others = λ k absent. ground (arith, a.others k (ground arith), first-row id row t k);
          moved = λ k row' old are some_of there. elim (Bool-cases (id == k)) [
            | inl same ↦
                let at_id = eq_of_== id k same in
                let is_row = are.0 same in
                let are_row : AllAre id row rows = rw (at_id, is_row) are.1 in
                let is_there : t.schedules.row id ≡ some old = rw at_id there in
                rw (← at_id, ← is_row) (Started-first id row rows t t' old a are_row is_there)
            | inr other ↦
                let (run_id, after, below, moved, run) =
                  a.moved k row' old are.1 (ground arith) (ground (arith, first-row id row t k)) in
                (run_id, omega arith, below, moved, run)
          ];
        }

    -- The workflow of a row of the list.
    abbrev pub HasFlow : Db → ℕ × Schedule → Type 0
    HasFlow s row = (w : Workflow) × (s.workflows.row row.1.workflow_id ≡ some w)

    pub run_rows-Advances :
        (rows : List (ℕ × Schedule)) (t : Timetable)
        → All (HasFlow t.db) rows
        → (runs : List (ℕ × Run)) × (t' : Timetable) × (run_rows env execute at rows t
            ≡ (ok runs, t'))
          × (length runs ≡ length rows)
          × Advances rows t t'
    unfolding run_rows
    run_rows-Advances [] t flows = ([], t, refl, refl, Advances-nil t)
    run_rows-Advances ((id, row) ∷ rows) t (flow, flows) =
        let (w, there) = flow in
        let (runs, t', e, same, a) =
          run_rows-Advances rows (first id row t) (rw (first-db id row t) flows) in
        (
          (t.db.runs.next, view env (scheduled row.workflow_id row.input)) ∷ runs,
          t',
          run_rows-cons id row rows t w there ∙ rw e refl,
          omega (arith, same),
          Advances-cons id row rows t t' a,
        )
