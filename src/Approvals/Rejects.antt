-- ===== src/Approvals/Rejects.antt =====
-- What the sweep of `expire_approvals` of src/agentops/service.py does to the runs.
use agentops_control_plane.Base.{
  ℕ, zero, suc, ◌<◌, true, ◌≡◌, ◌≢◌, refl, sym, ◌∙◌, ap, some, arith, Bool-cases, Option-cases, inl,
  inr, ◌==◌, List, [], ◌∷◌, eq_of_==,
}
use agentops_control_plane.Base.Table.{rows_below}
use agentops_control_plane.Store.Rows.{Approval, ApprovalStatus, Run, RunStatus}
use agentops_control_plane.Store.Exec.{Db}
use agentops_control_plane.Approvals.{expire_row, expire_rows, expired_rows, has_expired}
use agentops_control_plane.Approvals.Sweep.{Ready}

abbrev pub IsRejected : Db → ℕ → Type 0
IsRejected s run_id = (r : Run) × (s.runs.row run_id ≡ some r) × (r.status ≡ RunStatus.rejected)

abbrev pub Exists : Db → ℕ → Type 0
Exists s run_id = (r : Run) × (s.runs.row run_id ≡ some r)

module _ (cutoff : ℕ) where
  expire_row-IsRejected :
      (id : ℕ) (a : Approval) (s : Db) (run_id : ℕ)
      → IsRejected s run_id
      → IsRejected (expire_row cutoff id a s) run_id
  unfolding expire_row
  expire_row-IsRejected id a s run_id (r, there, status) = elim (Bool-cases (run_id == a.run_id)) [
    | inl same ↦ (
      record r {
        status = RunStatus.rejected;
        error = some "approval expired";
        finished_at = some cutoff;
      },
      ground arith,
      refl,
    )
    | inr other ↦ (r, ground arith, status)
  ]

  expire_row-Exists :
      (id : ℕ) (a : Approval) (s : Db) (run_id : ℕ)
      → Exists s run_id
      → Exists (expire_row cutoff id a s) run_id
  unfolding expire_row
  expire_row-Exists id a s run_id (r, there) = elim (Bool-cases (run_id == a.run_id)) [
    | inl same ↦ (
      record r {
        status = RunStatus.rejected;
        error = some "approval expired";
        finished_at = some cutoff;
      },
      ground arith,
    )
    | inr other ↦ (r, ground arith)
  ]

  expire_row-rejects :
      (id : ℕ) (a : Approval) (s : Db)
      → Exists s a.run_id
      → IsRejected (expire_row cutoff id a s) a.run_id
  unfolding expire_row
  expire_row-rejects id a s (r, there) = (
    record r {
      status = RunStatus.rejected;
      error = some "approval expired";
      finished_at = some cutoff;
    },
    ground arith,
    refl,
  )

  expire_rows-IsRejected :
      (rows : List (ℕ × Approval)) (s : Db) (run_id : ℕ)
      → IsRejected s run_id
      → IsRejected (expire_rows cutoff rows s) run_id
  unfolding expire_rows
  expire_rows-IsRejected [] s run_id h = h
  expire_rows-IsRejected ((id, a) ∷ rest) s run_id h =
      expire_rows-IsRejected rest (expire_row cutoff id a s) run_id
        (expire_row-IsRejected id a s run_id h)

  -- The run of every approval that is listed is rejected.
  pub expire_rows-rejects :
      (n : ℕ) (s s' : Db) (k : ℕ) (a : Approval)
      → k < n
      → s.approvals.row k ≡ some a
      → has_expired cutoff a ≡ true
      → Exists s' a.run_id
      → IsRejected
          (expire_rows cutoff (expired_rows cutoff (rows_below n s.approvals.row)) s')
          a.run_id
  unfolding rows_below expire_rows
  expire_rows-rejects zero s s' k a lt e due x = elim lt [ ]
  expire_rows-rejects (suc n) s s' k a lt e due x = elim (Bool-cases (k == n)) [
    | inl same ↦
        let e' : s.approvals.row n ≡ some a = ap s.approvals.row (sym (eq_of_== k n same)) ∙ e in
        rw (e', due)
          (expire_rows-IsRejected (expired_rows cutoff (rows_below n s.approvals.row))
            (expire_row cutoff n a s') a.run_id (expire_row-rejects n a s' x))
    | inr other ↦
        let lt' : k < n = ground arith in
        elim (Option-cases (s.approvals.row n)) [
          | inl absent ↦ rw absent (expire_rows-rejects n s s' k a lt' e due x)
          | inr (b, there) ↦ elim (Bool-cases (has_expired cutoff b)) [
            | inl due' ↦
                rw (there, due')
                  (expire_rows-rejects n s (expire_row cutoff n b s') k a lt' e due
                    (expire_row-Exists n b s' a.run_id x))
            | inr kept ↦ rw (there, kept) (expire_rows-rejects n s s' k a lt' e due x)
          ]
        ]
  ]

  -- A run that no pending approval of a sweep belongs to is left alone.
  pub expire_rows-run_ne :
      (n : ℕ) (rows : List (ℕ × Approval)) (s s' : Db) (run_id : ℕ)
      → Ready cutoff n s rows
      → ((k : ℕ) (a : Approval)
          → s.approvals.row k ≡ some a
          → a.status ≡ ApprovalStatus.pending
          → a.run_id ≢ run_id)
      → (expire_rows cutoff rows s').runs.row run_id ≡ s'.runs.row run_id
  unfolding expire_rows expire_row
  expire_rows-run_ne n [] s s' run_id r away = refl
  expire_rows-run_ne n ((id, a) ∷ rest) s s' run_id r away = ground (
    arith,
    expire_rows-run_ne id rest s (expire_row cutoff id a s') run_id r.3 away,
    away id a r.1,
  )
