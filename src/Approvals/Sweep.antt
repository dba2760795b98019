-- ===== src/Approvals/Sweep.antt =====
-- The sweep of `expire_approvals` of src/agentops/service.py, and the tie between approvals and runs.
use agentops_control_plane.Base.{
  ℕ, zero, suc, ◌≤◌, ◌<◌, true, false, ◌≡◌, ◌≢◌, refl, ◌∙◌, some, arith, Bool-cases, Option-cases,
  inl, inr, ◌==◌, List, [], ◌∷◌, if◌then◌else◌, ltb,
}
use agentops_control_plane.Base.Table.{any_row, any_row-false, rows_below, map_row}
use agentops_control_plane.Json.{Value}
use agentops_control_plane.Store.Rows.{Approval, ApprovalStatus, Run, RunStatus, Config}
use agentops_control_plane.Store.Exec.{Db}
use agentops_control_plane.Runs.Env.{Env}
use agentops_control_plane.Runs.Pause.{same_step, pause_writes}
use agentops_control_plane.Approvals.{expire_row, expire_rows, expired_rows, has_expired}
use agentops_control_plane.Approvals.Linked.{IsLinked, IsLinked-Origin, pending_unique}

module _ (env : Env) {s : Db} (l : IsLinked s) where
  row_below : (k : ℕ) (a : Approval) → s.approvals.row k ≡ some a → k < s.approvals.next
  row_below k a e = ground (arith, l.within k)

  -- Where approvals and runs are tied, the writes of a pause keep them tied, if the run is stored
  -- and not waiting already and the unique key of the new approval is free.
  pub pause_writes-IsLinked :
      (run_id index : ℕ) (config : Config) (v : Value) (r : Run)
      → s.runs.row run_id ≡ some r
      → r.status ≢ RunStatus.waiting_approval
      → any_row (same_step run_id index) s.approvals ≡ false
      → IsLinked (pause_writes env run_id index config v s)
  unfolding pause_writes
  pause_writes-IsLinked run_id index config v r there busy free = record {
    linked = λ id a e p. elim (Bool-cases (id == s.approvals.next)) [
      | inl new ↦ (
        record r { status = RunStatus.waiting_approval; output = some v; current_step = index },
        ground arith,
        refl,
        ground arith,
      )
      | inr old ↦
          let e' : s.approvals.row id ≡ some a = ground arith in
          let (r', there', waits, at) = l.linked id a e' p in (r', ground arith, waits, at)
    ];
    unique = λ i j a b ra rb e e'. ground (
      arith,
      l.unique i j a b,
      row_below i a,
      row_below j b,
      any_row-false (same_step run_id index) s.approvals i a free,
      any_row-false (same_step run_id index) s.approvals j b free,
    );
    within = λ k h. ground (arith, l.within k);
  }

module _ (cutoff : ℕ) where
  -- The rows of a sweep: below `n`, the ids falling, each pending past its time in `s`.
  abbrev pub Ready : ℕ → Db → List (ℕ × Approval) → Type 0
  Ready n s [] = Unit {0}
  Ready n s ((id, a) ∷ rest) =
      (id < n) × (s.approvals.row id ≡ some a) × (has_expired cutoff a ≡ true) × Ready id s rest

  Ready-weaken :
      (n m : ℕ) (s : Db) (rows : List (ℕ × Approval)) → n ≤ m → Ready n s rows → Ready m s rows
  Ready-weaken n m s [] h r = tt
  Ready-weaken n m s ((id, a) ∷ rest) h r = (omega arith, r.1, r.2, r.3)

  pub Ready-expired_rows :
      (n : ℕ) (s : Db) → Ready n s (expired_rows cutoff (rows_below n s.approvals.row))
  unfolding rows_below
  Ready-expired_rows zero s = tt
  Ready-expired_rows (suc n) s =
      let rest = expired_rows cutoff (rows_below n s.approvals.row) in
      elim (Option-cases (s.approvals.row n)) [
        | inl absent ↦
            rw absent (Ready-weaken n (suc n) s rest (omega arith) (Ready-expired_rows n s))
        | inr (a, there) ↦ elim (Bool-cases (has_expired cutoff a)) [
          | inl due ↦ rw (there, due) (omega arith, there, due, Ready-expired_rows n s)
          | inr kept ↦
              rw (there, kept)
                (Ready-weaken n (suc n) s rest (omega arith) (Ready-expired_rows n s))
        ]
      ]

  pub Ready-expire_row :
      (n id : ℕ) (a : Approval) (s : Db) (rows : List (ℕ × Approval))
      → n ≤ id
      → Ready n s rows
      → Ready n (expire_row cutoff id a s) rows
  unfolding expire_row
  Ready-expire_row n id a s [] h r = tt
  Ready-expire_row n id a s ((k, b) ∷ rest) h r =
      (r.0, ground arith, r.2, Ready-expire_row k id a s rest (omega arith) r.3)

  expire_row-IsLinked :
      (id : ℕ) (a : Approval) (s : Db)
      → IsLinked s
      → s.approvals.row id ≡ some a
      → has_expired cutoff a ≡ true
      → IsLinked (expire_row cutoff id a s)
  unfolding expire_row
  expire_row-IsLinked id a s l there due =
      IsLinked-Origin (expire_row cutoff id a s) l
        (λ k b e. elim (Option-cases (s.approvals.row k)) [
          | inl absent ↦ absurd (ground arith)
          | inr (old, was) ↦ record {
            old = old;
            there = was;
            same_run = ground arith;
            same_index = ground arith;
            still = λ p. ground (arith, pending_unique l id k a old);
          }
        ])
        refl

  pub expire_rows-IsLinked :
      (n : ℕ) (rows : List (ℕ × Approval)) (s : Db)
      → IsLinked s
      → Ready n s rows
      → IsLinked (expire_rows cutoff rows s)
  unfolding expire_rows
  expire_rows-IsLinked n [] s l r = l
  expire_rows-IsLinked n ((id, a) ∷ rest) s l r =
      expire_rows-IsLinked id rest (expire_row cutoff id a s) (expire_row-IsLinked id a s l r.1 r.2)
        (Ready-expire_row id id a s rest (omega arith) r.3)

  -- What the sweep makes of one approval.
  abbrev pub swept : Approval → Approval
  swept a =
      if has_expired cutoff a
      then record a {
        status = ApprovalStatus.expired;
        note = "approval expired";
        decided_at = some cutoff;
      }
      else a

  expire_row-row :
      (id : ℕ) (a : Approval) (s : Db) (k : ℕ)
      → (expire_row cutoff id a s).approvals.row k ≡ (
          if k == id
          then map_row
              (λ x. record x {
                status = ApprovalStatus.expired;
                note = "approval expired";
                decided_at = some cutoff;
              })
              (s.approvals.row k)
          else s.approvals.row k)
  unfolding expire_row
  expire_row-row id a s k = refl

  expire_row-row_ne :
      (id : ℕ) (a : Approval) (s : Db) (k : ℕ)
      → k ≢ id
      → (expire_row cutoff id a s).approvals.row k ≡ s.approvals.row k
  expire_row-row_ne id a s k h = ground (arith, expire_row-row id a s k)

  pub expire_rows-row :
      (n : ℕ) (s s' : Db)
      → ((k : ℕ) → k < n → s'.approvals.row k ≡ s.approvals.row k)
      → (k : ℕ)
      → (expire_rows cutoff (expired_rows cutoff (rows_below n s.approvals.row)) s').approvals.row k
        ≡ (if ltb k n then map_row swept (s.approvals.row k) else s'.approvals.row k)
  unfolding expire_rows rows_below
  expire_rows-row zero s s' same k = ground arith
  expire_rows-row (suc n) s s' same k = elim (Option-cases (s.approvals.row n)) [
    | inl absent ↦
        rw absent (ground (arith, expire_rows-row n s s' (λ j h. same j (omega arith)) k, same k))
    | inr (a, there) ↦ elim (Bool-cases (has_expired cutoff a)) [
      | inl due ↦
          rw (there, due)
            (ground (
              arith,
              same k,
              expire_row-row n a s' k,
              expire_rows-row n s (expire_row cutoff n a s')
                  (λ j h. expire_row-row_ne n a s' j (omega arith) ∙ same j (omega arith)) k,
            ))
      | inr kept ↦
          rw (there, kept)
            (ground (arith, expire_rows-row n s s' (λ j h. same j (omega arith)) k, same k))
    ]
  ]
