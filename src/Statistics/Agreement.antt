-- ===== src/Statistics/Agreement.antt =====
-- The numbers of the statistics beside the rows of the listings.
use agentops_control_plane.Base.{
  ℕ, zero, suc, ◌+◌, ◌≤◌, Bool, true, false, ◌&&◌, ◌≡◌, refl, sym, ap, ◌∙◌, Option, none, some,
  List, [], ◌∷◌, map, keep, tally, length, arith,
}
use agentops_control_plane.Base.Table.{newest_first}
use agentops_control_plane.Base.Rows.{keep-rows_below_cong}
use agentops_control_plane.Store.Rows.{
  Run, RunStatus, Workflow, Approval, ApprovalStatus, completed, failed,
}
use agentops_control_plane.Store.Exec.{Db}
use agentops_control_plane.Runs.Env.{Env}
use agentops_control_plane.Runs.Pause.{is_pending}
use agentops_control_plane.Approvals.{has_expired, effective_status}
use agentops_control_plane.Listings.{
  Scope, take, unless_empty, in_scope, joined, joined_run, RunFilter, is_status, run_listed,
  run_matches, list_runs, list_approvals, with_status, status_matches,
}
use agentops_control_plane.Listings.Scopes.{unless_empty-keep, unless_empty-take, unless_empty-map}
use agentops_control_plane.Listings.Visible.{empty-joined, empty-joined_run}
use agentops_control_plane.Statistics.{run_in, of_run_in, count_runs, count_approvals, stats}

module _ {ℓ} {A : Type ℓ} where
  tally-keep : (p : A → Bool) (xs : List A) → tally p xs ≡ length (keep p xs)
  tally-keep p [] = refl
  tally-keep p (x ∷ xs) = ground (arith, tally-keep p xs)

  take-all : (n : ℕ) (xs : List A) → length xs ≤ n → take n xs ≡ xs
  take-all zero [] h = refl
  take-all zero (x ∷ xs) h = elim h [ ]
  take-all (suc n) [] h = refl
  take-all (suc n) (x ∷ xs) h = ap (λ r. x ∷ r) (take-all n xs (omega arith))

length-map : {A B : Type 0} (f : A → B) (xs : List A) → length (map f xs) ≡ length xs
length-map f [] = refl
length-map f (x ∷ xs) = ap suc (length-map f xs)

-- Every run finds its workflow.
abbrev pub HasWorkflows : Db → Type 0
HasWorkflows s =
    (k : ℕ) (r : Run)
    → s.runs.row k ≡ some r
    → (w : Workflow) × (s.workflows.row r.workflow_id ≡ some w)

-- All runs, or those with a status.
abbrev pub with_run_status : Option RunStatus → RunFilter
with_run_status status = record {
  workflow_id = none;
  project_id = none;
  status = status;
  has_parent = none;
}

abbrev pub status_test : Option RunStatus → Run → Bool
status_test none r = true
status_test (some status) r = is_status status r

-- Every approval finds its run, and that its workflow.
abbrev pub HasRuns : Db → Type 0
HasRuns s =
    (k : ℕ) (a : Approval) → s.approvals.row k ≡ some a → joined_run s a.run_id (λ _. true) ≡ true

-- A test that splits into two that exclude each other.
tally-split :
    {A : Type 0} (p q r : A → Bool) (xs : List A)
    → ((x : A) → tally p (x ∷ []) ≡ tally q (x ∷ []) + tally r (x ∷ []))
    → tally p xs ≡ tally q xs + tally r xs
tally-split p q r [] h = omega arith
tally-split p q r (x ∷ xs) h = omega (arith, h x, tally-split p q r xs h)

&&-true : (a b : Bool) → (a && b) ≡ (a && true && b)
&&-true true b = refl
&&-true false b = refl

is_given_run :
    (s : Db) (r : Run) (w : Workflow)
    → s.workflows.row r.workflow_id ≡ some w
    → (scope : Scope) → run_in scope s r ≡ joined s r.workflow_id (λ x. in_scope scope x.project_id)
is_given_run s r w there none = rw there refl
is_given_run s r w there (some []) = rw there refl
is_given_run s r w there (some (p ∷ ps)) = refl

module _ (s : Db) (flows : HasWorkflows s) where
  run_in-listed :
      (scope : Scope) (status : Option RunStatus) (k : ℕ) (r : Run)
      → s.runs.row k ≡ some r
      → (status_test status r && run_in scope s r)
        ≡ run_listed (with_run_status status) scope s (k, r)
  run_in-listed scope none k r there = let (w, e) = flows k r there in is_given_run s r w e scope
  run_in-listed scope (some status) k r there =
      let (w, e) = flows k r there in
      ap (λ b. is_status status r && b) (is_given_run s r w e scope)
      ∙ &&-true (is_status status r) _

  count-keep :
      (scope : Scope) (status : Option RunStatus)
      → count_runs (status_test status) scope s
        ≡ length (keep (run_listed (with_run_status status) scope s) (newest_first s.runs))
  unfolding count_runs newest_first
  count-keep scope status =
      tally-keep (λ row. status_test status row.1 && run_in scope s row.1) (newest_first s.runs)
      ∙ ap length (
          keep-rows_below_cong (λ row. status_test status row.1 && run_in scope s row.1)
            (run_listed (with_run_status status) scope s) s.runs.next s.runs.row
            (run_in-listed scope status))

  -- The listing of runs, where the limit is no smaller than the count.
  count-list_runs :
      (scope : Scope) (status : Option RunStatus) (limit : ℕ)
      → count_runs (status_test status) scope s ≤ limit
      → length (list_runs (with_run_status status) limit scope s)
        ≡ count_runs (status_test status) scope s
  unfolding list_runs
  count-list_runs scope status limit fits =
      let rows = keep (run_listed (with_run_status status) scope s) (newest_first s.runs) in
      let same = count-keep scope status in
      ap length (
        unless_empty-take scope limit (run_listed (with_run_status status) scope s)
          (newest_first s.runs)
          (λ e row.
            empty-joined (run_matches (with_run_status status) row.1) scope s row.1.workflow_id
              (λ w. true) e)
        ∙ take-all limit rows (omega (arith, same, fits)))
      ∙ sym same

abbrev pub is_expired : ApprovalStatus → Bool
is_expired ApprovalStatus.expired = true
is_expired _ = false

-- A pending row of a scope that is past its time.
abbrev pub late : Env → Db → Scope → ℕ × Approval → Bool
late env s scope row = has_expired env.now row.1 && of_run_in scope s row.1.run_id

module _ (env : Env) (s : Db) (linked : HasRuns s) where
  of_run_in-joined :
      (scope : Scope) (k : ℕ) (a : Approval)
      → s.approvals.row k ≡ some a
      → joined_run s a.run_id (λ w. in_scope scope w.project_id) ≡ of_run_in scope s a.run_id
  of_run_in-joined none k a there = linked k a there
  of_run_in-joined (some []) k a there = empty-joined_run true (some []) s a.run_id refl
  of_run_in-joined (some (p ∷ ps)) k a there = refl

  -- An approval that the listing shows with this status, of a scope.
  abbrev counted : ApprovalStatus → Scope → ℕ × Approval → Bool
  counted status scope row =
      status_matches env (some status) row.1 && of_run_in scope s row.1.run_id

  length-list_approvals :
      (status : ApprovalStatus) (scope : Scope)
      → length (list_approvals env (some status) scope s)
        ≡ tally (counted status scope) (newest_first s.approvals)
  unfolding list_approvals newest_first
  length-list_approvals status scope =
      let shown = λ (row : ℕ × Approval).
        status_matches env (some status) row.1
        && joined_run s row.1.run_id (λ w. in_scope scope w.project_id) in
      let same : keep shown (newest_first s.approvals)
          ≡ keep (counted status scope) (newest_first s.approvals) =
        keep-rows_below_cong shown (counted status scope) s.approvals.next s.approvals.row
          (λ k a there.
            ap (λ b. status_matches env (some status) a && b) (of_run_in-joined scope k a there)) in
      ap length (unless_empty-map (with_status env) scope (keep shown (newest_first s.approvals)))
      ∙ length-map (with_status env) (unless_empty scope (keep shown (newest_first s.approvals)))
      ∙ ap length (
          unless_empty-keep scope shown (newest_first s.approvals) (λ e row.
            empty-joined_run (status_matches env (some status) row.1) scope s row.1.run_id e)
          ∙ same)
      ∙ sym (tally-keep (counted status scope) (newest_first s.approvals))

  pending-split :
      (scope : Scope) (row : ℕ × Approval)
      → tally (λ x. is_pending x.1.status && of_run_in scope s x.1.run_id) (row ∷ [])
        ≡ tally (counted ApprovalStatus.pending scope) (row ∷ [])
          + tally (late env s scope) (row ∷ [])
  unfolding effective_status
  pending-split scope (k, a) = ground arith

  expired-split :
      (scope : Scope) (row : ℕ × Approval)
      → tally (counted ApprovalStatus.expired scope) (row ∷ [])
        ≡ tally (λ x. is_expired x.1.status && of_run_in scope s x.1.run_id) (row ∷ [])
          + tally (late env s scope) (row ∷ [])
  unfolding effective_status
  expired-split scope (k, a) = ground arith

  -- What is stored as pending is listed as pending, or late.
  count-list_approvals :
      (scope : Scope)
      → count_approvals (λ a. is_pending a.status) scope s
        ≡ length (list_approvals env (some ApprovalStatus.pending) scope s)
          + tally (late env s scope) (newest_first s.approvals)
  unfolding count_approvals
  count-list_approvals scope = rw (length-list_approvals ApprovalStatus.pending scope) (
      tally-split (λ (x : ℕ × Approval). is_pending x.1.status && of_run_in scope s x.1.run_id)
        (counted ApprovalStatus.pending scope) (late env s scope) (newest_first s.approvals)
        (pending-split scope))

  -- What is listed as expired is stored as expired, or late.
  list_approvals-count :
      (scope : Scope)
      → length (list_approvals env (some ApprovalStatus.expired) scope s)
        ≡ count_approvals (λ a. is_expired a.status) scope s
          + tally (late env s scope) (newest_first s.approvals)
  unfolding count_approvals
  list_approvals-count scope =
      length-list_approvals ApprovalStatus.expired scope
      ∙ tally-split (counted ApprovalStatus.expired scope)
          (λ (x : ℕ × Approval). is_expired x.1.status && of_run_in scope s x.1.run_id)
          (late env s scope) (newest_first s.approvals) (expired-split scope)

-- The statistics of a scope beside its listings, where every run has its workflow and every approval
-- its run: with a limit that is high enough, as many runs are listed as are counted, in all, as
-- completed and as failed. What is counted as pending approvals is as many as the listing shows as
-- pending, and those that are past their time and still marked pending; and what the listing shows
-- as expired is as many as are marked expired, and those that are past their time and still marked
-- pending.
pub stats-listings :
    (round : ℕ → ℕ) (env : Env) (s : Db) (scope : Scope) (limit : ℕ)
    → HasWorkflows s
    → HasRuns s
    → (stats round scope s).total_runs ≤ limit
    → (stats round scope s).completed_runs ≤ limit
    → (stats round scope s).failed_runs ≤ limit
    → let x = stats round scope s in
      (length (list_runs (with_run_status none) limit scope s) ≡ x.total_runs)
      × (length (list_runs (with_run_status (some completed)) limit scope s) ≡ x.completed_runs)
      × (length (list_runs (with_run_status (some failed)) limit scope s) ≡ x.failed_runs)
      × (x.pending_approvals
          ≡ length (list_approvals env (some ApprovalStatus.pending) scope s)
            + tally (late env s scope) (newest_first s.approvals))
      × (length (list_approvals env (some ApprovalStatus.expired) scope s)
          ≡ count_approvals (λ a. is_expired a.status) scope s
            + tally (late env s scope) (newest_first s.approvals))
unfolding stats
stats-listings round env s scope limit flows linked fits fits_completed fits_failed = (
  count-list_runs s flows scope none limit fits,
  count-list_runs s flows scope (some completed) limit fits_completed,
  count-list_runs s flows scope (some failed) limit fits_failed,
  count-list_approvals env s linked scope,
  list_approvals-count env s linked scope,
)
