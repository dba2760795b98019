-- ===== src/Runs/Ancestry.antt =====
-- The walk of `_workflow_ancestry` up the parents of a run.
use agentops_control_plane.Base.{
  ℕ, zero, suc, ◌<◌, ◌≡◌, Option, none, some, List, [], ◌∷◌, arith, Option-cases, inl, inr,
}
use agentops_control_plane.Store.Rows.{Run}
use agentops_control_plane.Store.Exec.{Db, ok}
use agentops_control_plane.Runs.Agent.{ancestry_from, workflow_ancestry}

-- A run's parent exists, with a smaller id.
pub record IsDescending (s : Db) : Type 0 where
  pub older :
      (k p : ℕ) (r : Run)
      → s.runs.row k ≡ some r
      → r.parent_run_id ≡ some p
      → (p < k) × (q : Run) × (s.runs.row p ≡ some q)

-- The chain of the runs from `k` up, with their workflows.
pub data Chain (s : Db) : Option ℕ → List ℕ → Type 0 where
  top : Chain s none []
  link :
      (k : ℕ) (r : Run) (above : List ℕ)
      → s.runs.row k ≡ some r
      → Chain s r.parent_run_id above
      → Chain s (some k) (r.workflow_id ∷ above)

ancestry_from-ok :
    (s : Db) (fuel k : ℕ) (r : Run)
    → IsDescending s
    → k < fuel
    → s.runs.row k ≡ some r
    → (ids : List ℕ) × (ancestry_from fuel (some k) s ≡ (ok ids, s)) × Chain s (some k) ids
unfolding ancestry_from
ancestry_from-ok s zero k r h lt there = elim lt [ ]
ancestry_from-ok s (suc fuel) k r h lt there = elim (Option-cases r.parent_run_id) [
  | inl none_above ↦ (r.workflow_id ∷ [], ground arith, link k r [] there (rw none_above top))
  | inr (p, e) ↦
      let (smaller, q, stored) = h.older k p r there e in
      let (ids, found, chain) = ancestry_from-ok s fuel p q h (omega arith) stored in
      (r.workflow_id ∷ ids, ground arith, link k r ids there (rw e chain))
]

-- Where every parent is an older run, the walk up from a run ends with the workflows of the chain of
-- its parents, and the bound on its rounds is never met.
pub workflow_ancestry-Chain :
    (s : Db) (k : ℕ) (r : Run)
    → IsDescending s
    → s.runs.row k ≡ some r
    → (ids : List ℕ) × (workflow_ancestry k s ≡ (ok ids, s)) × Chain s (some k) ids
unfolding workflow_ancestry
workflow_ancestry-Chain s k r h there = ancestry_from-ok s (suc k) k r h (omega arith) there
