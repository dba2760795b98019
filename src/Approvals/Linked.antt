-- ===== src/Approvals/Linked.antt =====
-- The invariant that ties approvals to runs: a pending approval belongs to a run that waits at its
-- step, and no run has two approvals for one step. Here are the writes of a decision and of
-- `cancel_run` (src/agentops/service.py); Sweep has those of a pause and of the sweep.
use agentops_control_plane.Base.{
  ℕ, ◌≤◌, String, ◌≡◌, refl, sym, ◌∙◌, Option, none, some, arith, Option-cases, inl, inr,
}
use agentops_control_plane.Json.{Value}
use agentops_control_plane.Store.Rows.{Approval, ApprovalStatus, Run, RunStatus}
use agentops_control_plane.Store.Exec.{Db}
use agentops_control_plane.Runs.Env.{Env}
use agentops_control_plane.Runs.Pause.{cancel_writes}
use agentops_control_plane.Approvals.{Actor, Decision, approved, rejected, apply_decision}

-- The run of a pending approval waits at the step of the approval.
abbrev pub Waits : Db → Approval → Type 0
Waits s a =
    (r : Run) × (s.runs.row a.run_id ≡ some r)
    × (r.status ≡ RunStatus.waiting_approval)
    × (r.current_step ≡ a.step_index)

pub record IsLinked (s : Db) : Type 0 where
  pub linked :
      (id : ℕ) (a : Approval)
      → s.approvals.row id ≡ some a
      → a.status ≡ ApprovalStatus.pending
      → Waits s a
  pub unique :
      (i j : ℕ) (a b : Approval)
      → s.approvals.row i ≡ some a
      → s.approvals.row j ≡ some b
      → a.run_id ≡ b.run_id
      → a.step_index ≡ b.step_index
      → i ≡ j
  pub within : (k : ℕ) → s.approvals.next ≤ k → s.approvals.row k ≡ none

module _ {s : Db} (l : IsLinked s) where
  -- A run has at most one pending approval.
  pub pending_unique :
      (i j : ℕ) (a b : Approval)
      → s.approvals.row i ≡ some a
      → a.status ≡ ApprovalStatus.pending
      → s.approvals.row j ≡ some b
      → b.status ≡ ApprovalStatus.pending
      → a.run_id ≡ b.run_id
      → i ≡ j
  pending_unique i j a b ra pa rb pb e =
      let (r, there, waits, at) = l.linked i a ra pa in
      let (r', there', waits', at') = l.linked j b rb pb in l.unique i j a b ra rb e (ground arith)

-- Where an approval of `s'` comes from: the approval of `s` with its id, its run and its step. If it
-- is still pending then it was, and the run that it belongs to is as before.
pub record Origin (s s' : Db) (id : ℕ) (a : Approval) : Type 0 where
  pub old : Approval
  pub there : s.approvals.row id ≡ some old
  pub same_run : a.run_id ≡ old.run_id
  pub same_index : a.step_index ≡ old.step_index
  pub still :
      a.status ≡ ApprovalStatus.pending
      → (old.status ≡ ApprovalStatus.pending) × (s'.runs.row old.run_id ≡ s.runs.row old.run_id)

-- An update in place keeps the invariant if it settles every approval whose run it changes.
pub IsLinked-Origin :
    {s : Db} (s' : Db)
    → IsLinked s
    → ((id : ℕ) (a : Approval) → s'.approvals.row id ≡ some a → Origin s s' id a)
    → s'.approvals.next ≡ s.approvals.next
    → IsLinked s'
IsLinked-Origin {s} s' l back same = record {
  linked = λ id a e p.
      let o = back id a e in
      let (pending, run) = o.still p in
      let (r, there, waits, at) = l.linked id o.old o.there pending in
      (r, cc (o.same_run, run, there), waits, at ∙ sym o.same_index);
  unique = λ i j a b ra rb e e'.
      let o = back i a ra in
      let q = back j b rb in
      l.unique i j o.old q.old o.there q.there (sym o.same_run ∙ e ∙ q.same_run)
        (sym o.same_index ∙ e' ∙ q.same_index);
  within = λ k h. elim (Option-cases (s'.approvals.row k)) [
    | inl absent ↦ absent
    | inr (a, e) ↦
        let o = back k a e in absurd (ground (arith, l.within k (omega (arith, same)), o.there))
  ];
}

module _ (env : Env) {s : Db} (l : IsLinked s) where
  cancel_writes-Origin :
      (run_id id : ℕ) (a : Approval)
      → (cancel_writes env run_id s).approvals.row id ≡ some a
      → Origin s (cancel_writes env run_id s) id a
  unfolding cancel_writes
  cancel_writes-Origin run_id id a e = elim (Option-cases (s.approvals.row id)) [
    | inl absent ↦ absurd (ground arith)
    | inr (old, there) ↦ record {
      old = old;
      there = there;
      same_run = ground arith;
      same_index = ground arith;
      still = λ p. ground arith;
    }
  ]

  -- The writes of `cancel_run` keep the invariant, whatever state the run is in.
  pub cancel_writes-IsLinked : (run_id : ℕ) → IsLinked (cancel_writes env run_id s)
  unfolding cancel_writes
  cancel_writes-IsLinked run_id =
      IsLinked-Origin (cancel_writes env run_id s) l (cancel_writes-Origin run_id) refl

  module _ (id : ℕ) (a : Approval) (there : s.approvals.row id ≡ some a)
      (pending : a.status ≡ ApprovalStatus.pending) where
    apply_decision-Origin :
        (decision : Decision) (note : String) (out : Option Value) (actor : Option Actor) (k : ℕ)
        (b : Approval)
        → (apply_decision env id a decision note out actor s).approvals.row k ≡ some b
        → Origin s (apply_decision env id a decision note out actor s) k b
    unfolding apply_decision
    apply_decision-Origin decision note out actor k b e = elim (Option-cases (s.approvals.row k)) [
      | inl absent ↦ absurd (ground arith)
      | inr (old, was) ↦ record {
        old = old;
        there = was;
        same_run = ground arith;
        same_index = ground arith;
        still = λ p. ground (arith, pending_unique l id k a old);
      }
    ]

    settled_within :
        (decision : Decision) (note : String) (out : Option Value) (actor : Option Actor)
        → (apply_decision env id a decision note out actor s).approvals.next ≡ s.approvals.next
    unfolding apply_decision
    settled_within approved note none actor = refl
    settled_within approved note (some v) actor = refl
    settled_within rejected note out actor = refl

    -- Where approvals and runs are tied, the writes of a decision on a pending approval keep them
    -- tied: every pending approval belongs to a run that waits at its step, and no run has two for
    -- one step.
    pub apply_decision-IsLinked :
        (decision : Decision) (note : String) (out : Option Value) (actor : Option Actor)
        → IsLinked (apply_decision env id a decision note out actor s)
    apply_decision-IsLinked decision note out actor =
        IsLinked-Origin (apply_decision env id a decision note out actor s) l
          (apply_decision-Origin decision note out actor) (settled_within decision note out actor)
