-- ===== src/Deletion/Cascade.antt =====
-- The references of what the deletion of a project leaves.
use agentops_control_plane.Base.{
  ℕ, Bool, true, false, not, ◌≡◌, refl, sym, ap, ◌∙◌, Option, none, some, List, [], ◌∷◌, keep, ◌==◌,
  if◌then◌else◌, arith, Bool-cases, inl, inr,
}
use agentops_control_plane.Base.Sorting.{All}
use agentops_control_plane.Store.Rows.{Run, AgentEvent}
use agentops_control_plane.Schedules.{Schedule}
use agentops_control_plane.Service.{Service}
use agentops_control_plane.Deletion.{
  drop_row, clear, clear_parent, clear_last, of_workflow, of_run, cascade,
}
use agentops_control_plane.Deletion.Intact.{workflow_project, run_project, Belongs, IsIntact}
use agentops_control_plane.Deletion.Owners.{
  without, drop_row-some, map_row-some, workflow_project-cascade, run_project-cascade,
  dataset_project-cascade, HasProject-cascade, run-Belongs, workflow-Belongs,
}

module _ (v : Service) (q : ℕ) where
  abbrev pub v' : Service
  v' = cascade v q

  -- A run that is left, as it was before.
  run-before :
      (k : ℕ) (r : Run)
      → v'.db.runs.row k ≡ some r
      → (old : Run) × (v.db.runs.row k ≡ some old)
        × (of_workflow v q old.workflow_id ≡ false)
        × (r ≡ clear_parent (of_run v q) old)
  unfolding cascade
  run-before k r h =
      let (old, dropped, e) =
        map_row-some (clear_parent (of_run v q))
          (drop_row (λ x. of_workflow v q x.workflow_id) (v.db.runs.row k)) r h in
      let (there, kept) = drop_row-some _ (v.db.runs.row k) old dropped in (old, there, kept, e)

  schedule-before :
      (k : ℕ) (x : Schedule)
      → v'.schedules.row k ≡ some x
      → (old : Schedule) × (v.schedules.row k ≡ some old)
        × (of_workflow v q old.workflow_id ≡ false)
        × (x ≡ clear_last (of_run v q) old)
  unfolding cascade
  schedule-before k x h =
      let (old, dropped, e) =
        map_row-some (clear_last (of_run v q))
          (drop_row (λ y. of_workflow v q y.workflow_id) (v.schedules.row k)) x h in
      let (there, kept) = drop_row-some _ (v.schedules.row k) old dropped in (old, there, kept, e)

  -- A reference to a run that is still set.
  clear-some :
      (link : Option ℕ) (id : ℕ)
      → clear (of_run v q) link ≡ some id
      → (link ≡ some id) × (of_run v q id ≡ false)
  clear-some none id h = ground arith
  clear-some (some i) id h = elim (Bool-cases (of_run v q i)) [
    | inl gone ↦ ground arith
    | inr kept ↦ let same : i ≡ id = ground arith in (ap some same, rw (← same) kept)
  ]

  events-Belong :
      (events : List AgentEvent)
      → All (λ e. Belongs v (run_project v e.run_id)) events
      → All
          (λ e. Belongs v' (run_project v' e.run_id))
          (keep (λ e. not (of_run v q e.run_id)) events)
  events-Belong [] h = tt
  events-Belong (e ∷ es) h = elim (Bool-cases (of_run v q e.run_id)) [
    | inl gone ↦ rw gone (events-Belong es h.1)
    | inr kept ↦ rw kept (run-Belongs v q e.run_id kept h.0, events-Belong es h.1)
  ]

  -- A row that is set unless its owner goes.
  unless-some :
      {A : Type 0} (gone : Bool) (o : Option A) (a : A)
      → (if gone then none else o) ≡ some a
      → (gone ≡ false) × (o ≡ some a)
  unless-some true o a h = ground arith
  unless-some false o a h = (refl, h)

  run-parent :
      (k : ℕ) (r : Run) (parent : ℕ)
      → IsIntact v
      → v'.db.runs.row k ≡ some r
      → r.parent_run_id ≡ some parent
      → run_project v' parent ≡ workflow_project v' r.workflow_id
  run-parent k r parent h e link =
      let (old, there, kept, same) = run-before k r e in
      let set =
        clear-some old.parent_run_id parent (sym (ap (λ (x : Run). x.parent_run_id) same) ∙ link) in
      run_project-cascade v q parent
      ∙ ap (without q) (h.parents k old parent there set.0)
      ∙ sym (workflow_project-cascade v q old.workflow_id)
      ∙ ap (λ (x : Run). workflow_project v' x.workflow_id) (sym same)

  schedule-last_run :
      (k : ℕ) (x : Schedule) (last : ℕ)
      → IsIntact v
      → v'.schedules.row k ≡ some x
      → x.last_run_id ≡ some last
      → run_project v' last ≡ workflow_project v' x.workflow_id
  schedule-last_run k x last h e link =
      let (old, there, kept, same) = schedule-before k x e in
      let set =
        clear-some old.last_run_id last (sym (ap (λ (y : Schedule). y.last_run_id) same) ∙ link) in
      run_project-cascade v q last
      ∙ ap (without q) (h.last_runs k old last there set.0)
      ∙ sym (workflow_project-cascade v q old.workflow_id)
      ∙ ap (λ (y : Schedule). workflow_project v' y.workflow_id) (sym same)

  pub cascade-IsIntact : IsIntact v → IsIntact v'
  unfolding cascade
  cascade-IsIntact h = record {
    workflows = λ k w e.
        let (there, kept) = drop_row-some _ (v.db.workflows.row k) w e in
        HasProject-cascade v q w.project_id kept (h.workflows k w there);
    runs = λ k r e.
        let (old, there, kept, same) = run-before k r e in
        rw same (workflow-Belongs v q old.workflow_id kept (h.runs k old there));
    parents = λ k r parent. run-parent k r parent h;
    spans = λ k i x e.
        let (kept, there) = unless-some (of_run v q k) (v.db.spans k i) x e in
        run-Belongs v q k kept (h.spans k i x there);
    approvals = λ k a e.
        let (there, kept) = drop_row-some _ (v.db.approvals.row k) a e in
        run-Belongs v q a.run_id kept (h.approvals k a there);
    events = events-Belong v.db.events h.events;
    webhooks = λ k w e.
        let (there, kept) = drop_row-some _ (v.db.webhooks.row k) w e in
        HasProject-cascade v q w.project_id kept (h.webhooks k w there);
    memories = λ p namespace key x e.
        let (kept, there) = unless-some (p == q) (v.db.memories p namespace key) x e in
        HasProject-cascade v q p kept (h.memories p namespace key x there);
    secrets = λ k x e.
        let (there, kept) = drop_row-some _ (v.db.secrets.row k) x e in
        HasProject-cascade v q x.project_id kept (h.secrets k x there);
    datasets = λ k d e.
        let (there, kept) = drop_row-some _ (v.datasets.row k) d e in
        HasProject-cascade v q d.project_id kept (h.datasets k d there);
    evaluations = λ k x e.
        let (there, kept) = drop_row-some _ (v.evaluations.row k) x e in
        let (belongs, same) = h.evaluations k x there in
        (
          workflow-Belongs v q x.workflow_id (ground arith) belongs,
          dataset_project-cascade v q x.dataset_id
              ∙ ap (without q) same
              ∙ sym (workflow_project-cascade v q x.workflow_id),
        );
    schedules = λ k x e.
        let (old, there, kept, same) = schedule-before k x e in
        rw same (workflow-Belongs v q old.workflow_id kept (h.schedules k old there));
    last_runs = λ k x last. schedule-last_run k x last h;
    members = λ k m e.
        let (there, kept) = drop_row-some _ (v.members.row k) m e in
        HasProject-cascade v q m.project_id kept (h.members k m there);
  }
