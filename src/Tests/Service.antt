-- ===== src/Tests/Service.antt =====
-- A service with two projects: the first is `db`, with one member, a dataset and a secret; the
-- second has a workflow.
use agentops_control_plane.Base.{
  ℕ, false, ◌≡◌, refl, none, some, List, [], ◌∷◌, map, ◌==◌, ◌+◌, arith, tally, length, inl, inr,
  Bool-cases,
}
use agentops_control_plane.Base.Table.{empty, insert, newest_first}
use agentops_control_plane.Store.Rows.{operator, AuditEvent, ApprovalStatus, completed, failed}
use agentops_control_plane.Store.Exec.{Db, ok}
use agentops_control_plane.Approvals.{Actor}
use agentops_control_plane.Service.{Service}
use agentops_control_plane.Deletion.{delete_project}
use agentops_control_plane.Deletion.Intact.{IsIntact}
use agentops_control_plane.Deletion.Others.{SameElsewhere, delete_project-SameElsewhere}
use agentops_control_plane.Listings.Visible.{ShowsReadable, listings-ShowsReadable}
use agentops_control_plane.Listings.Pages.{read_trail, read_trail-numbered}
use agentops_control_plane.Listings.{numbered, list_workflows, list_runs, list_approvals}
use agentops_control_plane.Accounts.{actor_project_ids}
use agentops_control_plane.Statistics.{stats, count_approvals}
use agentops_control_plane.Statistics.Agreement.{
  HasWorkflows, HasRuns, with_run_status, is_expired, late, stats-listings,
}
use agentops_control_plane.Runs.Tools.{reveal_secret_named}
use agentops_control_plane.Secrets.{Fernet, decrypt, put_secret, reveal_secret}
use agentops_control_plane.Secrets.Revealed.{put_secret-reveal_secret}
use agentops_control_plane.Tests.{env, db, workflow}

abbrev two_projects : Db
two_projects = record db {
  projects = insert "second" (insert "project" empty);
  workflows = insert (record workflow { project_id = 2 }) (insert workflow empty);
}

abbrev pub service : Service
service = record {
  db = two_projects;
  datasets = empty;
  evaluations = empty;
  schedules = empty;
  users = insert (record { name = "alice"; token_hash = "token"; role = operator }) empty;
  members = insert (record { project_id = 1; user_name = "alice"; role = operator }) empty;
  alerts = empty;
}

abbrev pub alice : Actor
alice = record { name = "alice"; role = operator }

service-IsIntact : IsIntact service
service-IsIntact = record {
  workflows = λ k w e. elim (Bool-cases (k == 2)) [
    | inl second ↦ ("second", ground arith)
    | inr first ↦ ("project", ground arith)
  ];
  runs = λ k r e. (1, ground arith, ("project", refl));
  parents = λ k r parent e link. ground arith;
  spans = λ k i x e. absurd (ground arith);
  approvals = λ k a e. (1, ground arith, ("project", refl));
  events = tt;
  webhooks = λ k x e. absurd (ground arith);
  memories = λ p namespace key x e. absurd (ground arith);
  secrets = λ k x e. absurd (ground arith);
  datasets = λ k d e. absurd (ground arith);
  evaluations = λ k x e. absurd (ground arith);
  schedules = λ k x e. absurd (ground arith);
  last_runs = λ k x last e link. absurd (ground arith);
  members = λ k m e. ("project", ground arith);
}

delete_project-SameElsewhere_example :
    let (result, w) = delete_project 1 service in
    (result ≡ ok tt) × (w.db.projects.row 1 ≡ none) × IsIntact w × SameElsewhere 1 service w
delete_project-SameElsewhere_example =
    delete_project-SameElsewhere service 1 "project" service-IsIntact refl

listings-ShowsReadable_example : ShowsReadable env alice service
listings-ShowsReadable_example = listings-ShowsReadable env alice service

-- The member of the first project sees its workflow and not the other one.
alice-workflows :
    map (λ row. row.0) (list_workflows none (actor_project_ids service.members alice) service.db)
    ≡ 1 ∷ []
unfolding list_workflows actor_project_ids
alice-workflows = refl

abbrev trail : List AuditEvent
trail =
    (record { actor = "alice"; action = "PUT"; resource = "/api/memories"; status_code = 200 })
    ∷ (record { actor = "bob"; action = "POST"; resource = "/api/runs"; status_code = 403 })
    ∷ (record { actor = "run"; action = "secret.reveal"; resource = "key"; status_code = 200 })
    ∷ []

read_trail-numbered_example : read_trail 4 2 none trail ≡ numbered trail
read_trail-numbered_example = read_trail-numbered 4 1 trail (omega arith)

service-HasWorkflows : HasWorkflows service.db
service-HasWorkflows = λ k r e. (workflow, ground arith)

service-HasRuns : HasRuns service.db
service-HasRuns = λ k a e. ground arith

total_runs-service : (stats (λ c. c) (some (1 ∷ [])) service.db).total_runs ≡ 2
unfolding stats
total_runs-service = refl

stats-listings_example :
    let x = stats (λ c. c) (some (1 ∷ [])) service.db in
    (length (list_runs (with_run_status none) 2 (some (1 ∷ [])) service.db) ≡ x.total_runs)
    × (length (list_runs (with_run_status (some completed)) 2 (some (1 ∷ [])) service.db)
        ≡ x.completed_runs)
    × (length (list_runs (with_run_status (some failed)) 2 (some (1 ∷ [])) service.db)
        ≡ x.failed_runs)
    × (x.pending_approvals
        ≡ length (list_approvals env (some ApprovalStatus.pending) (some (1 ∷ [])) service.db)
          + tally (late env service.db (some (1 ∷ []))) (newest_first service.db.approvals))
    × (length (list_approvals env (some ApprovalStatus.expired) (some (1 ∷ [])) service.db)
        ≡ count_approvals (λ a. is_expired a.status) (some (1 ∷ [])) service.db
          + tally (late env service.db (some (1 ∷ []))) (newest_first service.db.approvals))
unfolding stats
stats-listings_example =
    stats-listings (λ c. c) env service.db (some (1 ∷ [])) 2 service-HasWorkflows service-HasRuns
      (omega arith) (omega arith) (omega arith)

-- The approval of the second run is past its time: it is counted, and not listed as pending.
late-service : (stats (λ c. c) (some (1 ∷ [])) service.db).pending_approvals ≡ 1
unfolding stats
late-service = refl

listed-service :
    length (list_approvals env (some ApprovalStatus.pending) (some (1 ∷ [])) service.db) ≡ 0
unfolding list_approvals
listed-service = refl

-- A cipher that keeps the text as it is.
abbrev pub fernet : Fernet
fernet = record { encrypt = λ nonce value. value; decrypt = λ c. some c }

put_secret-reveal_secret_example :
    let (result, s') = put_secret (some fernet) 7 1 "key" "value" service.db in
    (id : ℕ) × (result ≡ ok id)
    × (reveal_secret (some fernet) id s' ≡ (ok "value", s'))
    × ((reveal_secret_named env 1 "key" s').0 ≡ ok "value")
    × ((k : ℕ)
        → (k == id) ≡ false
        → (reveal_secret (some fernet) k s').0 ≡ (reveal_secret (some fernet) k service.db).0)
unfolding decrypt
put_secret-reveal_secret_example =
    put_secret-reveal_secret fernet (λ nonce value. refl) env (λ c. refl) 7 1 "key" "value"
      "project" service.db refl
