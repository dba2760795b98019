-- ===== src/Lib.antt =====
-- The control plane for agent workflows (src/agentops): a verified model of its service.
--
-- A project has workflows, versioned lists of steps. `start_run` makes a run of one, and `_execute`
-- takes it through its steps: each step is a tool (text tools, a language model, memories, a handoff
-- to another workflow, an approval). A run that meets an approval waits; a decision resumes or
-- rejects it, the sweep of expired approvals rejects it, and anybody may cancel it. Every such event
-- is written to an outbox, whose workers claim rows and send them. Evaluations run a workflow on the
-- cases of a dataset and gate a release. A middleware authenticates, checks roles, limits the rate
-- and audits; behind it each route asks for the caller's role in the project of the row it is about.
--
-- Files, and the code they model:
--   Json, Store/Rows, Store/Exec: the rows of src/agentops/database.py, the database as one record
--     of tables, and the methods of the service as functions on it that may raise. What is written
--     before a raise stays written, since each `with` block commits on its own.
--   Runs: Rows, Outbox (`_dispatch_webhooks`, `_enqueue_outbox`), Tools (`_apply_tool`,
--     `_invoke_tool`, `_apply_llm`, `_invoke_llm`, `reveal_secret_named`), Agent
--     (`_apply_agent_tool`, `_workflow_ancestry`, the memories), Spans (`_record_span`), Pause
--     (`_pause_for_approval`, `cancel_run`), Steps (the loop of `_execute`) and Start (`start_run`,
--     `_execute`, `_execute_queued`, `recover_incomplete_runs`, `replay`), all of
--     src/agentops/service.py. Frames, Plain, Recovery, Ancestry and Dispatch hold their theorems.
--   Approvals: `decide_approval`, `escalate_approval`, `expire_approvals` and the derived status of
--     `list_approvals`; Linked, Sweep, Rejects, Expiry and Decisions hold their theorems.
--   Deliveries: `_due_outbox`, `_claim_outbox`, `_deliver_outbox` and a round of `_outbox_loop`;
--     Claims, Attempts and Records hold their theorems.
--   Datasets and Evaluations: `create_dataset` (Datasets, with Ids), `_evaluation_gate` and
--     `compare_evaluations` (Evaluations, with Gate and Comparison), `_match_evaluation` (Matchers),
--     `evaluate`, `_run_evaluation_job` and `cancel_evaluation` (Job, with Cases, Executor, Progress and
--     Finish).
--   Projects (`create_project`, `create_workflow`; Versions) and Packages (`import_project`,
--     `export_project` in Export, and the validator of packages in src/agentops/schemas.py; Targets,
--     Import, Flows, Keys, Exported and RoundTrip).
--   Schemas: `validate_runtime_config` (src/agentops/schemas.py), with Steps.
--   Schedules: `create_schedule`, `set_schedule_enabled` and `run_due_schedules`; Due and Round.
--   Security: Redact and Authenticator (src/agentops/security.py), RateLimit and Boundary
--     (`security_boundary` of src/agentops/main.py) with Boundary/Guards, Access and Checks (the
--     `require_..._access` functions there).
--   Service: all tables together, and the methods above lifted to them. Accounts (users, the members
--     of projects, `actor_project_ids` and `grant_created_project`; Roles), Listings (the `list_...`
--     methods; Scopes, Visible and Pages), Statistics (`stats`, `trends` and the alerts; Agreement),
--     Secrets (`put_secret`, `reveal_secret`, and `SecretVault` of src/agentops/security.py;
--     Revealed) and Deletion (`delete_project`, `delete_dataset` and the cascades of the foreign
--     keys; Intact, Owners, Cascade and Others).
--   Webhooks: `create_webhook`, the checks of its URL, `_sign_payload` and `_send_webhook`; Targets.
--   Api: the routes of src/agentops/main.py on projects, workflows, datasets, evaluations,
--     schedules, webhooks, memories and secrets, and Api/Runs those on runs and approvals; Promises
--     and Contract say what they promise, and Checks, Guards and Grants prove it.
--   Providers (src/agentops/providers.py): Transport (`_request`, `_stream_request` with their
--     retries), Mock (`_generate_mock`), Registry and Generate (`generate_detailed`) and Steps, where a
--     step of a run calls them; Retries, Streams, Mock/Chunks and Generate/Answers hold their theorems.
--   Migrations (src/agentops/migrations.py): Tables (the schema of database.py, by tables, columns
--     and indexes), the nine migrations and `migrate`; Head and Ledger hold their theorems.
--   Base: tests, lists, sorting and tables. Tests: the theorems applied to concrete values.
--
-- The id of a row grows with the time of its creation, by which the queries sort; a listing comes
-- by ids, the newest first. Deleted ids are not given out again.
--
-- What stands outside is a parameter. `Env` holds the clock, the language model, the vault, the
-- methods of `str`, the timeouts and what other requests do while a step runs; `Send` is the
-- network, `Digest` the hashes, and `handler` the rest of the application behind the middleware; `Fernet` is
-- the encryption of the vault, `Net` the resolver and the library of addresses, and `Transport` the
-- clock, HMAC and the network of a webhook.
--
-- A method takes one reading of the clock, in seconds. Costs of spans are in billionths of a dollar
-- and timeouts in thousandths of a second, so that no division rounds; an evaluation's latencies
-- are in thousandths of a millisecond and its rates in millionths, while its costs are doubles,
-- counted in a unit of which every double is a multiple, and the sum of doubles is a parameter. The texts of errors
-- that quote a name or an id are shortened. A span keeps no duration, and events keep their type
-- but no payload.
--
-- `ancestry_from` runs on as many rounds as the id of the run and one more, which is enough where
-- a parent is an older run. `execute` takes the depth of nested handoffs as fuel, and raises
-- `too_deep` where it is used up.
--
-- `read_trail` takes the number of pages that may be read, and one more than there are rows is
-- enough.
--
-- Not modelled: the queue's threads and the start of the application (threads and processes), the
-- websocket, health and readiness (input and output), notifications to Slack and by email, the
-- exports to OpenTelemetry, the tree of agents and the comparison of two runs, the demo's scenarios
-- and templates (data), the routes that are only a listing or are for administrators, the other
-- schemas, and the translation of queries for PostgreSQL.
pub mod Base
pub mod Json
pub mod Store
pub mod Runs
pub mod Approvals
pub mod Deliveries
pub mod Evaluations
pub mod Security
pub mod Providers
pub mod Migrations
pub mod Schedules
pub mod Datasets
pub mod Projects
pub mod Packages
pub mod Schemas
pub mod Service
pub mod Accounts
pub mod Listings
pub mod Deletion
pub mod Secrets
pub mod Webhooks
pub mod Statistics
pub mod Api
pub mod Tests
