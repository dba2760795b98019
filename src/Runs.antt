-- ===== src/Runs.antt =====
-- The execution of runs: `start_run`, `_execute`, `_execute_queued`, `cancel_run`,
-- `recover_incomplete_runs`, `replay` and what they call, of src/agentops/service.py.
pub mod Env
pub mod Rows
pub mod Outbox
pub mod Tools
pub mod Agent
pub mod Spans
pub mod Pause
pub mod Steps
pub mod Start
pub mod Frames
pub mod Plain
pub mod Recovery
pub mod Ancestry
pub mod Dispatch
