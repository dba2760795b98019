-- ===== src/Store.antt =====
-- The database of the control plane and the methods that read and write it: the tables of
-- src/agentops/database.py as rows, and the actions of src/agentops/service.py as state passing
-- with errors.
pub mod Rows
pub mod Exec
