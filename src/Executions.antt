-- ===== src/Executions.antt =====
-- routers/executions.py and services/outcome_service.py: what workers and users ask of an execution.
-- A handler answers with a value and the database, or refuses with an HTTP status and a code, and
-- then it has changed nothing. updated_at is set by each statement, by the column's onupdate where
-- the source does not name it; the database's clock is read as `now`.
pub mod Answer
pub mod Report
pub mod Worker
pub mod Verify
pub mod Replay
