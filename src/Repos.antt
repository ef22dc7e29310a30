-- ===== src/Repos.antt =====
-- api/internal/api/repos.go: the handlers that queue ingestion jobs, and what becomes of a job.
-- They share a world: the database, the worker pool, the goroutines started, and whether each
-- coming database call fails.
pub mod World
pub mod Queueing
pub mod Running
