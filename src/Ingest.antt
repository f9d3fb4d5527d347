-- ===== src/Ingest.antt =====
-- backend/internal/ingest/scheduler.go: the scheduler of the jobs, and what the jobs make of their data.
pub mod Books
pub mod Depth
pub mod Trades
pub mod Locks
pub mod Meta
pub mod Mids
pub mod Mutex
pub mod Exclusion
pub mod Runs
pub mod Compute
pub mod Pipeline
pub mod Jobs
pub mod Stored
pub mod Backfill
pub mod Start
pub mod Stop
pub mod Summaries
mod JobExamples
mod ComputeExamples
mod Examples
