-- ===== src/Jobs.antt =====
-- The job queue: `JobService` of app/workers/queue.py over the table of jobs, SqlJobRepository of
-- app/db/repositories/ops.py.
pub mod Table
pub mod Lifecycle
pub mod Service
mod Rows
pub mod Idempotency
mod Attempts
mod Counts
mod Preserved
mod Growth
pub mod Runs
pub mod Backed
pub mod Reachable
pub mod Delivery
mod Tests
