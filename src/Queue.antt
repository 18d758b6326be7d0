-- ===== src/Queue.antt =====
-- app/services/db/queue.py: the job queue. Each method is one transaction over the database, with
-- the time of its NOW(), the UUID that it draws and the rows that other transactions hold locked
-- as arguments; it returns its result and the new database.
mod Tests
pub mod Rows
pub mod Constraints
pub mod Selection
pub mod Enqueue
pub mod Claim
pub mod Heartbeats
pub mod Finalize
pub mod Release
pub mod Reconcile
pub mod Workers
pub mod Ownership
pub mod Tracking
pub mod Fencing
pub mod Stored
pub mod Commit
pub mod Beating
pub mod Recovery
