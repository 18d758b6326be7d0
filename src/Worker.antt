-- ===== src/Worker.antt =====
-- app/worker.py: the worker that claims jobs, has them reviewed and reports to GitHub.
mod Tests
pub mod Retry
pub mod Inline
pub mod Format
pub mod Process
pub mod Slots
pub mod Reconcile
