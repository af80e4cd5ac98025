-- ===== src/Jobs.antt =====
-- crates/jobs/src/lib.rs: the job queue, and the projection of raw events into the tables that the
-- dashboards read.
pub mod Tables
pub mod Exec
pub mod Queue
pub mod Products
pub mod Ledger
pub mod Customers
pub mod Transactions
pub mod Subscriptions
pub mod Metrics
pub mod Process
pub mod Keeps
pub mod Frame
pub mod Replay
pub mod Invariants
