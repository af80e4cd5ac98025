-- ===== src/Examples.antt =====
-- The theorems applied to small concrete rows, payloads and databases.
pub mod Platform
pub mod Rows
pub mod Service
mod Core
mod Connectors
mod Queue
mod Projections
mod Twice
mod Verification
mod Webhooks
mod CatchUp
mod Accounts
mod Crypto
mod Sessions
