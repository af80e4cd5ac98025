-- ===== src/Api.antt =====
-- crates/api: the verification of webhooks and their ingestion, catch-up, access control, accounts
-- and the small pure functions of the service.
pub mod Try
pub mod Handler
pub mod Preserves
pub mod Http
pub mod Verification
pub mod Crypto
pub mod Webhooks
pub mod CatchUp
pub mod Accounts
pub mod Logins
pub mod Sessions
