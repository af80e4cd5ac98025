-- ===== src/Connectors.antt =====
-- crates/connectors/src/lib.rs: how the payload of each provider becomes an `ExtractedEvent`.
pub mod Event
pub mod Pick
pub mod Environment
pub mod Mapping
pub mod Decode
pub mod Revenuecat
pub mod Custom
pub mod AppStore
pub mod GooglePlay
pub mod Web
pub mod Extract
