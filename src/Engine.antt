-- ===== src/Engine.antt =====
-- src/engine/mod.rs: the lifecycle engine over the durable state store and a provider.
pub mod Errors
pub mod Request
pub mod Identity
pub mod Proven
pub mod Local
pub mod Accepted
mod Tests
