-- ===== src/Support.antt =====
-- src/core/support.rs: the typed support matrix, the order of its keys, its validator and the
-- lookup. The lookups of std::path and of the string type are the parameter `PathTests`. The
-- Markdown rendering and the check that evidence files exist on disk are not modelled.
pub mod Matrix
pub mod Order
pub mod Validated
pub mod Lookup
mod Tests
