-- ===== src/Selection.antt =====
-- src/core/run_selection.rs: from a host, an image, provider probes and the user's intent to one
-- execution plan, and the check that a plan still agrees with fresh evidence. The detection of the
-- current host (`HostPlatform::current`) reads constants of the build and is not modelled.
pub mod Types
pub mod Probes
pub mod Resolve
pub mod Revalidate
pub mod Justified
pub mod Kept
pub mod Ranked
pub mod Chosen
pub mod Agreement
mod Tests
