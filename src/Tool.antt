-- ===== src/Tool.antt =====
-- The trace verifier (crates/tool).
pub mod Problems
pub mod Payload
pub mod Checks
pub mod Verify
pub mod Lineage
pub mod Evidence
pub mod Cluster
pub mod Main
pub mod Diagnostics
pub mod CommandLine
