-- ===== src/Tests.antt =====
-- Runs of the definitions on small inputs, and the theorems at inputs that meet their hypotheses.
pub mod Metric
pub mod Identical
pub mod Pnm
pub mod Fields
pub mod Threads
pub mod Metadata
pub mod Color
pub mod Bundles
