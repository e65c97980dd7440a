-- ===== src/Examples.antt =====
-- Runs of the models at concrete inputs.
pub mod Data
pub mod Direct
pub mod Adaptive
pub mod Dispatch
pub mod Bundles
pub mod Runs
pub mod Audit
pub mod Services
pub mod Demos
pub mod Secrets
