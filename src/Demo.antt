-- ===== src/Demo.antt =====
-- The demonstrations of examples/: what they start, wait for, print and check.
pub mod Process
pub mod Until
pub mod Catalog
pub mod Support
pub mod Agent
pub mod Cli
pub mod Credentials
pub mod Transitions
pub mod Streams
pub mod Integration
pub mod Sdk
