-- ===== src/Benchmark.antt =====
-- benchmarks: the division of recorded work among processes, and the analysis of the records.
pub mod Tasks
pub mod Partition
pub mod Round
pub mod Percentile
pub mod Records
pub mod Summary
pub mod Counts
pub mod Delays
pub mod Phases
pub mod Clients
pub mod Trace
