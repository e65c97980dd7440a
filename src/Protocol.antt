-- ===== src/Protocol.antt =====
-- python/ai_protocol/protocol.py: validation of discovery documents, and bounded retries.
pub mod Origin
pub mod Operation
pub mod Discover
pub mod Retry
pub mod Execute
pub mod Trace
pub mod Bounds
