-- ===== src/Client.antt =====
-- python/ai_protocol/client.py: the adaptive asynchronous client.
pub mod Policy
pub mod Revision
pub mod Gate
pub mod System
pub mod Body
pub mod Call
