-- ===== src/Protocol.antt =====
-- internal/agent/protocol: what a browser and the broker tell each other.
pub mod Content
pub mod Delta
