-- ===== src/Broker.antt =====
-- internal/agent/broker: the parts of a conversation's actor.
pub mod Queue
pub mod Content
pub mod Replay
pub mod Repair
pub mod Ledger
pub mod Archive
pub mod Interaction
