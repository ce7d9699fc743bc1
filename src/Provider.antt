-- ===== src/Provider.antt =====
-- internal/agent/provider: the values that the broker exchanges with a provider adapter.
pub mod Text
pub mod Message
pub mod Turn
pub mod Interaction
pub mod Catalog
