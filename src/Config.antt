-- ===== src/Config.antt =====
-- internal/config: the rules of origins.
pub mod Origin
