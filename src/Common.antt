-- ===== src/Common.antt =====
-- internal/common: identifiers and expirations.
pub mod Id
pub mod PageUrl
