-- ===== src/Operation.antt =====
-- internal/operation: single-use credentials.
pub mod Journal
