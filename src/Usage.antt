-- ===== src/Usage.antt =====
-- internal/usage: what the edge counts and reports.
pub mod Counters
pub mod Queue
