-- ===== src/Carrier.antt =====
-- internal/datacarrier: which carriers of connectors the edge expects, and which streams they may open.
pub mod Admission
