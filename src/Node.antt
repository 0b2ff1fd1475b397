-- ===== src/Node.antt =====
-- internal/node: the phase of an edge node and the connectors it owns.
pub mod State
pub mod Manager
