-- ===== src/Connector.antt =====
-- internal/connectorprotocol: the sessions that the edge holds with the tunnel connectors.
pub mod Error
pub mod Identity
pub mod Message
pub mod DrainMessage
pub mod Auth
pub mod Registry
pub mod Capability
pub mod Session
