-- ===== src/Relay.antt =====
-- internal/relaypmtu and internal/peerrelay: the relay of peer traffic.
pub mod Mtu
pub mod Peer
