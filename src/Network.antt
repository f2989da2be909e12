-- ===== src/Network.antt =====
-- shared/src/network/: retransmission, interface selection and the receive loop.
pub mod Discovery
pub mod Firewall
