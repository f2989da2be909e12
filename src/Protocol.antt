-- ===== src/Protocol.antt =====
-- shared/src/protocol.rs and shared/src/protocol/: the messages, their signatures, and the
-- encrypted packets that carry them.
pub mod Message
pub mod Messages
pub mod Packet
pub mod Grants
pub mod Delivery
pub mod Framing
pub mod Pairing
