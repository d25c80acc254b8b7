-- ===== src/Rtp.antt =====
-- crates/wroom-edge/src/rtp.rs: RTP packets, header extensions and the rewrite for forwarding.
pub mod Extensions
pub mod Packet
pub mod Rewriting
pub mod Examples
