-- ===== src/Srtp.antt =====
-- crates/wroom-edge/src/srtp.rs, SRTP and SRTCP packet protection: the per-SSRC index windows, the
-- table of streams, the ciphers with their IVs, and the packet paths.
pub mod Errors
pub mod Window
pub mod Streams
pub mod Ciphers
pub mod Packets
pub mod Control
pub mod Accounts
pub mod Examples
