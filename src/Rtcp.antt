-- ===== src/Rtcp.antt =====
-- crates/wroom-edge/src/rtcp.rs: RTCP blocks, their views and builders, and compound datagrams.
pub mod Block
pub mod Reports
pub mod Sources
pub mod Feedback
pub mod Twcc
pub mod Compound
pub mod Examples
