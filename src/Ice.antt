-- ===== src/Ice.antt =====
-- crates/wroom-edge/src/ice.rs: the STUN codec and the ICE-lite agent.
pub mod Addresses
pub mod Stun
pub mod Building
pub mod Agent
pub mod Examples
