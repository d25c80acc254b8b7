-- ===== src/Session.antt =====
-- crates/wroom-signaling/src/session.rs: the signaling session, which drives the room registry with the
-- messages of one client.
pub mod Messages
pub mod Machine
pub mod Soundness
pub mod Ownership
pub mod Closing
pub mod Examples
