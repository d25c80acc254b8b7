-- ===== src/Media.antt =====
-- crates/wroomd/src/media.rs: the control plane of the media plane.
pub mod Messages
pub mod Rooms
pub mod Router
pub mod Fanout
pub mod Shards
pub mod Plane
pub mod Feedback
pub mod Receiving
pub mod Reporting
pub mod Examples
