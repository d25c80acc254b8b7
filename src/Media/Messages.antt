-- ===== src/Media/Messages.antt =====
-- The data of crates/wroomd/src/media.rs that the router and the shards share. A channel to a signaling
-- socket is a number.
use wroom.Common.{ℕ, List, Option}
use wroom.Common.Bytes.{Bytes}
use wroom.Session.Messages.{Track}

pub data Leg : Type 0 where
  publisher subscriber : Leg

-- `TransportKey`: a transport's identity.
pub record TransportKey : Type 0 where
  pub room : Bytes
  pub participant : Bytes
  pub leg : Leg

-- `MediaKind` of crates/wroom-edge/src/sdp.rs.
pub data MediaKind : Type 0 where
  audio video text application message : MediaKind
  other : Bytes → MediaKind

unfoldable pub kind_u8 : MediaKind → ℕ
kind_u8 audio = 1
kind_u8 video = 2
kind_u8 text = 2
kind_u8 application = 2
kind_u8 message = 2
kind_u8 (other token) = 2

-- A resolved want-set, (publisher, kind) pairs; `none` wants all.
abbrev pub WantSet : Type 0
WantSet = Option (List (ℕ × ℕ))

abbrev pub WantsTable : Type 0
WantsTable = List (ℕ × WantSet)

-- Owner, track id, kind and canonical mid.
pub record TrackRef : Type 0 where
  pub owner : Bytes
  pub track_id : Bytes
  pub kind : MediaKind
  pub mid : Bytes

-- `MediaControl` of crates/wroom-signaling/src/media.rs.
pub data MediaControl : Type 0 where
  joined : Bytes → Bytes → ℕ → MediaControl
  publisher_offer : Bytes → Bytes → Bytes → MediaControl
  subscriber_answer : Bytes → Bytes → Bytes → MediaControl
  tracks_published : Bytes → Bytes → List Track → MediaControl
  subscriptions_changed : Bytes → Bytes → List (Bytes × Bytes) → MediaControl
  left : Bytes → Bytes → MediaControl

-- `ShardCtl`, without the active speakers.
pub data ShardCtl : Type 0 where
  shutdown : ShardCtl
  room_up : ℕ → Bytes → ShardCtl
  member_up : ℕ → Bytes → ℕ → Option ℕ → ShardCtl
  member_gone : ℕ → Bytes → ShardCtl
  wants_all : ℕ → WantsTable → ShardCtl
  pub_offer : ℕ → Bytes → Bytes → ShardCtl
  sub_answer : ℕ → Bytes → Bytes → ShardCtl
  offer_sub : ℕ → Bytes → List TrackRef → ShardCtl
