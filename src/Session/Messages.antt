-- ===== src/Session/Messages.antt =====
-- The messages of proto/wroom/signaling/v1/signaling.proto that a session reads and writes, and their
-- conversions to and from the core types in crates/wroom-signaling/src/session.rs. An enumeration is what
-- the generated getter gives: an unknown value is the unspecified one. `TrackRef`, `Layer` and the
-- enumerations of a track have the same fields and values on both sides, and are the core types.
use wroom.Common.{ℕ, List, [], ◌∷◌, Option, none, some, Bool, true, false, ◌&&◌, ◌^◌, ◌-◌, map}
use wroom.Registry.Types.{
  Str, TrackRef, Layer, TrackMeta, TrackKind, TrackSource, Subscription, Participant, Room,
  RegistryError,
}

pub data SignalTarget : Type 0 where
  unspecified publisher subscriber : SignalTarget

pub record SessionDescription : Type 0 where
  pub target : SignalTarget
  pub kind : ℕ
  pub sdp : Str

pub record IceCandidates : Type 0 where
  pub target : SignalTarget
  pub candidates : List Str

-- Without the client information, which is only logged.
pub record JoinRequest : Type 0 where
  pub token : Str
  pub publisher_offer : Option SessionDescription

pub record Track : Type 0 where
  pub id : Str
  pub kind : TrackKind
  pub source : TrackSource
  pub muted : Bool
  pub layers : List Layer
  pub mid : Str

pub record SubscriptionRequest : Type 0 where
  pub track : Option TrackRef
  pub max_layer : Option Layer
  pub priority : ℕ

pub record UpdateSubscriptions : Type 0 where
  pub upsert : List SubscriptionRequest
  pub removed : List TrackRef
  pub revision : ℕ

pub record UpdateLocalTracks : Type 0 where
  pub publish : List Track
  pub unpublish : List Str

pub data ClientMessage : Type 0 where
  join : JoinRequest → ClientMessage
  session_description : SessionDescription → ClientMessage
  ice_candidates : IceCandidates → ClientMessage
  update_subscriptions : UpdateSubscriptions → ClientMessage
  update_local_tracks : UpdateLocalTracks → ClientMessage
  send_chat : Str → ClientMessage
  pong leave : ClientMessage

pub record Member : Type 0 where
  pub id : Str
  pub name : Str
  pub tracks : List Track

pub record RoomState : Type 0 where
  pub id : Str
  pub participants : List Member

pub record TrackPublished : Type 0 where
  pub participant_id : Str
  pub track : Track

pub record TrackMuted : Type 0 where
  pub track : TrackRef
  pub muted : Bool

pub record RoomDelta : Type 0 where
  pub joined : List Member
  pub left : List Str
  pub published : List TrackPublished
  pub unpublished : List TrackRef
  pub mute_changes : List TrackMuted

abbrev pub no_delta : RoomDelta
no_delta = record { joined = []; left = []; published = []; unpublished = []; mute_changes = [] }

pub record ChatMessage : Type 0 where
  pub id : Str
  pub participant_id : Str
  pub display_name : Str
  pub text : Str
  pub sent_at_ms : ℕ

pub data Reason : Type 0 where
  unspecified client_left removed room_ended server_shutdown reconnect_elsewhere : Reason

-- The texts that a session gives as the detail of a disconnect.
pub data Detail : Type 0 where
  first_must_be_join empty_message invalid_token already_joined bye : Detail
  join_rejected : RegistryError → Detail

-- The messages that a session sends. A join response has no ICE servers and no offer, and a subscription
-- update no grants.
pub data ServerMessage : Type 0 where
  join_response : Str → RoomState → ServerMessage
  room_delta : RoomDelta → ServerMessage
  subscription_update : ℕ → ServerMessage
  chat : ChatMessage → ServerMessage
  disconnect : Reason → Detail → ServerMessage

pub data Output : Type 0 where
  to_self to_peers : ServerMessage → Output
  close : Output

abbrev pub nil : {A : Type 0} → List A → Bool
nil [] = true
nil (x ∷ xs) = false

unfoldable pub room_delta_is_empty : RoomDelta → Bool
room_delta_is_empty d =
    nil d.joined && nil d.left && nil d.published && nil d.unpublished && nil d.mute_changes

unfoldable pub core_track_meta : Track → TrackMeta
core_track_meta t = record {
  kind = t.kind;
  source = t.source;
  muted = t.muted;
  layers = t.layers;
  mid = t.mid;
}

abbrev pub unbounded_layer : Layer
unbounded_layer = record { spatial = 2 ^ 32 - 1; temporal = 2 ^ 32 - 1 }

-- `filter_map(core_subscription)`.
unfoldable pub core_subscriptions : List SubscriptionRequest → List Subscription
core_subscriptions [] = []
core_subscriptions (s ∷ ss) = elim s.track [
  | none ↦ core_subscriptions ss
  | some track ↦
      let max_layer : Layer = elim s.max_layer [ none ↦ unbounded_layer | some l ↦ l ] in
      record { track = track; max_layer = max_layer; priority = s.priority } ∷ core_subscriptions ss
]

unfoldable pub proto_track : Str × TrackMeta → Track
proto_track (id, meta) = record {
  id = id;
  kind = meta.kind;
  source = meta.source;
  muted = meta.muted;
  layers = meta.layers;
  mid = meta.mid;
}

unfoldable pub proto_participant : Participant → Member
proto_participant p = record { id = p.id; name = p.name; tracks = map proto_track p.tracks }

unfoldable pub proto_room : Room → RoomState
proto_room r = record {
  id = r.id;
  participants = map (λ (x : Str × Participant). proto_participant x.1) r.participants;
}
