-- ===== src/Registry/Types.antt =====
-- The data of the room registry: crates/wroom-core/src/lib.rs and the structs, enums and bounds of
-- crates/wroom-core/src/room.rs.
use wroom.Common.{ℕ, List, Option, Bool, true, ◌&&◌, ◌≡◌, ◌↔◌, arith, Eq, ◌==◌, nat_eq, list_eq}
use wroom.Common.Equality.{list_beq_iff}
use wroom.Common.Maps.{Map}

-- A `String`: its UTF-8 bytes.
abbrev pub Str : Type 0
Str = List ℕ

abbrev pub max_rooms : ℕ
max_rooms = 1024

abbrev pub max_participants_per_room : ℕ
max_participants_per_room = 512

abbrev pub max_tracks_per_participant : ℕ
max_tracks_per_participant = 16

abbrev pub max_layers_per_track : ℕ
max_layers_per_track = 8

abbrev pub max_subscriptions_per_participant : ℕ
max_subscriptions_per_participant = 2048

abbrev pub max_id_len : ℕ
max_id_len = 128

abbrev pub max_name_len : ℕ
max_name_len = 128

abbrev pub max_mid_len : ℕ
max_mid_len = 64

pub record Layer : Type 0 where
  pub spatial : ℕ
  pub temporal : ℕ

pub record TrackRef : Type 0 where
  pub participant_id : Str
  pub track_id : Str

pub record Subscription : Type 0 where
  pub track : TrackRef
  pub max_layer : Layer
  pub priority : ℕ

pub data TrackKind : Type 0 where
  unspecified audio video : TrackKind

pub data TrackSource : Type 0 where
  unspecified camera microphone screenshare screenshare_audio : TrackSource

pub record TrackMeta : Type 0 where
  pub kind : TrackKind
  pub source : TrackSource
  pub muted : Bool
  pub layers : List Layer
  pub mid : Str

pub record PublishOutcome : Type 0 where
  pub is_new : Bool
  pub mute_change : Option Bool

pub record Participant : Type 0 where
  pub id : Str
  pub name : Str
  pub tracks : Map Str TrackMeta
  pub subscriptions : Map TrackRef Subscription
  pub applied_subscription_revision : Option ℕ

pub record Room : Type 0 where
  pub id : Str
  pub participants : Map Str Participant

pub data RegistryError : Type 0 where
  invalid_input too_many_rooms room_full : RegistryError
  no_such_room no_such_participant no_such_track : RegistryError
  too_many_tracks too_many_subscriptions : RegistryError
  stale_revision : ℕ → RegistryError

-- `Result<A, RegistryError>`, with the panics of the code as a third outcome.
pub data Result {ℓ} (A : Type ℓ) : Type ℓ where
  ok : A → Result A
  err : RegistryError → Result A
  panicked : Result A

pub record Registry : Type 0 where
  pub rooms : Map Str Room
  pub next_participant_seq : ℕ

-- `#[derive(PartialEq)]` on `TrackRef`.
unfoldable pub track_ref_beq : TrackRef → TrackRef → Bool
track_ref_beq a b = (a.participant_id == b.participant_id) && (a.track_id == b.track_id)

pub track_ref_beq_iff : (a b : TrackRef) → (track_ref_beq a b ≡ true) ↔ (a ≡ b)
unfolding track_ref_beq
track_ref_beq_iff a b =
    ground
      (arith, list_beq_iff a.participant_id b.participant_id, list_beq_iff a.track_id b.track_id)

instance abbrev pub track_ref_eq : Eq TrackRef
track_ref_eq = record { equals = track_ref_beq; decides = track_ref_beq_iff }
