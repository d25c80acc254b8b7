-- ===== src/Registry/Bounds.antt =====
-- The bounds of the registry hold after every operation, and no room is ever empty.
pub mod Operations
use wroom.Common.{
  ℕ, ◌≤◌, ◌<◌, List, [], ◌∷◌, some, Bool, true, ◌≡◌, ◌⊎◌, inl, inr, arith, length, take, leb,
  length-take, All, Option-cases, Bool-cases, nat_eq, list_eq,
}
use wroom.Common.Maps.{
  Map, lookup, contains_key, insert, remove, HasDistinctKeys, insert-HasDistinctKeys,
  remove-HasDistinctKeys, length-insert, length-remove, insert-All, remove-All, lookup-All,
  contains_key-lookup, contains_key-none, insert-insert, lookup-insert_self,
}
use wroom.Registry.Types.{
  Str, TrackMeta, Subscription, TrackRef, Participant, Room, Registry, Result, max_rooms,
  max_participants_per_room, max_tracks_per_participant, max_layers_per_track,
  max_subscriptions_per_participant, max_mid_len, track_ref_eq,
}
use wroom.Registry.Tracks.{truncate_string, publish_track, unpublish_track, mute_track}
use wroom.Registry.Subscriptions.{apply_subscriptions, remove_all}
use wroom.Registry.Projection.{
  projected_size-eq-length, remove_all-HasDistinctKeys, upsert_all-HasDistinctKeys,
}
use wroom.Registry.{
  new_room, new_participant, participant_id_of, enter, join, leave, participant_mut,
  put_participant, with_participant, publish, unpublish, set_muted, update_subscriptions, new,
}
use wroom.Registry.Calls.{Call, joins, leaves, publishes, unpublishes, mutes, updates, step, run}

pub record IsBoundedTrack (t : TrackMeta) : Type 0 where
  pub layers : length t.layers ≤ max_layers_per_track
  pub mid : length t.mid ≤ max_mid_len

abbrev pub TrackEntry : Str × TrackMeta → Type 0
TrackEntry (id, t) = IsBoundedTrack t

pub record IsBoundedParticipant (p : Participant) : Type 0 where
  pub track_count : length p.tracks ≤ max_tracks_per_participant
  pub track_keys : HasDistinctKeys p.tracks
  pub each_track : All TrackEntry p.tracks
  pub subscription_count : length p.subscriptions ≤ max_subscriptions_per_participant
  pub subscription_keys : HasDistinctKeys p.subscriptions

abbrev pub ParticipantEntry : Str × Participant → Type 0
ParticipantEntry (id, p) = IsBoundedParticipant p

pub record IsBoundedRoom (r : Room) : Type 0 where
  pub occupied : 1 ≤ length r.participants
  pub participant_count : length r.participants ≤ max_participants_per_room
  pub participant_keys : HasDistinctKeys r.participants
  pub each_participant : All ParticipantEntry r.participants

abbrev pub RoomEntry : Str × Room → Type 0
RoomEntry (id, r) = IsBoundedRoom r

pub record IsBounded (reg : Registry) : Type 0 where
  pub room_count : length reg.rooms ≤ max_rooms
  pub room_keys : HasDistinctKeys reg.rooms
  pub each_room : All RoomEntry reg.rooms

pub length_pos {ℓ} :
    {V : Type ℓ} (id : Str) (m : Map Str V) → contains_key id m ≡ true → 1 ≤ length m
unfolding contains_key
length_pos id [] h = ground arith
length_pos id (x ∷ m) h = omega arith

-- What a change of one participant has to keep.
abbrev pub Keeps {ℓ} : {A : Type ℓ} → (Participant → Result A × Participant) → Type 0
Keeps f = (p : Participant) → IsBoundedParticipant p → IsBoundedParticipant (f p).1

pub length-truncate_string : (n : ℕ) (s t : Str) → truncate_string n s ≡ some t → length t ≤ n
unfolding truncate_string
length-truncate_string n s t h = ground (arith, length-take n s)

-- To store an entry: the key is held already, or the table has room.
pub put_track-IsBounded :
    (p : Participant) (id : Str) (t : TrackMeta)
    → IsBoundedParticipant p
    → IsBoundedTrack t
    → (contains_key id p.tracks ≡ true) ⊎ (length p.tracks < max_tracks_per_participant)
    → IsBoundedParticipant (record p { tracks = insert id t p.tracks })
put_track-IsBounded p id t b bt room = record {
  track_count = ground (arith, b.track_count, length-insert id t p.tracks);
  track_keys = insert-HasDistinctKeys id t p.tracks b.track_keys;
  each_track = insert-All TrackEntry id t p.tracks b.each_track bt;
  subscription_count = b.subscription_count;
  subscription_keys = b.subscription_keys;
}

pub put_member-IsBounded :
    (r : Room) (id : Str) (p : Participant)
    → All ParticipantEntry r.participants
    → HasDistinctKeys r.participants
    → length r.participants ≤ max_participants_per_room
    → IsBoundedParticipant p
    → (contains_key id r.participants ≡ true) ⊎ (length r.participants < max_participants_per_room)
    → IsBoundedRoom (record r { participants = insert id p r.participants })
put_member-IsBounded r id p each keys count bp room = record {
  occupied = ground (arith, length-insert id p r.participants, length_pos id r.participants);
  participant_count = ground (arith, count, length-insert id p r.participants);
  participant_keys = insert-HasDistinctKeys id p r.participants keys;
  each_participant = insert-All ParticipantEntry id p r.participants each bp;
}

pub put_room-IsBounded :
    (reg : Registry) (id : Str) (r : Room) (seq : ℕ)
    → IsBounded reg
    → IsBoundedRoom r
    → (contains_key id reg.rooms ≡ true) ⊎ (length reg.rooms < max_rooms)
    → IsBounded (record { rooms = insert id r reg.rooms; next_participant_seq = seq })
put_room-IsBounded reg id r seq b br room = record {
  room_count = ground (arith, b.room_count, length-insert id r reg.rooms);
  room_keys = insert-HasDistinctKeys id r reg.rooms b.room_keys;
  each_room = insert-All RoomEntry id r reg.rooms b.each_room br;
}

pub drop_room-IsBounded :
    (reg : Registry) (id : Str)
    → IsBounded reg
    → IsBounded (record reg { rooms = remove id reg.rooms })
drop_room-IsBounded reg id b = record {
  room_count = ground (arith, b.room_count, length-remove id reg.rooms);
  room_keys = remove-HasDistinctKeys id reg.rooms b.room_keys;
  each_room = remove-All RoomEntry id reg.rooms b.each_room;
}

pub drop_member-IsBounded :
    (r : Room) (id : Str)
    → IsBoundedRoom r
    → 1 ≤ length (remove id r.participants)
    → IsBoundedRoom (record r { participants = remove id r.participants })
drop_member-IsBounded r id b left = record {
  occupied = left;
  participant_count = ground (arith, b.participant_count, length-remove id r.participants);
  participant_keys = remove-HasDistinctKeys id r.participants b.participant_keys;
  each_participant = remove-All ParticipantEntry id r.participants b.each_participant;
}

pub publish_track-Keeps :
    (track_id : Str) (meta : TrackMeta) → IsBoundedTrack meta → Keeps (publish_track track_id meta)
unfolding publish_track
publish_track-Keeps track_id meta m p b = elim (Option-cases (lookup track_id p.tracks)) [
  | inl e ↦ rw (e, publish_track) (ground (arith, put_track-IsBounded p track_id meta b m))
  | inr (t, e) ↦
      rw (e, publish_track)
        (put_track-IsBounded p track_id meta b m (inl (contains_key-lookup track_id p.tracks t e)))
]

pub unpublish_track-Keeps : (track_id : Str) → Keeps (unpublish_track track_id)
unfolding unpublish_track
unpublish_track-Keeps track_id p b = record {
  track_count = ground (arith, b.track_count, length-remove track_id p.tracks);
  track_keys = remove-HasDistinctKeys track_id p.tracks b.track_keys;
  each_track = remove-All TrackEntry track_id p.tracks b.each_track;
  subscription_count = b.subscription_count;
  subscription_keys = b.subscription_keys;
}

pub muted-IsBounded :
    (t : TrackMeta) (muted : Bool) → IsBoundedTrack t → IsBoundedTrack (record t { muted = muted })
muted-IsBounded t muted b = record { layers = b.layers; mid = b.mid }

pub mute_track-Keeps : (track_id : Str) (muted : Bool) → Keeps (mute_track track_id muted)
unfolding mute_track
mute_track-Keeps track_id muted p b = elim (Option-cases (lookup track_id p.tracks)) [
  | inl e ↦ rw (e, mute_track) b
  | inr (t, e) ↦
      let old = lookup-All TrackEntry track_id p.tracks b.each_track e in
      let held = contains_key-lookup track_id p.tracks t e in
      let stored =
        put_track-IsBounded p track_id (record t { muted = muted }) b (muted-IsBounded t muted old)
          (inl held) in
      rw (e, mute_track) (ground (arith, stored))
]

pub apply_subscriptions-Keeps :
    (upsert : List Subscription) (removed : List TrackRef) (revision : ℕ)
    → Keeps (apply_subscriptions upsert removed revision)
unfolding apply_subscriptions
apply_subscriptions-Keeps upsert removed revision p b = ground (
  arith,
  projected_size-eq-length p.subscriptions upsert removed b.subscription_keys,
  upsert_all-HasDistinctKeys (remove_all p.subscriptions removed) upsert,
  remove_all-HasDistinctKeys p.subscriptions removed b.subscription_keys,
)
