-- ===== src/Registry.antt =====
-- The room registry, crates/wroom-core/src/room.rs: participants, published tracks and subscriptions.
-- Each operation takes the registry and returns its result with the registry that it leaves. The
-- `u64` counter wraps; `usize` sizes do not reach their bound. The data and the parts that act on one
-- participant are the children Types, Tracks and Subscriptions; the other children are proofs.
pub mod Types
pub mod Tracks
pub mod Subscriptions
pub mod Projection
pub mod Calls
pub mod Bounds
pub mod Identity
pub mod Freshness
pub mod Updates
pub mod Effects
pub mod Membership
pub mod Departure
pub mod Examples
use wroom.Common.{
  ℕ, ◌+◌, ◌%◌, ◌^◌, List, [], ◌∷◌, Option, none, some, Bool, true, false, ◌||◌, ltb, leb,
  if◌then◌else◌, nat_eq, list_eq, length, take,
}
use wroom.Common.Maps.{lookup, contains_key, insert, remove}
use wroom.Common.Decimal.{decimal}
use wroom.Registry.Types.{
  Str, TrackRef, Subscription, TrackMeta, PublishOutcome, Participant, Room, Registry, Result, ok,
  err, panicked, invalid_input, too_many_rooms, room_full, no_such_room, no_such_participant,
  max_rooms, max_participants_per_room, max_layers_per_track, max_id_len, max_name_len, max_mid_len,
}
use wroom.Registry.Tracks.{truncate_string, publish_track, unpublish_track, mute_track}
use wroom.Registry.Subscriptions.{apply_subscriptions}

pub new : Registry
new = record { rooms = []; next_participant_seq = 0 }

pub new_room : Str → Room
new_room id = record { id = id; participants = [] }

pub new_participant : Str → Str → Participant
new_participant id name = record {
  id = id;
  name = name;
  tracks = [];
  subscriptions = [];
  applied_subscription_revision = none;
}

pub room : Registry → Str → Option Room
room reg room_id = lookup room_id reg.rooms

unfoldable pub participant : Room → Str → Option Participant
participant r participant_id = lookup participant_id r.participants

-- `Participant::track`.
unfoldable pub track : Participant → Str → Option TrackMeta
track p track_id = lookup track_id p.tracks

unfoldable pub room_count : Registry → ℕ
room_count reg = length reg.rooms

-- A text is empty or longer than the bound.
abbrev pub is_bad_text : Str → ℕ → Bool
is_bad_text s bound = leb (length s) 0 || ltb bound (length s)

-- `format!("p{}", seq)`.
unfoldable pub participant_id_of : ℕ → Str
participant_id_of seq = b'p' ∷ decimal seq

-- The second half of `join`, once the room is ensured; `None` is the `expect`.
pub enter : Registry → Str → Str → Result Str × Registry
unfolding new_participant
enter reg room_id name = elim (lookup room_id reg.rooms) [
  | none ↦ (panicked, reg)
  | some r ↦
      if leb max_participants_per_room (length r.participants)
      then (err room_full, reg)
      else (let pid = participant_id_of reg.next_participant_seq in
          let r' = record r {
            participants = insert pid (new_participant pid name) r.participants;
          } in
          (
            ok pid,
            record reg {
              rooms = insert room_id r' reg.rooms;
              next_participant_seq = (reg.next_participant_seq + 1) % 2 ^ 64;
            },
          ))
]

pub join : Registry → Str → Str → Result Str × Registry
unfolding enter new_room
join reg room_id name =
    if is_bad_text room_id max_id_len
    then (err invalid_input, reg)
    else if is_bad_text name max_name_len
    then (err invalid_input, reg)
    else if contains_key room_id reg.rooms
    then enter reg room_id name
    else if leb max_rooms (length reg.rooms)
    then (err too_many_rooms, reg)
    else enter (record reg { rooms = insert room_id (new_room room_id) reg.rooms }) room_id name

pub leave : Registry → Str → Str → Bool × Registry
leave reg room_id participant_id = elim (lookup room_id reg.rooms) [
  | none ↦ (false, reg)
  | some r ↦
      let removed = contains_key participant_id r.participants in
      let r' = record r { participants = remove participant_id r.participants } in
      if leb (length r'.participants) 0
      then (removed, record reg { rooms = remove room_id reg.rooms })
      else (removed, record reg { rooms = insert room_id r' reg.rooms })
]

pub participant_mut : Registry → Str → Str → Result Participant
participant_mut reg room_id participant_id = elim (lookup room_id reg.rooms) [
  | none ↦ err no_such_room
  | some r ↦ elim (lookup participant_id r.participants) [
    | none ↦ err no_such_participant
    | some p ↦ ok p
  ]
]

-- The write through the `&mut Participant` that `participant_mut` returns.
pub put_participant : Registry → Str → Str → Participant → Registry
put_participant reg room_id participant_id p = elim (lookup room_id reg.rooms) [
  | none ↦ reg
  | some r ↦ record reg {
    rooms =
        insert room_id (record r { participants = insert participant_id p r.participants })
          reg.rooms;
  }
]

-- `let participant = self.participant_mut(..)?;` and what the method does with it.
pub with_participant {ℓ} :
    {A : Type ℓ}
    → Registry
    → Str
    → Str
    → (Participant → Result A × Participant)
    → Result A × Registry
with_participant reg room_id participant_id f = elim (participant_mut reg room_id participant_id) [
  | ok p ↦ let (result, p') = f p in (result, put_participant reg room_id participant_id p')
  | err e ↦ (err e, reg)
  | panicked ↦ (panicked, reg)
]

pub publish : Registry → Str → Str → Str → TrackMeta → Result PublishOutcome × Registry
unfolding with_participant
publish reg room_id participant_id track_id meta =
    if is_bad_text track_id max_id_len
    then (err invalid_input, reg)
    else elim (truncate_string max_mid_len meta.mid) [
      | none ↦ (panicked, reg)
      | some mid ↦ with_participant reg room_id participant_id (
          publish_track track_id
            (record meta { layers = take max_layers_per_track meta.layers; mid = mid }))
    ]

pub unpublish : Registry → Str → Str → Str → Result Bool × Registry
unfolding with_participant
unpublish reg room_id participant_id track_id =
    with_participant reg room_id participant_id (unpublish_track track_id)

pub set_muted : Registry → Str → Str → Str → Bool → Result Bool × Registry
unfolding with_participant
set_muted reg room_id participant_id track_id muted =
    with_participant reg room_id participant_id (mute_track track_id muted)

pub update_subscriptions :
    Registry → Str → Str → List Subscription → List TrackRef → ℕ → Result ℕ × Registry
unfolding with_participant
update_subscriptions reg room_id participant_id upsert removed revision =
    with_participant reg room_id participant_id (apply_subscriptions upsert removed revision)
