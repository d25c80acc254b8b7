-- ===== src/Registry/Tracks.antt =====
-- The part of `publish`, `unpublish` and `set_muted` of crates/wroom-core/src/room.rs that acts on
-- one participant's tracks, and `String::truncate`.
use wroom.Common.{
  ℕ, Option, none, some, Bool, true, false, not, ◌&&◌, ltb, leb, if◌then◌else◌, nat_eq, list_eq,
  length, get_or, take,
}
use wroom.Common.Maps.{lookup, contains_key, insert, remove}
use wroom.Registry.Types.{
  Str, TrackMeta, PublishOutcome, Participant, Result, ok, err, no_such_track, too_many_tracks,
  max_tracks_per_participant,
}

abbrev pub bool_eq : Bool → Bool → Bool
bool_eq true b = b
bool_eq false b = not b

-- A byte that continues a character: no boundary lies before it.
abbrev pub is_continuation_byte : ℕ → Bool
is_continuation_byte b = leb 0x80 b && ltb b 0xc0

-- `String::truncate` to a positive length; `none` is its panic inside a character.
unfoldable pub truncate_string : ℕ → Str → Option Str
truncate_string n s =
    if ltb n (length s)
    then (if is_continuation_byte (get_or s n 0) then none else some (take n s))
    else some s

-- `publish` from `participant_mut` on: insert or update the entry of a track.
unfoldable pub publish_track : Str → TrackMeta → Participant → Result PublishOutcome × Participant
publish_track track_id meta p = elim (lookup track_id p.tracks) [
  | none ↦ if leb max_tracks_per_participant (length p.tracks) then (err too_many_tracks, p) else (
    ok (record { is_new = true; mute_change = none }),
    record p { tracks = insert track_id meta p.tracks },
  )
  | some old ↦ (
    ok (record {
      is_new = false;
      mute_change = if bool_eq old.muted meta.muted then none else some meta.muted;
    }),
    record p { tracks = insert track_id meta p.tracks },
  )
]

unfoldable pub unpublish_track : Str → Participant → Result Bool × Participant
unpublish_track track_id p =
    (ok (contains_key track_id p.tracks), record p { tracks = remove track_id p.tracks })

unfoldable pub mute_track : Str → Bool → Participant → Result Bool × Participant
mute_track track_id muted p = elim (lookup track_id p.tracks) [
  | none ↦ (err no_such_track, p)
  | some t ↦
      if bool_eq t.muted muted
      then (ok false, p)
      else (ok true, record p { tracks = insert track_id (record t { muted = muted }) p.tracks })
]
