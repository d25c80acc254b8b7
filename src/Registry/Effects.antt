-- ===== src/Registry/Effects.antt =====
-- What the operations of the registry do to the participants, seen through `find`.
use wroom.Common.{
  ℕ, ◌≤◌, ◌<◌, List, [], ◌∷◌, none, some, true, false, ◌≡◌, ◌≢◌, refl, ◌⊎◌, inl, inr, ◌&&◌, ◌↔◌,
  arith, length, Option-cases, Bool-cases, nat_eq, list_eq, if◌then◌else◌, ◌==◌, take, leb, get_or,
}
use wroom.Common.Equality.{list_beq_iff}
use wroom.Common.Maps.{
  lookup, contains_key, remove, HasDistinctKeys, lookup-insert, lookup-insert_self, lookup-remove,
  lookup-All,
}
use wroom.Registry.Types.{
  Str, TrackMeta, Participant, Room, Registry, Result, ok, err, panicked, no_such_room,
  no_such_participant, max_id_len, max_mid_len, max_tracks_per_participant, too_many_tracks,
}
use wroom.Registry.Tracks.{bool_eq, is_continuation_byte, truncate_string, publish_track}
use wroom.Registry.Bounds.{IsBounded, RoomEntry}
use wroom.Registry.Freshness.{find, find_put, find_in_room, find_stored}
use wroom.Registry.{
  is_bad_text, participant_mut, put_participant, with_participant, leave, publish, room,
}

module _ {ℓ} {A : Type ℓ} (reg : Registry) (room_id pid : Str)
    (f : Participant → Result A × Participant) where
  -- Where there is no such participant the operation fails, and the registry is as it was.
  pub with_participant_missing :
      find reg room_id pid ≡ none
      → ((with_participant reg room_id pid f ≡ (err no_such_room, reg)) × (room reg room_id ≡ none))
        ⊎ (with_participant reg room_id pid f ≡ (err no_such_participant, reg))
  unfolding with_participant participant_mut find room
  with_participant_missing h = elim (Option-cases (lookup room_id reg.rooms)) [
    | inl e ↦ inl (ground arith, e)
    | inr (r, e) ↦ inr (ground (arith, e, h))
  ]

  -- Where there is such a participant the operation acts on that participant and on nobody else.
  pub with_participant_found :
      (p : Participant) (rid j : Str)
      → find reg room_id pid ≡ some p
      → ((with_participant reg room_id pid f).0 ≡ (f p).0)
        × (find (with_participant reg room_id pid f).1 rid j
            ≡ (if (room_id == rid) && (pid == j) then some (f p).1 else find reg rid j))
  unfolding with_participant participant_mut put_participant
  with_participant_found p rid j h = elim (Option-cases (lookup room_id reg.rooms)) [
    | inl e ↦ absurd (unfold find in ground (arith, e, h))
    | inr (r, e) ↦
        let e' : lookup pid r.participants ≡ some p =
          ground (arith, find_in_room reg room_id pid r e) in
        rw (e, with_participant)
          (rw (e', with_participant)
            (rw (e, put_participant)
              (refl, find_stored reg room_id pid rid j r (f p).1 reg.next_participant_seq e)))
  ]

find_drop :
    (reg : Registry) (room_id rid j : Str)
    → HasDistinctKeys reg.rooms
    → find (record reg { rooms = remove room_id reg.rooms }) rid j
      ≡ (if room_id == rid then none else find reg rid j)
unfolding find
find_drop reg room_id rid j d = ground (arith, lookup-remove room_id rid reg.rooms d)

lookup_nil : (j : Str) → lookup {V = Participant} j [] ≡ none
unfolding lookup
lookup_nil j = refl

nil_of_length {ℓ} : {A : Type ℓ} (xs : List A) → leb (length xs) 0 ≡ true → xs ≡ []
nil_of_length [] h = refl
nil_of_length (x ∷ xs) h = ground arith

-- In a room of a registry within its bounds, `leave` reports whether the participant was there, takes
-- out that participant and nobody else, and the room is gone afterwards exactly when nobody else was
-- in it.
pub leave_effect :
    (reg : Registry) (room_id pid : Str) (r : Room)
    → IsBounded reg
    → room reg room_id ≡ some r
    → ((leave reg room_id pid).0 ≡ contains_key pid r.participants)
      × ((rid j : Str)
          → find (leave reg room_id pid).1 rid j
            ≡ (if (room_id == rid) && (pid == j) then none else find reg rid j))
      × ((room (leave reg room_id pid).1 room_id ≡ none) ↔ (remove pid r.participants ≡ []))
unfolding leave room
leave_effect reg room_id pid r b e =
    let br = lookup-All RoomEntry room_id reg.rooms b.each_room e in
    elim (Bool-cases (leb (length (remove pid r.participants)) 0)) [
      | inl last ↦
          let gone = nil_of_length (remove pid r.participants) last in
          rw (e, leave)
            (rw last (
              refl,
              λ rid j. ground (
                arith,
                find_drop reg room_id rid j b.room_keys,
                find_in_room reg room_id j r e,
                lookup-remove pid j r.participants br.participant_keys,
                lookup_nil j,
                gone,
                list_beq_iff room_id rid,
              ),
              (
                λ _. gone,
                λ _. ground (
                  arith,
                  lookup-remove room_id room_id reg.rooms b.room_keys,
                  list_beq_iff room_id room_id,
                ),
              ),
            ))
      | inr others ↦
          rw (e, leave)
            (rw others (
              refl,
              λ rid j. ground (
                arith,
                find_put reg room_id rid j (record r { participants = remove pid r.participants })
                    reg.next_participant_seq,
                find_in_room reg room_id j r e,
                lookup-remove pid j r.participants br.participant_keys,
                list_beq_iff room_id rid,
              ),
              (
                λ (h : lookup room_id _ ≡ none). ground (
                  arith,
                  h,
                  lookup-insert_self room_id (record r { participants = remove pid r.participants })
                      reg.rooms,
                ),
                λ gone. ground (arith, others, gone),
              ),
            ))
    ]

published-total :
    (reg : Registry) (room_id pid track_id : Str) (meta : TrackMeta)
    → (with_participant reg room_id pid (publish_track track_id meta)).0 ≢ panicked
unfolding with_participant participant_mut publish_track
published-total reg room_id pid track_id meta = ground arith

truncate_string-none_iff :
    (n : ℕ) (s : Str)
    → (truncate_string n s ≡ none) ↔ ((n < length s) × (is_continuation_byte (get_or s n 0) ≡ true))
unfolding truncate_string
truncate_string-none_iff n s = elim (Bool-cases (is_continuation_byte (get_or s n 0))) [
  | inl inside ↦ rw inside (ground arith)
  | inr boundary ↦ rw boundary (ground arith)
]

-- `publish` with a good track id panics exactly when the mid is longer than 64 bytes and its cut at
-- byte 64 falls inside a character.
pub publish_panics_iff :
    (reg : Registry) (room_id pid track_id : Str) (meta : TrackMeta)
    → is_bad_text track_id max_id_len ≡ false
    → ((publish reg room_id pid track_id meta).0 ≡ panicked) ↔ (
        (max_mid_len < length meta.mid)
        × (is_continuation_byte (get_or meta.mid max_mid_len 0) ≡ true))
unfolding publish
publish_panics_iff reg room_id pid track_id meta good =
    elim (Option-cases (truncate_string max_mid_len meta.mid)) [
      | inl e ↦
          let why = (truncate_string-none_iff max_mid_len meta.mid).0 e in
          rw good (rw (e, publish) (λ _. why, λ _. refl))
      | inr (mid, e) ↦
          let cut : TrackMeta = record meta { layers = take 8 meta.layers; mid = mid } in
          rw good (
            rw (e, publish)
              (
                λ h. absurd (published-total reg room_id pid track_id cut h),
                λ why. cc (e, (truncate_string-none_iff max_mid_len meta.mid).1 why),
              ))
    ]

-- Publishing stores the track under its id and leaves the other tracks and the subscriptions. A new id
-- is refused at 16 tracks; an old one is replaced, and the outcome reports a mute flag that flipped.
publish_track_effect :
    (track_id other : Str) (meta : TrackMeta) (p : Participant)
    → ((lookup track_id p.tracks ≡ none)
        × (max_tracks_per_participant ≤ length p.tracks)
        × (publish_track track_id meta p ≡ (err too_many_tracks, p)))
      ⊎ ((lookup other (publish_track track_id meta p).1.tracks
            ≡ (if track_id == other then some meta else lookup other p.tracks))
          × ((publish_track track_id meta p).1.subscriptions ≡ p.subscriptions)
          × ((publish_track track_id meta p).0
              ≡ ok (elim (lookup track_id p.tracks) [
                | none ↦ record { is_new = true; mute_change = none }
                | some old ↦ record {
                  is_new = false;
                  mute_change = if bool_eq old.muted meta.muted then none else some meta.muted;
                }
              ])))
unfolding publish_track
publish_track_effect track_id other meta p = elim (Option-cases (lookup track_id p.tracks)) [
  | inl e ↦ elim (Bool-cases (leb max_tracks_per_participant (length p.tracks))) [
    | inl full ↦ inl (e, ground arith, ground arith)
    | inr free ↦ inr (ground (arith, lookup-insert track_id other meta p.tracks))
  ]
  | inr (t, e) ↦ inr (ground (arith, lookup-insert track_id other meta p.tracks))
]
