-- ===== src/Registry/Membership.antt =====
-- Which operations keep a participant in its room, and that they do not panic for one.
use wroom.Common.{
  ℕ, List, some, ◌≡◌, ◌≢◌, arith, inl, inr, Option-cases, Bool-cases, beq_refl, list_eq, nat_eq,
  take,
}
use wroom.Common.Maps.{lookup, insert, contains_key-none, contains_key-lookup, lookup-insert_self}
use wroom.Registry.Types.{
  Str, Participant, Room, Registry, Result, ok, panicked, TrackMeta, max_mid_len, Subscription,
  TrackRef, max_id_len, max_layers_per_track,
}
use wroom.Registry.{
  publish, unpublish, update_subscriptions, join, enter, with_participant, is_bad_text,
  new_participant, new_room, room, participant,
}
use wroom.Registry.Tracks.{truncate_string, unpublish_track, publish_track}
use wroom.Registry.Subscriptions.{apply_subscriptions}
use wroom.Registry.Freshness.{find, join_cases, enter_ok}
use wroom.Registry.Effects.{with_participant_found}

-- The registry holds this participant in this room.
abbrev pub Kept : Registry → Str → Str → Type 0
Kept reg rid pid = (p : Participant) × (find reg rid pid ≡ some p)

module _ {A : Type 0} (reg : Registry) (rid pid : Str)
    (f : Participant → Result A × Participant) where
  with_participant-Kept :
      Kept reg rid pid
      → ((p : Participant) → (f p).0 ≢ panicked)
      → ((with_participant reg rid pid f).0 ≢ panicked)
        × Kept (with_participant reg rid pid f).1 rid pid
  with_participant-Kept (p, here) total =
      let effect = with_participant_found reg rid pid f p rid pid here in
      let same = beq_refl rid in
      let same' = beq_refl pid in
      (
        λ bad. total p (ground (arith, effect.0, bad)),
        ((f p).1, ground (arith, effect.1, same, same')),
      )

publish_track-total :
    (track_id : Str) (meta : TrackMeta) (p : Participant)
    → (publish_track track_id meta p).0 ≢ panicked
unfolding publish_track
publish_track-total track_id meta p = ground arith

unpublish_track-total :
    (track_id : Str) (p : Participant) → (unpublish_track track_id p).0 ≢ panicked
unfolding unpublish_track
unpublish_track-total track_id p = ground arith

apply_subscriptions-total :
    (upsert : List Subscription) (removed : List TrackRef) (revision : ℕ) (p : Participant)
    → (apply_subscriptions upsert removed revision p).0 ≢ panicked
unfolding apply_subscriptions
apply_subscriptions-total upsert removed revision p = ground arith

-- The cut of a mid to its bound does not fall inside a character.
abbrev pub HasCleanMid : Str → Type 0
HasCleanMid mid = (cut : Str) × (truncate_string max_mid_len mid ≡ some cut)

module _ (reg : Registry) (rid pid : Str) (kept : Kept reg rid pid) where
  pub publish-Kept :
      (track_id : Str) (meta : TrackMeta)
      → HasCleanMid meta.mid
      → ((publish reg rid pid track_id meta).0 ≢ panicked)
        × Kept (publish reg rid pid track_id meta).1 rid pid
  unfolding publish
  publish-Kept track_id meta (cut, clean) =
      let stored = record meta { layers = take max_layers_per_track meta.layers; mid = cut } in
      let found =
        with_participant-Kept reg rid pid (publish_track track_id stored) kept
          (publish_track-total track_id stored) in
      elim (Bool-cases (is_bad_text track_id max_id_len)) [
        | inl bad ↦ rw (bad, publish) (ground arith, kept)
        | inr good ↦ rw (good, publish) (rw (clean, publish) found)
      ]

  pub unpublish-Kept :
      (track_id : Str)
      → ((unpublish reg rid pid track_id).0 ≢ panicked)
        × Kept (unpublish reg rid pid track_id).1 rid pid
  unfolding unpublish
  unpublish-Kept track_id =
      with_participant-Kept reg rid pid (unpublish_track track_id) kept
        (unpublish_track-total track_id)

  pub update_subscriptions-Kept :
      (upsert : List Subscription) (removed : List TrackRef) (revision : ℕ)
      → ((update_subscriptions reg rid pid upsert removed revision).0 ≢ panicked)
        × Kept (update_subscriptions reg rid pid upsert removed revision).1 rid pid
  unfolding update_subscriptions
  update_subscriptions-Kept upsert removed revision =
      with_participant-Kept reg rid pid (apply_subscriptions upsert removed revision) kept
        (apply_subscriptions-total upsert removed revision)

-- A join does not panic, and one that succeeds leaves its participant in the room.
module _ (reg : Registry) (rid name : Str) where
  enter-total :
      (before : Registry) (r : Room)
      → lookup rid before.rooms ≡ some r
      → (enter before rid name).0 ≢ panicked
  unfolding enter
  enter-total before r e = rw (e, enter) (ground arith)

  pub join-total : (join reg rid name).0 ≢ panicked
  unfolding join
  join-total = elim (Option-cases (lookup rid reg.rooms)) [
    | inl e ↦
        let absent = contains_key-none rid reg.rooms e in
        let fresh = record reg { rooms = insert rid (new_room rid) reg.rooms } in
        let total =
          enter-total fresh (new_room rid) (lookup-insert_self rid (new_room rid) reg.rooms) in
        ground (arith, absent, total)
    | inr (r, e) ↦
        let present = contains_key-lookup rid reg.rooms r e in
        let total = enter-total reg r e in ground (arith, present, total)
  ]

  pub join-Kept : (pid : Str) → (join reg rid name).0 ≡ ok pid → Kept (join reg rid name).1 rid pid
  join-Kept pid h =
      let (before, r, e, way, seq, same) = join_cases reg rid name h in
      let h' : (enter before rid name).0 ≡ ok pid = rw (← way) h in
      let effect = enter_ok before rid name rid pid r e h' in
      (new_participant pid name, rw way (ground (arith, effect.1, beq_refl rid, beq_refl pid)))

-- A participant of a room is found in it.
pub Kept-room :
    (reg : Registry) (rid pid : Str)
    → Kept reg rid pid
    → (r : Room) × (p : Participant) × (room reg rid ≡ some r) × (participant r pid ≡ some p)
unfolding find room participant
Kept-room reg rid pid (p, here) = elim (Option-cases (lookup rid reg.rooms)) [
  | inl e ↦ absurd (ground (arith, e, here))
  | inr (r, e) ↦ (r, p, e, ground (arith, e, here))
]
