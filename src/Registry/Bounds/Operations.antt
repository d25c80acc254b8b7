-- ===== src/Registry/Bounds/Operations.antt =====
-- The operations of crates/wroom-core/src/room.rs and histories of them keep the bounds.
use wroom.Common.{
  ◌<◌, List, [], ◌∷◌, some, ◌≡◌, inl, inr, arith, length, take, leb, length-take, All, Option-cases,
  Bool-cases, nat_eq, list_eq,
}
use wroom.Common.Maps.{
  lookup, insert, remove, HasDistinctKeys, lookup-All, contains_key-lookup, contains_key-none,
  insert-insert, lookup-insert_self,
}
use wroom.Registry.Types.{
  Str, TrackMeta, Participant, Room, Registry, Result, max_rooms, max_participants_per_room,
  max_mid_len, track_ref_eq,
}
use wroom.Registry.Tracks.{truncate_string, publish_track, unpublish_track, mute_track}
use wroom.Registry.Subscriptions.{apply_subscriptions}
use wroom.Registry.{
  new_room, new_participant, participant_id_of, enter, join, leave, participant_mut,
  put_participant, with_participant, publish, unpublish, set_muted, update_subscriptions, new,
}
use wroom.Registry.Calls.{Call, joins, leaves, publishes, unpublishes, mutes, updates, step, run}
use wroom.Registry.Bounds.{
  IsBoundedTrack, IsBoundedParticipant, ParticipantEntry, RoomEntry, IsBounded, Keeps,
  length-truncate_string, put_member-IsBounded, put_room-IsBounded, drop_room-IsBounded,
  drop_member-IsBounded, publish_track-Keeps, unpublish_track-Keeps, mute_track-Keeps,
  apply_subscriptions-Keeps,
}

with_participant-IsBounded {ℓ} :
    {A : Type ℓ} (reg : Registry) (room_id pid : Str) (f : Participant → Result A × Participant)
    → Keeps f
    → IsBounded reg
    → IsBounded (with_participant reg room_id pid f).1
unfolding with_participant participant_mut put_participant
with_participant-IsBounded reg room_id pid f k b = elim (Option-cases (lookup room_id reg.rooms)) [
  | inl e ↦ rw (e, with_participant) b
  | inr (r, e) ↦
      let br = lookup-All RoomEntry room_id reg.rooms b.each_room e in
      elim (Option-cases (lookup pid r.participants)) [
        | inl e' ↦ rw (e, with_participant) (rw (e', with_participant) b)
        | inr (p, e') ↦
            let bp = lookup-All ParticipantEntry pid r.participants br.each_participant e' in
            let stored =
              put_member-IsBounded r pid (f p).1 br.each_participant br.participant_keys
                br.participant_count (k p bp) (inl (contains_key-lookup pid r.participants p e')) in
            rw (e, with_participant)
              (rw (e', with_participant)
                (rw (e, put_participant)
                  (put_room-IsBounded reg room_id _ reg.next_participant_seq b stored
                    (inl (contains_key-lookup room_id reg.rooms r e)))))
      ]
]

new_participant-IsBounded : (id name : Str) → IsBoundedParticipant (new_participant id name)
unfolding new_participant
new_participant-IsBounded id name = omega arith

enter-IsBounded :
    (reg : Registry) (room_id name : Str) (r : Room)
    → lookup room_id reg.rooms ≡ some r
    → All ParticipantEntry r.participants
    → HasDistinctKeys r.participants
    → IsBounded reg
    → IsBounded (enter reg room_id name).1
unfolding enter
enter-IsBounded reg room_id name r e each keys b =
    elim (Bool-cases (leb max_participants_per_room (length r.participants))) [
      | inl full ↦ rw (e, enter) (rw full b)
      | inr free ↦
          let pid = participant_id_of reg.next_participant_seq in
          let stored =
            put_member-IsBounded r pid (new_participant pid name) each keys (ground arith)
              (new_participant-IsBounded pid name) (inr (ground arith)) in
          rw (e, enter)
            (rw free (
              put_room-IsBounded reg room_id _ _ b stored
                (inl (contains_key-lookup room_id reg.rooms r e))))
    ]

join_new-IsBounded :
    (reg : Registry) (room_id name : Str)
    → length reg.rooms < max_rooms
    → IsBounded reg
    → IsBounded
        (enter (record reg { rooms = insert room_id (new_room room_id) reg.rooms }) room_id name).1
unfolding enter new_room
join_new-IsBounded reg room_id name free b =
    let pid = participant_id_of reg.next_participant_seq in
    let stored =
      put_member-IsBounded (new_room room_id) pid (new_participant pid name) tt tt (omega arith)
        (new_participant-IsBounded pid name) (inr (omega arith)) in
    rw (lookup-insert_self room_id (new_room room_id) reg.rooms, enter)
      (rw (insert-insert room_id _ (new_room room_id) reg.rooms)
        (put_room-IsBounded reg room_id _ _ b stored (inr free)))

pub join-IsBounded :
    (reg : Registry) (room_id name : Str) → IsBounded reg → IsBounded (join reg room_id name).1
unfolding join
join-IsBounded reg room_id name b = elim (Option-cases (lookup room_id reg.rooms)) [
  | inl e ↦
      ground (arith, b, join_new-IsBounded reg room_id name, contains_key-none room_id reg.rooms e)
  | inr (r, e) ↦
      let br = lookup-All RoomEntry room_id reg.rooms b.each_room e in
      ground (
        arith,
        enter-IsBounded reg room_id name r e br.each_participant br.participant_keys b,
        contains_key-lookup room_id reg.rooms r e,
      )
]

pub leave-IsBounded :
    (reg : Registry) (room_id pid : Str) → IsBounded reg → IsBounded (leave reg room_id pid).1
unfolding leave
leave-IsBounded reg room_id pid b = elim (Option-cases (lookup room_id reg.rooms)) [
  | inl e ↦ rw (e, leave) b
  | inr (r, e) ↦
      let br = lookup-All RoomEntry room_id reg.rooms b.each_room e in
      elim (Bool-cases (leb (length (remove pid r.participants)) 0)) [
        | inl last ↦ rw (e, leave) (rw last (drop_room-IsBounded reg room_id b))
        | inr others ↦
            rw (e, leave)
              (rw others (
                put_room-IsBounded reg room_id _ reg.next_participant_seq b
                  (drop_member-IsBounded r pid br (ground arith))
                  (inl (contains_key-lookup room_id reg.rooms r e))))
      ]
]

pub publish-IsBounded :
    (reg : Registry) (room_id pid track_id : Str) (meta : TrackMeta)
    → IsBounded reg
    → IsBounded (publish reg room_id pid track_id meta).1
unfolding publish
publish-IsBounded reg room_id pid track_id meta b =
    elim (Option-cases (truncate_string max_mid_len meta.mid)) [
      | inl e ↦ rw (e, publish) (ground (arith, b))
      | inr (mid, e) ↦
          let cut : TrackMeta = record meta { layers = take 8 meta.layers; mid = mid } in
          let fits : IsBoundedTrack cut = record {
            layers = omega (arith, length-take 8 meta.layers);
            mid = length-truncate_string 64 meta.mid mid e;
          } in
          rw (e, publish)
            (ground (
              arith,
              b,
              with_participant-IsBounded reg room_id pid (publish_track track_id cut)
                  (publish_track-Keeps track_id cut fits) b,
            ))
    ]

-- Every call, whether it succeeds, fails or panics, keeps the registry within its bounds: at most
-- 1024 rooms, none of them empty, 512 participants in each, 16 tracks with 8 layers and a mid of 64
-- bytes, 2048 subscriptions for each participant, and no key twice in any table.
pub step-IsBounded : (reg : Registry) (c : Call) → IsBounded reg → IsBounded (step reg c)
unfolding step unpublish set_muted update_subscriptions
step-IsBounded reg (joins room_id name) b = join-IsBounded reg room_id name b
step-IsBounded reg (leaves room_id pid) b = leave-IsBounded reg room_id pid b
step-IsBounded reg (publishes room_id pid track_id meta) b =
    publish-IsBounded reg room_id pid track_id meta b
step-IsBounded reg (unpublishes room_id pid track_id) b =
    with_participant-IsBounded reg room_id pid (unpublish_track track_id)
      (unpublish_track-Keeps track_id) b
step-IsBounded reg (mutes room_id pid track_id muted) b =
    with_participant-IsBounded reg room_id pid (mute_track track_id muted)
      (mute_track-Keeps track_id muted) b
step-IsBounded reg (updates room_id pid upsert removed revision) b =
    with_participant-IsBounded reg room_id pid (apply_subscriptions upsert removed revision)
      (apply_subscriptions-Keeps upsert removed revision) b

run-IsBounded : (reg : Registry) (cs : List Call) → IsBounded reg → IsBounded (run reg cs)
unfolding run
run-IsBounded reg [] b = b
run-IsBounded reg (c ∷ cs) b = run-IsBounded (step reg c) cs (step-IsBounded reg c b)

new-IsBounded : IsBounded new
unfolding new
new-IsBounded = omega arith

-- Every history that starts from the empty registry stays within the bounds.
pub run-new-IsBounded : (cs : List Call) → IsBounded (run new cs)
run-new-IsBounded cs = run-IsBounded new cs new-IsBounded
