-- ===== src/Registry/Freshness/History.antt =====
-- Histories of crates/wroom-core/src/room.rs's operations keep to the ids that were given out.
use wroom.Common.{
  take, ◌+◌, ◌%◌, ◌^◌, ◌<◌, List, [], ◌∷◌, ◌≡◌, refl, inl, inr, arith, length, Option-cases,
  Bool-cases, nat_eq, list_eq, leb,
}
use wroom.Common.Maps.{lookup, insert, lookup-All, insert-All, remove-All, remove}
use wroom.Registry.Types.{
  Str, Participant, Registry, Result, TrackMeta, max_participants_per_room, max_mid_len,
}
use wroom.Registry.Identity.{step-Issues}
use wroom.Registry.Tracks.{truncate_string, publish_track}
use wroom.Registry.Calls.{Call, joins, leaves, publishes, unpublishes, mutes, updates, step, run}
use wroom.Registry.{
  new, new_room, enter, join, leave, participant_id_of, with_participant, put_participant,
  participant_mut, publish, unpublish, set_muted, update_subscriptions,
}
use wroom.Registry.Freshness.{
  IsIssuedBelow, IssuedMember, IssuedRoom, AllIssued, room_mono, AllIssued-mono,
}

with_participant-AllIssued {ℓ} :
    {A : Type ℓ} (reg : Registry) (room_id pid : Str) (f : Participant → Result A × Participant)
    → AllIssued reg
    → AllIssued (with_participant reg room_id pid f).1
unfolding with_participant participant_mut put_participant
with_participant-AllIssued reg room_id pid f a = elim (Option-cases (lookup room_id reg.rooms)) [
  | inl e ↦ rw (e, with_participant) a
  | inr (r, e) ↦
      let n = reg.next_participant_seq in
      let members = lookup-All (IssuedRoom n) room_id reg.rooms a e in
      elim (Option-cases (lookup pid r.participants)) [
        | inl e' ↦ rw (e, with_participant) (rw (e', with_participant) a)
        | inr (p, e') ↦
            let old = lookup-All (IssuedMember n) pid r.participants members e' in
            rw (e, with_participant)
              (rw (e', with_participant)
                (rw (e, put_participant)
                  (insert-All (IssuedRoom n) room_id _ reg.rooms a
                    (insert-All (IssuedMember n) pid (f p).1 r.participants members old))))
      ]
]

enter-AllIssued :
    (reg : Registry) (room_id name : Str)
    → reg.next_participant_seq + 1 < 2 ^ 64
    → AllIssued reg
    → AllIssued (enter reg room_id name).1
unfolding enter
enter-AllIssued reg room_id name w a = elim (Option-cases (lookup room_id reg.rooms)) [
  | inl e ↦ rw (e, enter) a
  | inr (r, e) ↦
      let n = reg.next_participant_seq in
      let grown : (n + 1) % 2 ^ 64 ≡ n + 1 = omega arith in
      let members = lookup-All (IssuedRoom n) room_id reg.rooms a e in
      let members' = room_mono n (n + 1) (room_id, r) (omega arith) members in
      let new_id : IsIssuedBelow (n + 1) (participant_id_of n) = (n, omega arith, refl) in
      elim (Bool-cases (leb max_participants_per_room (length r.participants))) [
        | inl full ↦ rw (e, enter) (rw full a)
        | inr free ↦
            rw (e, enter)
              (rw free (
                rw grown (
                  insert-All (IssuedRoom (n + 1)) room_id _ reg.rooms
                    (AllIssued-mono n (n + 1) reg.rooms (omega arith) a)
                    (insert-All (IssuedMember (n + 1)) (participant_id_of n) _ r.participants
                      members' new_id))))
      ]
]

join-AllIssued :
    (reg : Registry) (room_id name : Str)
    → reg.next_participant_seq + 1 < 2 ^ 64
    → AllIssued reg
    → AllIssued (join reg room_id name).1
unfolding join new_room
join-AllIssued reg room_id name w a = ground (
  arith,
  a,
  enter-AllIssued reg room_id name w a,
  enter-AllIssued (record reg { rooms = insert room_id (new_room room_id) reg.rooms }) room_id name
      w
      (insert-All (IssuedRoom reg.next_participant_seq) room_id (new_room room_id) reg.rooms a tt),
)

leave-AllIssued :
    (reg : Registry) (room_id pid : Str) → AllIssued reg → AllIssued (leave reg room_id pid).1
unfolding leave
leave-AllIssued reg room_id pid a = elim (Option-cases (lookup room_id reg.rooms)) [
  | inl e ↦ rw (e, leave) a
  | inr (r, e) ↦
      let n = reg.next_participant_seq in
      let members = lookup-All (IssuedRoom n) room_id reg.rooms a e in
      elim (Bool-cases (leb (length (remove pid r.participants)) 0)) [
        | inl last ↦ rw (e, leave) (rw last (remove-All (IssuedRoom n) room_id reg.rooms a))
        | inr others ↦
            rw (e, leave)
              (rw others (
                insert-All (IssuedRoom n) room_id _ reg.rooms a
                  (remove-All (IssuedMember n) pid r.participants members)))
      ]
]

publish-AllIssued :
    (reg : Registry) (room_id pid track_id : Str) (meta : TrackMeta)
    → AllIssued reg
    → AllIssued (publish reg room_id pid track_id meta).1
unfolding publish
publish-AllIssued reg room_id pid track_id meta a =
    elim (Option-cases (truncate_string max_mid_len meta.mid)) [
      | inl e ↦ rw (e, publish) (ground (arith, a))
      | inr (mid, e) ↦
          let cut : TrackMeta = record meta { layers = take 8 meta.layers; mid = mid } in
          rw (e, publish)
            (ground
              (arith, a, with_participant-AllIssued reg room_id pid (publish_track track_id cut) a))
    ]

step-AllIssued :
    (reg : Registry) (c : Call)
    → reg.next_participant_seq + 1 < 2 ^ 64
    → AllIssued reg
    → AllIssued (step reg c)
unfolding step unpublish set_muted update_subscriptions
step-AllIssued reg (joins room_id name) w a = join-AllIssued reg room_id name w a
step-AllIssued reg (leaves room_id pid) w a = leave-AllIssued reg room_id pid a
step-AllIssued reg (publishes room_id pid track_id meta) w a =
    publish-AllIssued reg room_id pid track_id meta a
step-AllIssued reg (unpublishes room_id pid track_id) w a =
    with_participant-AllIssued reg room_id pid _ a
step-AllIssued reg (mutes room_id pid track_id muted) w a =
    with_participant-AllIssued reg room_id pid _ a
step-AllIssued reg (updates room_id pid upsert removed revision) w a =
    with_participant-AllIssued reg room_id pid _ a

run-AllIssued :
    (reg : Registry) (cs : List Call)
    → reg.next_participant_seq + length cs < 2 ^ 64
    → AllIssued reg
    → AllIssued (run reg cs)
unfolding run
run-AllIssued reg [] w a = a
run-AllIssued reg (c ∷ cs) w a =
    run-AllIssued (step reg c) cs (ground (arith, step-Issues reg c))
      (step-AllIssued reg c (omega arith) a)

-- After any history of fewer than 2 ^ 64 calls, every id in every room was given out by the counter.
pub run-new-AllIssued : (cs : List Call) → length cs < 2 ^ 64 → AllIssued (run new cs)
unfolding new
run-new-AllIssued cs w = run-AllIssued new cs (omega arith) tt
