-- ===== src/Registry/Freshness.antt =====
-- A joining participant is new: its id is held in no room, and nobody else's state changes.
pub mod History
use wroom.Common.{
  take, ℕ, ◌+◌, ◌%◌, ◌^◌, ◌≤◌, ◌<◌, List, [], ◌∷◌, Option, none, some, false, ◌≡◌, refl, inl, inr,
  arith, length, Option-cases, Bool-cases, nat_eq, list_eq, if◌then◌else◌, ◌==◌, All, All-mono,
  ◌&&◌, leb, ◌∙◌, ap,
}
use wroom.Common.Equality.{list_beq_iff}
use wroom.Common.Maps.{
  lookup, insert, contains_key, lookup-All, insert-All, remove-All, lookup-insert,
  lookup-insert_self, contains_key-none, lookup_absent, contains_key-lookup, remove,
}
use wroom.Registry.Types.{
  Str, Participant, Room, Registry, Result, ok, TrackMeta, max_participants_per_room, max_mid_len,
}
use wroom.Registry.Identity.{participant_id-injective, step-Issues}
use wroom.Registry.Tracks.{truncate_string, publish_track}
use wroom.Registry.Calls.{Call, joins, leaves, publishes, unpublishes, mutes, updates, step, run}
use wroom.Registry.{
  new, new_room, new_participant, enter, join, leave, participant_id_of, with_participant,
  put_participant, participant_mut, publish, unpublish, set_muted, update_subscriptions,
}

-- `registry.room(room_id).and_then(|r| r.participant(pid))`.
unfoldable pub find : Registry → Str → Str → Option Participant
find reg room_id pid = elim (lookup room_id reg.rooms) [
  | none ↦ none
  | some r ↦ lookup pid r.participants
]

abbrev pub IsIssuedBelow : ℕ → Str → Type 0
IsIssuedBelow n id = (k : ℕ) × (k < n) × (id ≡ participant_id_of k)

abbrev pub IssuedMember : ℕ → Str × Participant → Type 0
IssuedMember n (id, p) = IsIssuedBelow n id

abbrev pub IssuedRoom : ℕ → Str × Room → Type 0
IssuedRoom n (id, r) = All (IssuedMember n) r.participants

-- Every participant's id was given out by the counter.
abbrev pub AllIssued : Registry → Type 0
AllIssued reg = All (IssuedRoom reg.next_participant_seq) reg.rooms

pub member_mono : (m n : ℕ) (x : Str × Participant) → m ≤ n → IssuedMember m x → IssuedMember n x
member_mono m n (id, p) h (k, lt, e) = (k, omega arith, e)

pub room_mono : (m n : ℕ) (x : Str × Room) → m ≤ n → IssuedRoom m x → IssuedRoom n x
room_mono m n (id, r) h a =
    All-mono (IssuedMember m) (IssuedMember n) r.participants (λ x. member_mono m n x h) a

pub AllIssued-mono :
    (m n : ℕ) (rooms : List (Str × Room))
    → m ≤ n
    → All (IssuedRoom m) rooms
    → All (IssuedRoom n) rooms
AllIssued-mono m n rooms h a =
    All-mono (IssuedRoom m) (IssuedRoom n) rooms (λ x. room_mono m n x h) a

-- The id that the counter stands at is held nowhere.
pub absent_next :
    (reg : Registry) (room_id : Str)
    → AllIssued reg
    → find reg room_id (participant_id_of reg.next_participant_seq) ≡ none
unfolding find
absent_next reg room_id a = elim (Option-cases (lookup room_id reg.rooms)) [
  | inl e ↦ rw (e, find)
  | inr (r, e) ↦
      let next = participant_id_of reg.next_participant_seq in
      let members = lookup-All (IssuedRoom reg.next_participant_seq) room_id reg.rooms a e in
      rw (e, find)
        (elim (Option-cases (lookup next r.participants)) [
          | inl e' ↦ e'
          | inr (p, e') ↦
              let old =
                lookup-All (IssuedMember reg.next_participant_seq) next r.participants members e' in
              absurd (
                omega (arith, old.1, participant_id-injective reg.next_participant_seq old.0 old.2))
        ])
]

-- A room that is written shows in `find`, and no other.
pub find_put :
    (reg : Registry) (room_id rid j : Str) (r : Room) (seq : ℕ)
    → find (record { rooms = insert room_id r reg.rooms; next_participant_seq = seq }) rid j
      ≡ (if room_id == rid then lookup j r.participants else find reg rid j)
unfolding find
find_put reg room_id rid j r seq = ground (arith, lookup-insert room_id rid r reg.rooms)

pub find_in_room :
    (reg : Registry) (room_id j : Str) (r : Room)
    → lookup room_id reg.rooms ≡ some r
    → find reg room_id j ≡ lookup j r.participants
unfolding find
find_in_room reg room_id j r e = rw (e, find)

-- What a member's entry holds after one is stored in its room.
pub find_stored :
    (reg : Registry) (room_id pid rid j : Str) (r : Room) (p : Participant) (seq : ℕ)
    → lookup room_id reg.rooms ≡ some r
    → find
        (record {
          rooms =
              insert room_id (record r { participants = insert pid p r.participants }) reg.rooms;
          next_participant_seq = seq;
        })
        rid
        j
      ≡ (if (room_id == rid) && (pid == j) then some p else find reg rid j)
find_stored reg room_id pid rid j r p seq e = ground (
  arith,
  find_put reg room_id rid j (record r { participants = insert pid p r.participants }) seq,
  find_in_room reg room_id j r e,
  lookup-insert pid j p r.participants,
  list_beq_iff room_id rid,
)

-- What a successful `enter` into an existing room gives out and writes.
pub enter_ok :
    (reg : Registry) (room_id name rid j : Str) {pid : Str} (r : Room)
    → lookup room_id reg.rooms ≡ some r
    → (enter reg room_id name).0 ≡ ok pid
    → (pid ≡ participant_id_of reg.next_participant_seq)
      × (find (enter reg room_id name).1 rid j ≡ (
          if (room_id == rid) && (pid == j)
          then some (new_participant pid name)
          else find reg rid j))
unfolding enter
enter_ok reg room_id name rid j r e h =
    let next = participant_id_of reg.next_participant_seq in
    ground (
      arith,
      find_stored reg room_id next rid j r (new_participant next name)
          ((reg.next_participant_seq + 1) % 2 ^ 64) e,
    )

-- An empty room that is added shows no member.
pub find_empty_room :
    (reg : Registry) (room_id rid j : Str)
    → contains_key room_id reg.rooms ≡ false
    → find (record reg { rooms = insert room_id (new_room room_id) reg.rooms }) rid j
      ≡ find reg rid j
unfolding find new_room lookup
find_empty_room reg room_id rid j h = ground (
  arith,
  find_put reg room_id rid j (new_room room_id) reg.next_participant_seq,
  list_beq_iff room_id rid,
  lookup_absent room_id reg.rooms h,
)

-- The two ways into `enter`: the room is there, or it has just been made.
pub join_cases :
    (reg : Registry) (room_id name : Str) {pid : Str}
    → (join reg room_id name).0 ≡ ok pid
    → (before : Registry) × (r : Room) × (lookup room_id before.rooms ≡ some r)
      × (join reg room_id name ≡ enter before room_id name)
      × (before.next_participant_seq ≡ reg.next_participant_seq)
      × ((rid j : Str) → find before rid j ≡ find reg rid j)
unfolding join
join_cases reg room_id name h = elim (Option-cases (lookup room_id reg.rooms)) [
  | inl e ↦
      let absent = contains_key-none room_id reg.rooms e in
      (
        record reg { rooms = insert room_id (new_room room_id) reg.rooms },
        new_room room_id,
        lookup-insert_self room_id (new_room room_id) reg.rooms,
        ground (arith, absent),
        refl,
        λ rid j. find_empty_room reg room_id rid j absent,
      )
  | inr (r, e) ↦
      (reg, r, e, ground (arith, contains_key-lookup room_id reg.rooms r e), refl, λ rid j. refl)
]

-- Where every id held was given out by the counter, a join that succeeds gives out an id that was
-- held in no room. The new member is in the room it
-- asked for with that id and name and nothing else, and every other member of every room is as before.
pub join-fresh :
    (reg : Registry) (room_id name : Str) {pid : Str}
    → AllIssued reg
    → (join reg room_id name).0 ≡ ok pid
    → ((rid : Str) → find reg rid pid ≡ none)
      × ((rid j : Str)
          → find (join reg room_id name).1 rid j ≡ (
              if (room_id == rid) && (pid == j)
              then some (new_participant pid name)
              else find reg rid j))
join-fresh reg room_id name {pid} a h =
    let (before, r, e, way, seq, same) = join_cases reg room_id name h in
    let h' : (enter before room_id name).0 ≡ ok pid = rw (← way) h in
    let key : pid ≡ participant_id_of reg.next_participant_seq =
      (enter_ok before room_id name [] [] r e h').0 ∙ ap participant_id_of seq in
    (
      λ rid. rw key (absent_next reg rid a),
      λ rid j. rw way (
          (enter_ok before room_id name rid j r e h').1
          ∙ ap (λ o. if (room_id == rid) && (pid == j) then some (new_participant pid name) else o)
              (same rid j)),
    )
