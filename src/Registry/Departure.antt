-- ===== src/Registry/Departure.antt =====
-- Leaving a room a second time.
use wroom.Common.{
  none, some, true, false, ◌≡◌, refl, arith, inl, inr, Option-cases, Bool-cases, beq_refl, list_eq,
  nat_eq, leb, length, ◌∙◌,
}
use wroom.Common.Maps.{
  lookup, contains_key, insert, remove, contains_key-remove, remove_absent, insert-insert,
  lookup-remove, lookup-insert_self, lookup-All,
}
use wroom.Registry.Types.{Str, Room, Registry}
use wroom.Registry.{leave}
use wroom.Registry.Bounds.{IsBounded, RoomEntry}

leave_missing :
    (reg : Registry) (rid pid : Str)
    → lookup rid reg.rooms ≡ none
    → leave reg rid pid ≡ (false, reg)
unfolding leave
leave_missing reg rid pid e = rw (e, leave) refl

module _ (reg : Registry) (rid pid : Str) (r : Room) where
  abbrev left : Room
  left = record r { participants = remove pid r.participants }

  leave_last :
      lookup rid reg.rooms ≡ some r
      → leb (length (remove pid r.participants)) 0 ≡ true
      → leave reg rid pid
        ≡ (contains_key pid r.participants, record reg { rooms = remove rid reg.rooms })
  unfolding leave
  leave_last e last = ground (arith, e, last)

  leave_others :
      lookup rid reg.rooms ≡ some r
      → leb (length (remove pid r.participants)) 0 ≡ false
      → leave reg rid pid
        ≡ (contains_key pid r.participants, record reg { rooms = insert rid left reg.rooms })
  unfolding leave
  leave_others e others = ground (arith, e, others)

-- After a participant has left, leaving again finds nobody and changes nothing.
pub leave-leave :
    (reg : Registry) (rid pid : Str)
    → IsBounded reg
    → leave (leave reg rid pid).1 rid pid ≡ (false, (leave reg rid pid).1)
leave-leave reg rid pid b = elim (Option-cases (lookup rid reg.rooms)) [
  | inl e ↦ rw (leave_missing reg rid pid e) (leave_missing reg rid pid e)
  | inr (r, e) ↦
      let br = lookup-All RoomEntry rid reg.rooms b.each_room e in
      let gone : contains_key pid (remove pid r.participants) ≡ false =
        ground
          (arith, contains_key-remove pid pid r.participants br.participant_keys, beq_refl pid) in
      elim (Bool-cases (leb (length (remove pid r.participants)) 0)) [
        | inl last ↦
            let after = record reg { rooms = remove rid reg.rooms } in
            let missing : lookup rid after.rooms ≡ none =
              ground (arith, lookup-remove rid rid reg.rooms b.room_keys, beq_refl rid) in
            rw (leave_last reg rid pid r e last) (leave_missing after rid pid missing)
        | inr others ↦
            let r' = left reg rid pid r in
            let after = record reg { rooms = insert rid r' reg.rooms } in
            let same = remove_absent pid r'.participants gone in
            let others' : leb (length (remove pid r'.participants)) 0 ≡ false = rw same others in
            let again =
              leave_others after rid pid r' (lookup-insert_self rid r' reg.rooms) others' in
            let rooms : insert rid (left reg rid pid r') after.rooms ≡ insert rid r' reg.rooms =
              rw same (insert-insert rid r' r' reg.rooms) in
            rw (leave_others reg rid pid r e others) (again ∙ rw (gone, rooms) refl)
      ]
]
