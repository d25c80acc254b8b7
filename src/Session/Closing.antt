-- ===== src/Session/Closing.antt =====
-- Closing a session twice, and the end of a session.
use wroom.Common.{
  List, [], none, some, ◌⊎◌, ◌≡◌, refl, arith, inl, inr, Option-cases, ◌∙◌, if◌then◌else◌,
}
use wroom.Registry.Types.{Str, Registry}
use wroom.Registry.{leave}
use wroom.Registry.Bounds.{IsBounded}
use wroom.Registry.Departure.{leave-leave}
use wroom.Session.Messages.{Output}
use wroom.Session.Machine.{Session, closed, returned, left_delta}
use wroom.Session.Machine.Handlers.{close, remove_from_room, on_leave}

module _ {T : Type 0} (s : Session T) (reg : Registry) where
  abbrev ended : Session T
  ended = record s { state = closed }

  remove_no_room : s.room_id ≡ none → remove_from_room s reg ≡ (none, (ended, reg))
  unfolding remove_from_room
  remove_no_room e = ground (arith, e)

  remove_no_id : s.participant_id ≡ none → remove_from_room s reg ≡ (none, (ended, reg))
  unfolding remove_from_room
  remove_no_id e = ground (arith, e)

  remove_member :
      (rid pid : Str)
      → s.room_id ≡ some rid
      → s.participant_id ≡ some pid
      → remove_from_room s reg ≡ (
        if (leave reg rid pid).0 then some (left_delta pid) else none,
        (ended, (leave reg rid pid).1),
      )
  unfolding remove_from_room
  remove_member rid pid e e' = ground (arith, e, e')

-- Removing a session's participant again finds nothing.
remove-remove :
    {T : Type 0} (s : Session T) (reg : Registry)
    → IsBounded reg
    → remove_from_room (remove_from_room s reg).1.0 (remove_from_room s reg).1.1
      ≡ (none, (remove_from_room s reg).1)
remove-remove s reg b = elim (Option-cases s.room_id) [
  | inl e ↦ rw (remove_no_room s reg e) (remove_no_room (ended s reg) reg e)
  | inr (rid, e) ↦ elim (Option-cases s.participant_id) [
    | inl e' ↦ rw (remove_no_id s reg e') (remove_no_id (ended s reg) reg e')
    | inr (pid, e') ↦
        let again = remove_member (ended s reg) (leave reg rid pid).1 rid pid e e' in
        rw (remove_member s reg rid pid e e') (again ∙ rw (leave-leave reg rid pid b) refl)
  ]
]

returned-injective :
    {T : Type 0} (s s' : Session T) (reg reg' : Registry) (out out' : List Output)
    → returned s out reg ≡ returned s' out' reg'
    → (s ≡ s') × (reg ≡ reg')
returned-injective s s' reg reg' out out' h = (ground (arith, h), ground (arith, h))

close_silent :
    {T : Type 0} (s : Session T) (reg : Registry)
    → remove_from_room s reg ≡ (none, (s, reg))
    → close s reg ≡ returned s [] reg
unfolding close
close_silent s reg h = ground (arith, h)

-- Once a session has left its room, on a `LeaveRequest` or when its connection closed, a further close
-- broadcasts nothing and changes neither the session nor the registry, for a registry within its bounds.
pub close_again :
    {T : Type 0} (s s' : Session T) (reg reg' : Registry) (out : List Output)
    → IsBounded reg
    → ((close s reg ≡ returned s' out reg') ⊎ (on_leave s reg ≡ returned s' out reg'))
    → close s' reg' ≡ returned s' [] reg'
unfolding close on_leave
close_again s s' reg reg' out b over =
    let after = (remove_from_room s reg).1 in
    let silent = close_silent after.0 after.1 (remove-remove s reg b) in
    let same : (after.0 ≡ s') × (after.1 ≡ reg') = elim over [
      | inl h ↦ returned-injective after.0 s' after.1 reg' _ out h
      | inr h ↦ returned-injective after.0 s' after.1 reg' _ out h
    ] in
    rw (← same.0, ← same.1) silent
