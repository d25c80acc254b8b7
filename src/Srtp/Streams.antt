-- ===== src/Srtp/Streams.antt =====
-- `Stream` and `Streams` of crates/wroom-edge/src/srtp.rs: the bounded table of per-SSRC state, with
-- its last-hit hint.
pub mod Table
pub mod Modify
pub mod Inserted
use wroom.Common.{
  ℕ, zero, suc, ◌+◌, List, [], ◌∷◌, ◌++◌, Option, none, some, Bool, true, false, leb, nat_beq,
  if◌then◌else◌, length, get_or, set,
}
use wroom.Common.Results.{Result, ok, err}
use wroom.Srtp.Errors.{SrtpError, too_many_streams}
use wroom.Srtp.Window
use wroom.Srtp.Window.{IndexWindow}

abbrev pub max_streams : ℕ
max_streams = 2048

pub record Stream : Type 0 where
  pub ssrc : ℕ
  pub rtp : IndexWindow
  pub rtcp : IndexWindow
  pub rtcp_next : ℕ

pub record Streams : Type 0 where
  pub slots : List (Option Stream)
  pub last : Option ℕ

unfoldable pub new : Streams
new = record { slots = []; last = none }

-- `Stream { ssrc, ..Stream::default() }`.
abbrev pub fresh : ℕ → Stream
fresh ssrc = record { ssrc = ssrc; rtp = Window.empty; rtcp = Window.empty; rtcp_next = 0 }

abbrev pub holds : ℕ → Option Stream → Bool
holds ssrc none = false
holds ssrc (some st) = nat_beq st.ssrc ssrc

-- `slots.iter().position(..)` for a slot with the SSRC, and for an empty one.
unfoldable pub position : ℕ → List (Option Stream) → Option ℕ
position ssrc [] = none
position ssrc (s ∷ ss) =
    if holds ssrc s then some 0 else elim (position ssrc ss) [ none ↦ none | some i ↦ some (suc i) ]

unfoldable pub position_empty : List (Option Stream) → Option ℕ
position_empty [] = none
position_empty (none ∷ ss) = some 0
position_empty (some st ∷ ss) = elim (position_empty ss) [ none ↦ none | some i ↦ some (suc i) ]

-- `slots.iter().filter(|s| s.is_some()).count()`, which is also `len`.
unfoldable pub occupied : List (Option Stream) → ℕ
occupied [] = 0
occupied (none ∷ ss) = occupied ss
occupied (some st ∷ ss) = suc (occupied ss)

-- The hint counts only if its slot still holds the SSRC.
unfoldable pub find : Streams → ℕ → Option ℕ
unfolding position
find s ssrc = elim s.last [
  | none ↦ position ssrc s.slots
  | some i ↦ if holds ssrc (get_or s.slots i none) then some i else position ssrc s.slots
]

unfoldable pub get : Streams → ℕ → Option Stream
unfolding find
get s ssrc = elim (find s ssrc) [ none ↦ none | some i ↦ get_or s.slots i none ]

-- `slots[i] = Some(..)`, with the slot that was pushed where `i` is the end.
unfoldable pub place : List (Option Stream) → Option ℕ → Option Stream → List (Option Stream) × ℕ
place slots none st = (slots ++ st ∷ [], length slots)
place slots (some i) st = (set slots i st, i)

-- The slot of the SSRC's stream, and the table in which it stands there.
unfoldable pub get_mut_or_insert : Streams → ℕ → Result SrtpError (ℕ × Streams)
unfolding find occupied position_empty place
get_mut_or_insert s ssrc = elim (find s ssrc) [
  | some i ↦ ok (i, record s { last = some i })
  | none ↦
      if leb max_streams (occupied s.slots)
      then err too_many_streams
      else (let (slots, i) = place s.slots (position_empty s.slots) (some (fresh ssrc)) in
          ok (i, record { slots = slots; last = some i }))
]

abbrev pub change : (Stream → Stream) → Option Stream → Option Stream
change f none = none
change f (some st) = some (f st)

-- A write through the `&mut Stream` that `get_mut_or_insert` returns.
unfoldable pub modify : Streams → ℕ → (Stream → Stream) → Result SrtpError Streams
unfolding get_mut_or_insert
modify s ssrc f = elim (get_mut_or_insert s ssrc) [
  | err e ↦ err e
  | ok (i, s') ↦ ok (record s' { slots = set s'.slots i (change f (get_or s'.slots i none)) })
]
