-- ===== src/Srtp/Streams/Inserted.antt =====
-- `get_mut_or_insert` itself: the slot it returns holds the SSRC's stream, and no stream has changed.
use wroom.Common.{
  ℕ, zero, suc, List, [], ◌∷◌, Option, none, some, ◌≡◌, refl, inl, inr, arith, leb, nat_beq, get_or,
  set, Option-cases, Bool-cases, ap, nat_eq,
}
use wroom.Common.Results.{ok}
use wroom.Srtp.Streams.{
  Stream, Streams, fresh, position_empty, occupied, find, get_mut_or_insert, change, modify,
  max_streams,
}
use wroom.Srtp.Streams.Table.{
  HasDistinctSsrcs, stream_of, find-holds, find-IsAbsent, or_fresh, slot-stream_of,
  IsAbsent-stream_of,
}
use wroom.Srtp.Streams.Modify.{modify_ok, get_end, get_filled}

set_same : (ss : List (Option Stream)) (i : ℕ) → set ss i (get_or ss i none) ≡ ss
set_same [] i = refl
set_same (s ∷ ss) zero = refl
set_same (s ∷ ss) (suc i) = rw (set_same ss i) refl

change_none : (o : Option Stream) → change (λ st. st) o ≡ o
change_none none = refl
change_none (some st) = refl

module _ (s s' : Streams) (ssrc i : ℕ) (m : get_mut_or_insert s ssrc ≡ ok (i, s')) where
  held :
      HasDistinctSsrcs s.slots
      → get_or s'.slots i none ≡ some (or_fresh ssrc (stream_of ssrc s.slots))
  unfolding get_mut_or_insert
  held d = elim (Option-cases (find s ssrc)) [
    | inr (k, e) ↦ ground (arith, e, m, slot-stream_of ssrc k s.slots d, find-holds s ssrc k e)
    | inl e ↦ elim (Bool-cases (leb max_streams (occupied s.slots))) [
      | inl full ↦ absurd (ground (arith, e, full, m))
      | inr room ↦
          rw (IsAbsent-stream_of ssrc s.slots (find-IsAbsent s ssrc e))
            (elim (Option-cases (position_empty s.slots)) [
              | inl p ↦ ground (arith, e, room, p, m, get_end s.slots (some (fresh ssrc)))
              | inr (k, p) ↦
                  ground (arith, e, room, p, m, get_filled s.slots k (some (fresh ssrc)) p)
            ])
    ]
  ]

  unchanged : modify s ssrc (λ st. st) ≡ ok s'
  unfolding modify
  unchanged =
      rw (m, modify) (rw (change_none (get_or s'.slots i none)) (rw (set_same s'.slots i) refl))

  -- No SSRC's stream has changed, and the slot holds the SSRC's.
  pub inserted :
      HasDistinctSsrcs s.slots
      → HasDistinctSsrcs s'.slots
        × ((j : ℕ) → or_fresh j (stream_of j s'.slots) ≡ or_fresh j (stream_of j s.slots))
        × (get_or s'.slots i none ≡ some (or_fresh ssrc (stream_of ssrc s.slots)))
  inserted d =
      let w = modify_ok s ssrc (λ st. st) (λ st. refl) d s' unchanged in
      (
        w.0,
        λ j. elim (Bool-cases (nat_beq ssrc j)) [
          | inl e ↦
              let same : ssrc ≡ j = ground (arith, e) in
              rw (w.1 j) (rw e (ap (λ k. or_fresh k (stream_of k s.slots)) same))
          | inr e ↦ rw (w.1 j) (rw e refl)
        ],
        held d,
      )
