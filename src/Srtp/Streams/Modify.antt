-- ===== src/Srtp/Streams/Modify.antt =====
-- A write through `get_mut_or_insert`: the SSRC's stream changes, a new one where there was none, and
-- no other does.
use wroom.Common.{
  ℕ, zero, suc, ◌≤◌, List, [], ◌∷◌, ◌++◌, Option, none, some, true, ◌≡◌, refl, inl, inr, arith, leb,
  nat_beq, if◌then◌else◌, length, get_or, set, Option-cases, Bool-cases, ◌∙◌, sym, subst,
}
use wroom.Common.Results.{ok, err}
use wroom.Srtp.Errors.{SrtpError, too_many_streams}
use wroom.Srtp.Streams.{
  Stream, Streams, fresh, holds, position_empty, occupied, find, place, get_mut_or_insert, change,
  modify, max_streams,
}
use wroom.Srtp.Streams.Table.{
  IsAbsent, HasDistinctSsrcs, stream_of, find-holds, find-IsAbsent, stream_of-set, or_fresh,
  stream_of-append, stream_of-fill, HasDistinctSsrcs-set, HasDistinctSsrcs-append, slot-stream_of,
  IsAbsent-stream_of,
}

pub set_end :
    (ss : List (Option Stream)) (a b : Option Stream)
    → set (ss ++ a ∷ []) (length ss) b ≡ ss ++ b ∷ []
set_end [] a b = refl
set_end (s ∷ ss) a b = rw (set_end ss a b)

pub get_end :
    (ss : List (Option Stream)) (a : Option Stream) → get_or (ss ++ a ∷ []) (length ss) none ≡ a
get_end [] a = refl
get_end (s ∷ ss) a = get_end ss a

pub set_twice :
    (ss : List (Option Stream)) (i : ℕ) (a b : Option Stream) → set (set ss i a) i b ≡ set ss i b
set_twice [] i a b = refl
set_twice (s ∷ ss) zero a b = refl
set_twice (s ∷ ss) (suc i) a b = rw (set_twice ss i a b)

pub get_filled :
    (ss : List (Option Stream)) (i : ℕ) (a : Option Stream)
    → position_empty ss ≡ some i
    → get_or (set ss i a) i none ≡ a
unfolding position_empty
get_filled [] i a h = ground (arith, h)
get_filled (none ∷ ss) i a h = ground (arith, h)
get_filled (some t ∷ ss) i a h = elim (Option-cases (position_empty ss)) [
  | inl k ↦ ground (arith, k, h)
  | inr (k, q) ↦ ground (arith, h, q, get_filled ss k a q)
]

module _ (s : Streams) (ssrc : ℕ) (f : Stream → Stream) where
  -- What a write leaves: the SSRC's stream is changed, a fresh one where there was none.
  abbrev pub Written : List (Option Stream) → Type 0
  Written ss =
      HasDistinctSsrcs ss
      × ((j : ℕ)
          → stream_of j ss ≡ (
              if nat_beq ssrc j
              then some (f (or_fresh ssrc (stream_of ssrc s.slots)))
              else stream_of j s.slots))

  module _ (keeps : (st : Stream) → (f st).ssrc ≡ st.ssrc) (d : HasDistinctSsrcs s.slots) where
    Written-new :
        (p : Option ℕ)
        → position_empty s.slots ≡ p
        → IsAbsent ssrc s.slots
        → Written (
            let (slots, i) = place s.slots p (some (fresh ssrc)) in
            set slots i (change f (get_or slots i none)))
    unfolding place
    Written-new none e a = rw (get_end s.slots (some (fresh ssrc))) (
        rw (set_end s.slots (some (fresh ssrc)) (some (f (fresh ssrc)))) (
          rw (IsAbsent-stream_of ssrc s.slots a) (
            HasDistinctSsrcs-append (f (fresh ssrc)) s.slots d
                (subst (λ k. IsAbsent k s.slots) (sym (keeps (fresh ssrc))) a),
            λ j. stream_of-append ssrc j (f (fresh ssrc)) s.slots a (keeps (fresh ssrc)),
          )))
    Written-new (some i) e a = rw (get_filled s.slots i (some (fresh ssrc)) e) (
        rw (set_twice s.slots i (some (fresh ssrc)) (some (f (fresh ssrc)))) (
          rw (IsAbsent-stream_of ssrc s.slots a) (
            HasDistinctSsrcs-set i (f (fresh ssrc)) s.slots d
                (inl (subst (λ k. IsAbsent k s.slots) (sym (keeps (fresh ssrc))) a)),
            λ j. stream_of-fill ssrc i j (f (fresh ssrc)) s.slots a e (keeps (fresh ssrc)),
          )))

    Written-old :
        (i : ℕ) → find s ssrc ≡ some i → Written (set s.slots i (change f (get_or s.slots i none)))
    Written-old i e = elim (Option-cases (get_or s.slots i none)) [
      | inl n ↦ absurd (ground (arith, n, find-holds s ssrc i e))
      | inr (st, q) ↦
          let held : st.ssrc ≡ ssrc = ground (arith, q, find-holds s ssrc i e) in
          let own : (f st).ssrc ≡ ssrc = keeps st ∙ held in
          let here : some st ≡ stream_of ssrc s.slots =
            sym q ∙ slot-stream_of ssrc i s.slots d (find-holds s ssrc i e) in
          rw q (
            rw⁻¹ here (
              HasDistinctSsrcs-set i (f st) s.slots d (
                  inr (
                    subst (λ k. holds k (get_or s.slots i none) ≡ true) (sym own)
                      (find-holds s ssrc i e))),
              λ j. stream_of-set ssrc i j (f st) s.slots d (find-holds s ssrc i e) own,
            ))
    ]

    -- Where no SSRC stands twice and the write keeps a stream's SSRC, a write that succeeds changes the
    -- stream of its SSRC, a fresh one where there was none, and no other; and no SSRC stands twice.
    pub modify_ok : (s' : Streams) → modify s ssrc f ≡ ok s' → Written s'.slots
    unfolding modify get_mut_or_insert
    modify_ok s' h = elim (Option-cases (find s ssrc)) [
      | inr (i, e) ↦ subst Written (ground (arith, e, h)) (Written-old i e)
      | inl e ↦ elim (Bool-cases (leb max_streams (occupied s.slots))) [
        | inl full ↦ absurd (ground (arith, e, full, h))
        | inr room ↦
            subst Written (ground (arith, e, room, h))
              (Written-new (position_empty s.slots) refl (find-IsAbsent s ssrc e))
      ]
    ]

  -- A write fails only for an SSRC that is not in the table, when the table is full.
  pub modify_err :
      (e : SrtpError)
      → modify s ssrc f ≡ err e
      → (e ≡ too_many_streams) × IsAbsent ssrc s.slots × (max_streams ≤ occupied s.slots)
  unfolding modify get_mut_or_insert
  modify_err e h = elim (Option-cases (find s ssrc)) [
    | inr (i, q) ↦ absurd (ground (arith, q, h))
    | inl q ↦ elim (Bool-cases (leb max_streams (occupied s.slots))) [
      | inl full ↦ (ground (arith, q, full, h), find-IsAbsent s ssrc q, ground (arith, full))
      | inr room ↦ absurd (ground (arith, q, room, h))
    ]
  ]
