-- ===== src/Srtp/Streams/Table.antt =====
-- The table behaves as a map from SSRCs to streams: the hint never changes an answer.
use wroom.Common.{
  ℕ, zero, suc, List, [], ◌∷◌, ◌++◌, Option, none, some, true, false, ◌≡◌, refl, ◌⊎◌, inl, inr,
  arith, nat_beq, nat_eq, if◌then◌else◌, get_or, set, Option-cases, Bool-cases, sym, subst,
}
use wroom.Srtp.Streams.{Stream, Streams, fresh, holds, position, position_empty, find, get}

-- No SSRC stands in two slots.
abbrev pub IsAbsent : ℕ → List (Option Stream) → Type 0
IsAbsent ssrc [] = Unit
IsAbsent ssrc (s ∷ ss) = (holds ssrc s ≡ false) × IsAbsent ssrc ss

abbrev pub HasDistinctSsrcs : List (Option Stream) → Type 0
HasDistinctSsrcs [] = Unit
HasDistinctSsrcs (none ∷ ss) = HasDistinctSsrcs ss
HasDistinctSsrcs (some st ∷ ss) = IsAbsent st.ssrc ss × HasDistinctSsrcs ss

-- The stream of an SSRC, by a plain search.
unfoldable pub stream_of : ℕ → List (Option Stream) → Option Stream
stream_of ssrc [] = none
stream_of ssrc (s ∷ ss) = if holds ssrc s then s else stream_of ssrc ss

pub position-holds :
    (ssrc i : ℕ) (ss : List (Option Stream))
    → position ssrc ss ≡ some i
    → holds ssrc (get_or ss i none) ≡ true
unfolding position
position-holds ssrc i [] h = ground arith
position-holds ssrc i (s ∷ ss) h = elim (Bool-cases (holds ssrc s)) [
  | inl e ↦ ground (arith, e, h)
  | inr e ↦ elim (Option-cases (position ssrc ss)) [
    | inl k ↦ ground (arith, e, k, h)
    | inr (k, q) ↦ ground (arith, e, q, h, position-holds ssrc k ss q)
  ]
]

pub position-IsAbsent :
    (ssrc : ℕ) (ss : List (Option Stream)) → position ssrc ss ≡ none → IsAbsent ssrc ss
unfolding position
position-IsAbsent ssrc [] h = tt
position-IsAbsent ssrc (s ∷ ss) h = elim (Bool-cases (holds ssrc s)) [
  | inl e ↦ ground (arith, e, h)
  | inr e ↦ elim (Option-cases (position ssrc ss)) [
    | inl k ↦ (e, position-IsAbsent ssrc ss k)
    | inr (k, q) ↦ ground (arith, e, q, h)
  ]
]

pub absent_slot :
    (ssrc i : ℕ) (ss : List (Option Stream))
    → IsAbsent ssrc ss
    → holds ssrc (get_or ss i none) ≡ false
absent_slot ssrc i [] a = refl
absent_slot ssrc zero (s ∷ ss) a = a.0
absent_slot ssrc (suc i) (s ∷ ss) a = absent_slot ssrc i ss a.1

-- A slot that holds the SSRC is the one that the search finds.
pub slot-stream_of :
    (ssrc i : ℕ) (ss : List (Option Stream))
    → HasDistinctSsrcs ss
    → holds ssrc (get_or ss i none) ≡ true
    → get_or ss i none ≡ stream_of ssrc ss
unfolding stream_of
slot-stream_of ssrc i [] d h = ground arith
slot-stream_of ssrc zero (s ∷ ss) d h = rw h
slot-stream_of ssrc (suc i) (none ∷ ss) d h = slot-stream_of ssrc i ss d h
slot-stream_of ssrc (suc i) (some st ∷ ss) d h =
    ground (arith, slot-stream_of ssrc i ss d.1 h, absent_slot st.ssrc i ss d.0, same st.ssrc)
  where
    same : (a : ℕ) → nat_beq a ssrc ≡ true → a ≡ ssrc
    same a e = ground arith

-- What `find` returns: a slot that holds the SSRC, or nothing where no slot does.
pub find-holds :
    (s : Streams) (ssrc i : ℕ) → find s ssrc ≡ some i → holds ssrc (get_or s.slots i none) ≡ true
unfolding find
find-holds s ssrc i h = elim (Option-cases s.last) [
  | inl e ↦ position-holds ssrc i s.slots (ground (arith, h, e))
  | inr (k, e) ↦ elim (Bool-cases (holds ssrc (get_or s.slots k none))) [
    | inl t ↦ ground (arith, h, e, t)
    | inr t ↦ position-holds ssrc i s.slots (ground (arith, h, e, t))
  ]
]

pub find-IsAbsent : (s : Streams) (ssrc : ℕ) → find s ssrc ≡ none → IsAbsent ssrc s.slots
unfolding find
find-IsAbsent s ssrc h = elim (Option-cases s.last) [
  | inl e ↦ position-IsAbsent ssrc s.slots (ground (arith, h, e))
  | inr (k, e) ↦ elim (Bool-cases (holds ssrc (get_or s.slots k none))) [
    | inl t ↦ ground (arith, h, e, t)
    | inr t ↦ position-IsAbsent ssrc s.slots (ground (arith, h, e, t))
  ]
]

pub IsAbsent-stream_of :
    (ssrc : ℕ) (ss : List (Option Stream)) → IsAbsent ssrc ss → stream_of ssrc ss ≡ none
unfolding stream_of
IsAbsent-stream_of ssrc [] a = refl
IsAbsent-stream_of ssrc (s ∷ ss) a = rw a.0 (IsAbsent-stream_of ssrc ss a.1)

-- Where no SSRC stands twice, `get` returns the SSRC's stream, whatever the hint says.
pub get-eq-stream_of :
    (s : Streams) (ssrc : ℕ) → HasDistinctSsrcs s.slots → get s ssrc ≡ stream_of ssrc s.slots
unfolding get
get-eq-stream_of s ssrc d = elim (Option-cases (find s ssrc)) [
  | inl e ↦ rw (e, get) (sym (IsAbsent-stream_of ssrc s.slots (find-IsAbsent s ssrc e)))
  | inr (i, e) ↦ rw (e, get) (slot-stream_of ssrc i s.slots d (find-holds s ssrc i e))
]

-- `set` at the slot that holds the SSRC changes that SSRC's stream and no other.
pub stream_of-set :
    (ssrc i j : ℕ) (st : Stream) (ss : List (Option Stream))
    → HasDistinctSsrcs ss
    → holds ssrc (get_or ss i none) ≡ true
    → st.ssrc ≡ ssrc
    → stream_of j (set ss i (some st)) ≡ (if nat_beq ssrc j then some st else stream_of j ss)
unfolding stream_of
stream_of-set ssrc i j st [] d h e = ground arith
stream_of-set ssrc zero j st (none ∷ ss) d h e = ground arith
stream_of-set ssrc zero j st (some t ∷ ss) d h e = ground arith
stream_of-set ssrc (suc i) j st (none ∷ ss) d h e = stream_of-set ssrc i j st ss d h e
stream_of-set ssrc (suc i) j st (some t ∷ ss) d h e =
    ground (arith, stream_of-set ssrc i j st ss d.1 h e, absent_slot t.ssrc i ss d.0)

-- What `f` is given: the stream of the SSRC, or a fresh one.
abbrev pub or_fresh : ℕ → Option Stream → Stream
or_fresh ssrc none = fresh ssrc
or_fresh ssrc (some st) = st

pub stream_of-append :
    (ssrc j : ℕ) (st : Stream) (ss : List (Option Stream))
    → IsAbsent ssrc ss
    → st.ssrc ≡ ssrc
    → stream_of j (ss ++ some st ∷ []) ≡ (if nat_beq ssrc j then some st else stream_of j ss)
unfolding stream_of
stream_of-append ssrc j st [] a e = ground arith
stream_of-append ssrc j st (none ∷ ss) a e = stream_of-append ssrc j st ss a.1 e
stream_of-append ssrc j st (some t ∷ ss) a e =
    ground (arith, stream_of-append ssrc j st ss a.1 e, a.0)

pub stream_of-fill :
    (ssrc i j : ℕ) (st : Stream) (ss : List (Option Stream))
    → IsAbsent ssrc ss
    → position_empty ss ≡ some i
    → st.ssrc ≡ ssrc
    → stream_of j (set ss i (some st)) ≡ (if nat_beq ssrc j then some st else stream_of j ss)
unfolding stream_of position_empty
stream_of-fill ssrc i j st [] a h e = ground arith
stream_of-fill ssrc i j st (none ∷ ss) a h e = ground (arith, h, e)
stream_of-fill ssrc i j st (some t ∷ ss) a h e = elim (Option-cases (position_empty ss)) [
  | inl k ↦ ground (arith, k, h)
  | inr (k, q) ↦ ground (arith, h, q, e, stream_of-fill ssrc k j st ss a.1 q e, a.0)
]

pub IsAbsent-set :
    (j i : ℕ) (st : Stream) (ss : List (Option Stream))
    → IsAbsent j ss
    → nat_beq st.ssrc j ≡ false
    → IsAbsent j (set ss i (some st))
IsAbsent-set j i st [] a n = tt
IsAbsent-set j zero st (s ∷ ss) a n = (n, a.1)
IsAbsent-set j (suc i) st (s ∷ ss) a n = (a.0, IsAbsent-set j i st ss a.1 n)

pub IsAbsent-append :
    (j : ℕ) (st : Stream) (ss : List (Option Stream))
    → IsAbsent j ss
    → nat_beq st.ssrc j ≡ false
    → IsAbsent j (ss ++ some st ∷ [])
IsAbsent-append j st [] a n = (n, tt)
IsAbsent-append j st (s ∷ ss) a n = (a.0, IsAbsent-append j st ss a.1 n)

pub beq_flip : (a b : ℕ) → nat_beq a b ≡ false → nat_beq b a ≡ false
beq_flip a b h = ground (arith, h)

pub HasDistinctSsrcs-set :
    (i : ℕ) (st : Stream) (ss : List (Option Stream))
    → HasDistinctSsrcs ss
    → IsAbsent st.ssrc ss ⊎ (holds st.ssrc (get_or ss i none) ≡ true)
    → HasDistinctSsrcs (set ss i (some st))
HasDistinctSsrcs-set i st [] d a = tt
HasDistinctSsrcs-set zero st (none ∷ ss) d (inl a) = (a.1, d)
HasDistinctSsrcs-set zero st (none ∷ ss) d (inr h) = ground (arith, h)
HasDistinctSsrcs-set zero st (some t ∷ ss) d (inl a) = (a.1, d.1)
HasDistinctSsrcs-set zero st (some t ∷ ss) d (inr h) = (subst (λ k. IsAbsent k ss) same d.0, d.1)
  where
    same : t.ssrc ≡ st.ssrc
    same = ground (arith, h)
HasDistinctSsrcs-set (suc i) st (none ∷ ss) d (inl a) = HasDistinctSsrcs-set i st ss d (inl a.1)
HasDistinctSsrcs-set (suc i) st (none ∷ ss) d (inr h) = HasDistinctSsrcs-set i st ss d (inr h)
HasDistinctSsrcs-set (suc i) st (some t ∷ ss) d (inl a) = (
  IsAbsent-set t.ssrc i st ss d.0 (beq_flip t.ssrc st.ssrc a.0),
  HasDistinctSsrcs-set i st ss d.1 (inl a.1),
)
HasDistinctSsrcs-set (suc i) st (some t ∷ ss) d (inr h) =
    (IsAbsent-set t.ssrc i st ss d.0 other, HasDistinctSsrcs-set i st ss d.1 (inr h))
  where
    other : nat_beq st.ssrc t.ssrc ≡ false
    other = ground (arith, h, absent_slot t.ssrc i ss d.0)

pub HasDistinctSsrcs-append :
    (st : Stream) (ss : List (Option Stream))
    → HasDistinctSsrcs ss
    → IsAbsent st.ssrc ss
    → HasDistinctSsrcs (ss ++ some st ∷ [])
HasDistinctSsrcs-append st [] d a = (tt, tt)
HasDistinctSsrcs-append st (none ∷ ss) d a = HasDistinctSsrcs-append st ss d a.1
HasDistinctSsrcs-append st (some t ∷ ss) d a = (
  IsAbsent-append t.ssrc st ss d.0 (beq_flip t.ssrc st.ssrc a.0),
  HasDistinctSsrcs-append st ss d.1 a.1,
)
