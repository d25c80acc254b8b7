-- ===== src/Rtp/Rewriting/Emitted.antt =====
-- The elements that a rewritten packet is to carry, as a list, and what the first pass counts of them.
use wroom.Common.{
  ℕ, ◌+◌, ◌≡◌, refl, sym, arith, List, [], ◌∷◌, ◌++◌, Option, none, some, Bool, false, ◌||◌, ltb,
  length, if◌then◌else◌, Option-cases, inl, inr,
}
use wroom.Common.Bytes.{Bytes, to_be16}
use wroom.Rtp.Extensions.{KnownExt, mid, twcc, kind_beq, id_of}
use wroom.Rtp.Packet.{RtpPacket, extensions}
use wroom.Rtp.Rewriting.{
  Rewrite, Tally, mapped, out_len, out_value, tally_elements, no_tally, twcc_insert, mid_insert,
  count_insert, counted, tally,
}

-- The elements of the source that are known on both sides, with their outgoing ids and values.
abbrev pub forwarded : Rewrite → List (ℕ × Bytes) → List (ℕ × Bytes)
forwarded r [] = []
forwarded r ((in_id, area) ∷ es) = elim (mapped r in_id) [
  | none ↦ forwarded r es
  | some (kind, out_id) ↦ (out_id, out_value r kind area) ∷ forwarded r es
]

-- Whether one of them is of a kind.
abbrev pub carries : Rewrite → KnownExt → List (ℕ × Bytes) → Bool
carries r k [] = false
carries r k ((in_id, area) ∷ es) = elim (mapped r in_id) [
  | none ↦ carries r k es
  | some (kind, out_id) ↦ kind_beq kind k || carries r k es
]

-- An element of a kind that has an outgoing id and a value, where the source carries none.
abbrev pub synthesized : Rewrite → KnownExt → Option Bytes → List (ℕ × Bytes) → List (ℕ × Bytes)
synthesized r k value es = elim value [
  | none ↦ []
  | some v ↦ elim (id_of r.out_map k) [
    | none ↦ []
    | some id ↦ if carries r k es then [] else (id, v) ∷ []
  ]
]

abbrev pub seq_bytes : Option ℕ → Option Bytes
seq_bytes none = none
seq_bytes (some seq) = some (to_be16 seq)

-- All elements of the rewritten packet, in their order.
abbrev pub emitted : Rewrite → List (ℕ × Bytes) → List (ℕ × Bytes)
emitted r es =
    forwarded r es ++ (synthesized r twcc (seq_bytes r.twcc_seq) es ++ synthesized r mid r.mid es)

abbrev pub data_len : List (ℕ × Bytes) → ℕ
data_len [] = 0
data_len ((id, v) ∷ els) = length v + data_len els

abbrev pub has_big_id : List (ℕ × Bytes) → Bool
has_big_id [] = false
has_big_id ((id, v) ∷ els) = ltb 14 id || has_big_id els

abbrev pub has_long_value : List (ℕ × Bytes) → Bool
has_long_value [] = false
has_long_value ((id, v) ∷ els) = ltb 16 (length v) || has_long_value els

-- A tally has gone on over these elements.
abbrev pub Counts : Tally → List (ℕ × Bytes) → Tally → Type 0
Counts t els t' =
    (t'.count ≡ t.count + length els)
    × (t'.data_bytes ≡ t.data_bytes + data_len els)
    × (ltb 14 t'.max_id ≡ (ltb 14 t.max_id || has_big_id els))
    × (ltb 16 t'.max_len ≡ (ltb 16 t.max_len || has_long_value els))

Counts-nil : (t : Tally) → Counts t [] t
Counts-nil t = ground arith

Counts-one : (t : Tally) (id : ℕ) (v : Bytes) → Counts t ((id, v) ∷ []) (counted t id (length v))
Counts-one t id v = ground arith

append_sizes :
    (els els' : List (ℕ × Bytes))
    → (length (els ++ els') ≡ length els + length els')
      × (data_len (els ++ els') ≡ data_len els + data_len els')
      × (has_big_id (els ++ els') ≡ (has_big_id els || has_big_id els'))
      × (has_long_value (els ++ els') ≡ (has_long_value els || has_long_value els'))
append_sizes [] els' = (omega arith, omega arith, refl, refl)
append_sizes ((id, v) ∷ els) els' =
    let (a, b, c, d) = append_sizes els els' in
    (omega (arith, a), omega (arith, b), ground (arith, c), ground (arith, d))

Counts-append :
    (t t' t'' : Tally) (els els' : List (ℕ × Bytes))
    → Counts t els t'
    → Counts t' els' t''
    → Counts t (els ++ els') t''
Counts-append t t' t'' els els' (a, b, c, d) (a', b', c', d') =
    let (n, m, ids, lens) = append_sizes els els' in
    (
      omega (arith, a, a', n),
      omega (arith, b, b', m),
      ground (arith, c, c', ids),
      ground (arith, d, d', lens),
    )

-- The two passes agree on the length of a value.
length-out_value :
    (r : Rewrite) (kind : KnownExt) (area : Bytes)
    → length (out_value r kind area) ≡ out_len r kind area
unfolding out_value out_len to_be16
length-out_value r kind area = elim (Option-cases r.twcc_seq) [
  | inl e ↦ elim (Option-cases r.mid) [
    | inl q ↦ rw (e, q) (ground arith)
    | inr (m, q) ↦ rw (e, q) (ground arith)
  ]
  | inr (seq, e) ↦ elim (Option-cases r.mid) [
    | inl q ↦ rw (e, q) (ground arith)
    | inr (m, q) ↦ rw (e, q) (ground arith)
  ]
]

tally_elements-Counts :
    (r : Rewrite) (t : Tally) (es : List (ℕ × Bytes))
    → Counts t (forwarded r es) (tally_elements r t es)
unfolding tally_elements
tally_elements-Counts r t [] = Counts-nil t
tally_elements-Counts r t ((in_id, area) ∷ es) = elim (Option-cases (mapped r in_id)) [
  | inl e ↦ rw (e, tally_elements, forwarded) (tally_elements-Counts r t es)
  | inr ((kind, out_id), e) ↦
      let here = counted t out_id (out_len r kind area) in
      let flagged = record here {
        twcc_emitted = t.twcc_emitted || kind_beq kind twcc;
        mid_emitted = t.mid_emitted || kind_beq kind mid;
      } in
      let one : Counts t ((out_id, out_value r kind area) ∷ []) flagged =
        ground (arith, length-out_value r kind area) in
      rw (e, tally_elements, forwarded)
        (Counts-append t flagged (tally_elements r flagged es)
          ((out_id, out_value r kind area) ∷ []) (forwarded r es) one
          (tally_elements-Counts r flagged es))
]

tally_elements-flags :
    (r : Rewrite) (t : Tally) (es : List (ℕ × Bytes))
    → ((tally_elements r t es).twcc_emitted ≡ (t.twcc_emitted || carries r twcc es))
      × ((tally_elements r t es).mid_emitted ≡ (t.mid_emitted || carries r mid es))
unfolding tally_elements
tally_elements-flags r t [] = (ground arith, ground arith)
tally_elements-flags r t ((in_id, area) ∷ es) = elim (Option-cases (mapped r in_id)) [
  | inl e ↦ rw (e, tally_elements, carries) (tally_elements-flags r t es)
  | inr ((kind, out_id), e) ↦
      let here = counted t out_id (out_len r kind area) in
      let flagged = record here {
        twcc_emitted = t.twcc_emitted || kind_beq kind twcc;
        mid_emitted = t.mid_emitted || kind_beq kind mid;
      } in
      let (x, y) = tally_elements-flags r flagged es in
      rw (e, tally_elements, carries) (ground (arith, x), ground (arith, y))
]

abbrev pub as_list : Option (ℕ × Bytes) → List (ℕ × Bytes)
as_list none = []
as_list (some el) = el ∷ []

pub twcc_insert-synthesized :
    (r : Rewrite) (es : List (ℕ × Bytes))
    → as_list (twcc_insert r (tally_elements r no_tally es))
      ≡ synthesized r twcc (seq_bytes r.twcc_seq) es
unfolding twcc_insert
twcc_insert-synthesized r es =
    let flag = (tally_elements-flags r no_tally es).0 in
    elim (Option-cases r.twcc_seq) [
      | inl e ↦ rw (e, twcc_insert, synthesized) refl
      | inr (seq, e) ↦ elim (Option-cases (id_of r.out_map twcc)) [
        | inl q ↦ rw (e, q, twcc_insert, synthesized) refl
        | inr (id, q) ↦ rw (e, q, twcc_insert, synthesized) (ground (arith, flag))
      ]
    ]

pub mid_insert-synthesized :
    (r : Rewrite) (es : List (ℕ × Bytes))
    → as_list (mid_insert r (tally_elements r no_tally es)) ≡ synthesized r mid r.mid es
unfolding mid_insert
mid_insert-synthesized r es =
    let flag = (tally_elements-flags r no_tally es).1 in
    elim (Option-cases r.mid) [
      | inl e ↦ rw (e, mid_insert, synthesized) refl
      | inr (m, e) ↦ elim (Option-cases (id_of r.out_map mid)) [
        | inl q ↦ rw (e, q, mid_insert, synthesized) refl
        | inr (id, q) ↦ rw (e, q, mid_insert, synthesized) (ground (arith, flag))
      ]
    ]

count_insert-Counts :
    (el : Option (ℕ × Bytes)) (t : Tally) → Counts t (as_list el) (count_insert el t)
count_insert-Counts none t = Counts-nil t
count_insert-Counts (some (id, v)) t = Counts-one t id v

-- The first pass counts the elements that are to be emitted.
pub tally-Counts :
    (p : RtpPacket) (r : Rewrite) → Counts no_tally (emitted r (extensions p)) (tally p r)
unfolding tally
tally-Counts p r =
    let es = extensions p in
    let seen = tally_elements r no_tally es in
    let with_twcc = count_insert (twcc_insert r seen) seen in
    let with_mid = count_insert (mid_insert r seen) with_twcc in
    rw (sym (twcc_insert-synthesized r es), sym (mid_insert-synthesized r es))
      (Counts-append no_tally seen with_mid (forwarded r es)
        (as_list (twcc_insert r seen) ++ as_list (mid_insert r seen))
        (tally_elements-Counts r no_tally es)
        (Counts-append seen with_twcc with_mid (as_list (twcc_insert r seen))
          (as_list (mid_insert r seen)) (count_insert-Counts (twcc_insert r seen) seen)
          (count_insert-Counts (mid_insert r seen) with_twcc)))
