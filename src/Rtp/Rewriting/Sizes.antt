-- ===== src/Rtp/Rewriting/Sizes.antt =====
-- The size of the rewritten packet, from the elements that it is to carry.
use wroom.Common.{
  ℕ, ◌+◌, ◌-◌, ◌*◌, ◌/◌, ◌≡◌, refl, ap, subst, ◌∙◌, arith, List, [], ◌∷◌, Bool, true, false, ◌||◌,
  length, length-drop, drop, ltb, inl, inr, Bool-cases, if◌then◌else◌,
}
use wroom.Common.Bytes.{Bytes}
use wroom.Common.Results.{Result, ok, err}
use wroom.Rtp.Packet.{
  RtpPacket, RtpError, buffer_too_small, fixed_header_len, csrc_count, ext_is_two_byte, extensions,
}
use wroom.Rtp.Rewriting.{
  Rewrite, Tally, payload_at, rewrite_into, tally, needed_len, no_tally, uses_two_byte,
  ext_data_len, emits_ext,
}
use wroom.Rtp.Rewriting.Emitted.{
  emitted, data_len, has_big_id, has_long_value, Counts, tally-Counts,
}

-- The length that a rewrite returns, without the buffer.
unfoldable pub returned : Result RtpError (ℕ × Bytes) → Result RtpError ℕ
returned (ok out) = ok out.0
returned (err e) = err e

-- The bytes of elements, each with a header of one or two bytes.
abbrev pub area_len : Bool → List (ℕ × Bytes) → ℕ
area_len two_byte [] = 0
area_len two_byte ((id, v) ∷ els) = (if two_byte then 2 else 1) + length v + area_len two_byte els

-- Whether the elements need the form with two bytes, or the source has it.
abbrev pub takes_two_byte : RtpPacket → List (ℕ × Bytes) → Bool
takes_two_byte p els = ext_is_two_byte p || (has_big_id els || has_long_value els)

abbrev pub block_len : RtpPacket → List (ℕ × Bytes) → ℕ
block_len p [] = 0
block_len p (el ∷ els) = 4 + (area_len (takes_two_byte p (el ∷ els)) (el ∷ els) + 3) / 4 * 4

-- The header with the CSRC list, the block with these elements, and the payload with its padding.
abbrev pub wire_len : RtpPacket → List (ℕ × Bytes) → ℕ
wire_len p els =
    fixed_header_len + 4 * csrc_count p + block_len p els + (length p.buf - p.payload_off)

area_len_wide : (els : List (ℕ × Bytes)) → area_len true els ≡ data_len els + length els * 2
area_len_wide [] = omega arith
area_len_wide ((id, v) ∷ els) = omega (arith, area_len_wide els)

area_len_narrow : (els : List (ℕ × Bytes)) → area_len false els ≡ data_len els + length els * 1
area_len_narrow [] = omega arith
area_len_narrow ((id, v) ∷ els) = omega (arith, area_len_narrow els)

ext_data_len-area_len :
    (two_byte : Bool) (t : Tally) (els : List (ℕ × Bytes))
    → Counts no_tally els t
    → ext_data_len two_byte t ≡ (area_len two_byte els + 3) / 4 * 4
unfolding ext_data_len
ext_data_len-area_len true t els (n, bytes, _, _) = omega (arith, n, bytes, area_len_wide els)
ext_data_len-area_len false t els (n, bytes, _, _) = omega (arith, n, bytes, area_len_narrow els)

abbrev around : RtpPacket → ℕ → ℕ
around p area = fixed_header_len + 4 * csrc_count p + (4 + area) + (length p.buf - p.payload_off)

needed_len-around :
    (p : RtpPacket) (t : Tally)
    → emits_ext t ≡ true
    → needed_len p t ≡ around p (ext_data_len (uses_two_byte p t) t)
unfolding needed_len
needed_len-around p t e = ground (arith, e)

needed_len-wire_len :
    (p : RtpPacket) (t : Tally) (els : List (ℕ × Bytes))
    → Counts no_tally els t
    → needed_len p t ≡ wire_len p els
unfolding needed_len uses_two_byte
needed_len-wire_len p t [] (n, bytes, ids, lens) = ground (arith, n)
needed_len-wire_len p t (el ∷ els) counts =
    let (n, bytes, ids, lens) = counts in
    let form : uses_two_byte p t ≡ takes_two_byte p (el ∷ els) = ground (arith, n, ids, lens) in
    let some_yet : emits_ext t ≡ true = ground (arith, n) in
    let area = ext_data_len-area_len (takes_two_byte p (el ∷ els)) t (el ∷ els) counts in
    needed_len-around p t some_yet
    ∙ ap (around p) (ap (λ (two_byte : Bool). ext_data_len two_byte t) form ∙ area)

payload_at-needed_len :
    (p : RtpPacket) (t : Tally)
    → payload_at p t + length (drop p.payload_off p.buf) ≡ needed_len p t
unfolding payload_at needed_len
payload_at-needed_len p t = ground (arith, length-drop p.payload_off p.buf)

rewrite_into-needed_len :
    (p : RtpPacket) (out : Bytes) (r : Rewrite)
    → returned (rewrite_into p out r) ≡ (
        if ltb (length out) (needed_len p (tally p r))
        then err (buffer_too_small (needed_len p (tally p r)) (length out))
        else ok (needed_len p (tally p r)))
unfolding rewrite_into returned
rewrite_into-needed_len p out r = elim (Bool-cases (ltb (length out) (needed_len p (tally p r)))) [
  | inl small ↦ rw (small, rewrite_into) refl
  | inr room ↦ rw (room, rewrite_into) (ap ok (payload_at-needed_len p (tally p r)))
]

-- The size of the rewritten packet is that of the header with the CSRC list, of the payload with its padding,
-- and, if there are elements to emit, of a block with all of them, rounded up to words: the elements of the
-- source that are known on both sides, with their new values, then the sequence number and the MID where
-- they are asked for, have an outgoing id and are not among those. Each element has a header of two bytes if
-- the source has that form or an id above 14 or a value of more than 16 bytes needs it, and of one byte
-- otherwise. The rewrite succeeds exactly when the buffer has room for that size, and returns it; otherwise
-- the error names that size and the room there is.
pub rewrite_into-wire_len :
    (p : RtpPacket) (out : Bytes) (r : Rewrite)
    → returned (rewrite_into p out r) ≡ (
        if ltb (length out) (wire_len p (emitted r (extensions p)))
        then err (buffer_too_small (wire_len p (emitted r (extensions p))) (length out))
        else ok (wire_len p (emitted r (extensions p))))
rewrite_into-wire_len p out r =
    subst
      (λ (n : ℕ).
        returned (rewrite_into p out r)
        ≡ (if ltb (length out) n then err (buffer_too_small n (length out)) else ok n))
      (needed_len-wire_len p (tally p r) (emitted r (extensions p)) (tally-Counts p r))
      (rewrite_into-needed_len p out r)
