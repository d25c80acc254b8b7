-- ===== src/Rtcp/Twcc/Building.antt =====
-- `Twcc::build` of crates/wroom-edge/src/rtcp.rs, with its choice of chunks.
use Prim.Native.Nat.{bit_or, min}
use wroom.Common.{
  ℕ, zero, suc, ◌+◌, ◌-◌, ◌*◌, ◌^◌, Bool, false, ◌||◌, List, [], ◌∷◌, ltb, leb, nat_beq,
  if◌then◌else◌, length, take, drop, replicate,
}
use wroom.Common.Bytes.{Bytes, to_be16, to_be32, splice}
use wroom.Common.Integers.{ℤ, pos, negsuc, unsigned}
use wroom.Common.Results.{Result, ok, err, ◌>>=◌}
use wroom.Rtcp.Block.{
  RtcpError, count_overflow, buffer_too_small, invalid, reference_time_too_large,
  delta_out_of_range, write_header, header_len, feedback_header_len, fmt_twcc, pt_rtpfb,
}
use wroom.Rtcp.Sources.{to_words}
use wroom.Rtcp.Feedback.{write_ssrcs}
use wroom.Rtcp.Twcc.{TwccStatus, not_received, received, is_wide}

-- `(0..=255).contains(&d)`.
abbrev pub is_small : ℤ → Bool
is_small (pos n) = leb n 255
is_small (negsuc n) = false

-- `i16::try_from(d).is_ok()`.
abbrev pub fits_i16 : ℤ → Bool
fits_i16 (pos n) = ltb n (2 ^ 15)
fits_i16 (negsuc n) = ltb n (2 ^ 15)

unfoldable pub twcc_symbol : TwccStatus → ℕ
twcc_symbol not_received = 0
twcc_symbol (received d) = if is_small d then 1 else 2

-- The size pass: the delta bytes, or the refusal of a delta that is out of range.
unfoldable pub delta_bytes_of : List TwccStatus → Result RtcpError ℕ
delta_bytes_of [] = ok 0
delta_bytes_of (not_received ∷ ss) = delta_bytes_of ss
delta_bytes_of (received d ∷ ss) =
    let rest = delta_bytes_of ss in
    if is_small d
    then (rest >>= λ n. ok (1 + n))
    else if fits_i16 d
    then (rest >>= λ n. ok (2 + n))
    else err (invalid delta_out_of_range)

unfoldable pub any_large : List TwccStatus → Bool
unfolding twcc_symbol
any_large [] = false
any_large (s ∷ ss) = nat_beq (twcc_symbol s) 2 || any_large ss

-- `Twcc::chunk_at` for the statuses that are left: how many it takes, and its base bits.
unfoldable pub chunk_at : List TwccStatus → ℕ × ℕ
unfolding any_large
chunk_at statuses =
    if any_large (take 14 statuses)
    then (min (length statuses) 7, 0x8000 + 0x4000)
    else (min (length statuses) 14, 0x8000)

-- Each chunk takes a status or more, so that the number of statuses is fuel enough.
unfoldable pub chunk_count_within : ℕ → List TwccStatus → ℕ
unfolding chunk_at
chunk_count_within zero ss = 0
chunk_count_within (suc fuel) [] = 0
chunk_count_within (suc fuel) (s ∷ ss) =
    1 + chunk_count_within fuel (drop ((chunk_at (s ∷ ss)).0) (s ∷ ss))

unfoldable pub chunk_count : List TwccStatus → ℕ
unfolding chunk_count_within
chunk_count ss = chunk_count_within (length ss) ss

-- The symbols of a window put into a chunk, from an index on.
unfoldable pub pack_symbols : ℕ → ℕ → List TwccStatus → ℕ
unfolding twcc_symbol
pack_symbols chunk k [] = chunk
pack_symbols chunk k (s ∷ window) =
    pack_symbols (bit_or chunk (twcc_symbol s * 2 ^ (if is_wide chunk then 12 - 2 * k else 13 - k)))
      (k + 1) window

-- The loop over the chunks: the buffer and the write position.
unfoldable pub write_chunks : ℕ → Bytes → ℕ → List TwccStatus → Bytes × ℕ
unfolding chunk_at pack_symbols to_be16
write_chunks zero out w ss = (out, w)
write_chunks (suc fuel) out w [] = (out, w)
write_chunks (suc fuel) out w (s ∷ ss) =
    let (n, base) = chunk_at (s ∷ ss) in
    let chunk = pack_symbols base 0 (take n (s ∷ ss)) in
    write_chunks fuel (splice out w (to_be16 chunk)) (w + 2) (drop n (s ∷ ss))

-- The loop over the deltas.
unfoldable pub write_deltas : Bytes → ℕ → List TwccStatus → Bytes × ℕ
unfolding to_be16 unsigned
write_deltas out w [] = (out, w)
write_deltas out w (not_received ∷ ss) = write_deltas out w ss
write_deltas out w (received d ∷ ss) =
    if is_small d
    then write_deltas (splice out w (unsigned 8 d ∷ [])) (w + 1) ss
    else write_deltas (splice out w (to_be16 (unsigned 16 d))) (w + 2) ss

-- The size of a block with these statuses, whose deltas take so many bytes.
unfoldable pub twcc_len : List TwccStatus → ℕ → ℕ
unfolding chunk_count
twcc_len statuses delta_bytes =
    to_words (header_len + feedback_header_len + 8 + 2 * chunk_count statuses + delta_bytes)

-- What follows the SSRCs of a block of `total` bytes.
unfoldable pub write_fci : Bytes → ℕ → ℕ → ℕ → ℕ → List TwccStatus → Bytes
unfolding to_be16 to_be32 write_chunks write_deltas
write_fci out total base_seq ref_time fb_count statuses =
    let a = splice out 12 (to_be16 base_seq) in
    let b = splice a 14 (to_be16 (length statuses)) in
    let c = splice b 16 (drop 1 (to_be32 ref_time)) in
    let d = splice c 19 (fb_count ∷ []) in
    let (chunked, w) = write_chunks (length statuses) d 20 statuses in
    let (filled, w') = write_deltas chunked w statuses in
    splice filled w' (replicate (total - w') 0)

-- `Twcc::build`: the result and the buffer that it leaves.
unfoldable pub build_twcc : Bytes → ℕ → ℕ → ℕ → ℕ → ℕ → List TwccStatus → Result RtcpError ℕ × Bytes
unfolding write_ssrcs write_fci twcc_len delta_bytes_of
build_twcc out sender media base_seq ref_time fb_count statuses =
    if ltb 0xffff (length statuses)
    then (err (count_overflow (length statuses) 0xffff), out)
    else if ltb 0xffffff ref_time
    then (err (invalid reference_time_too_large), out)
    else elim (delta_bytes_of statuses) [
      | err e ↦ (err e, out)
      | ok delta_bytes ↦
          let total = twcc_len statuses delta_bytes in
          if ltb (length out) total
          then (err (buffer_too_small total (length out)), out)
          else (let (written, head) = write_header out fmt_twcc pt_rtpfb total in
              elim written [
                | err e ↦ (err e, head)
                | ok _ ↦ (
                  ok total,
                  write_fci (write_ssrcs head sender media) total base_seq ref_time fb_count
                      statuses,
                )
              ])
    ]
