-- ===== src/Rtcp/Feedback.antt =====
-- NACK, PLI, FIR and REMB of crates/wroom-edge/src/rtcp.rs.
pub mod Written
pub mod Lost
use wroom.Common.{
  ℕ, zero, suc, ◌+◌, ◌-◌, ◌*◌, ◌/◌, ◌%◌, ◌^◌, Bool, ◌||◌, List, [], ◌∷◌, ◌++◌, map, ltb, nat_beq,
  if◌then◌else◌, length, take, drop, list_beq,
}
use wroom.Common.Bits.{bit}
use wroom.Common.{nat_eq}
use wroom.Common.Bytes.{
  Bytes, byte_at, be16_at, be32_at, to_be16, to_be32, slice, splice, as_chunks,
}
use wroom.Common.Results.{Result, ok, err, ◌>>=◌}
use wroom.Rtcp.Block.{
  RtcpError, truncated, buffer_too_small, Block, write_header, feedback, header_len,
  feedback_header_len, pt_rtpfb, pt_psfb, fmt_nack, fmt_pli, fmt_fir,
}
use wroom.Rtcp.Sources.{words_of}

pub record NackEntry : Type 0 where
  pub pid : ℕ
  pub blp : ℕ

-- The lost numbers at the offsets from `i` on, of which `n` are left.
unfoldable pub lost_from : NackEntry → ℕ → ℕ → List ℕ
unfolding bit
lost_from e i zero = []
lost_from e i (suc n) =
    let rest = lost_from e (i + 1) n in
    if nat_beq i 0
    then e.pid ∷ rest
    else if nat_beq (bit e.blp (i - 1)) 0
    then rest
    else ((e.pid + i) % 2 ^ 16) ∷ rest

unfoldable pub lost : NackEntry → List ℕ
lost e = lost_from e 0 17

pub record FirEntry : Type 0 where
  pub ssrc : ℕ
  pub seq : ℕ

-- `from_block` of `Nack`, `Pli` and `Fir`: the feedback header has to be there.
unfoldable pub feedback_block : Block → Result RtcpError Block
unfolding feedback
feedback_block b = feedback b >>= λ _. ok b

-- `sender_ssrc` and `media_ssrc` of the feedback views.
unfoldable pub sender_ssrc : Block → ℕ
unfolding be32_at
sender_ssrc b = be32_at b.payload 0

unfoldable pub media_ssrc : Block → ℕ
unfolding be32_at
media_ssrc b = be32_at b.payload 4

unfoldable pub parse_nack_entry : Bytes → NackEntry
unfolding be16_at
parse_nack_entry c = record { pid = be16_at c 0; blp = be16_at c 2 }

unfoldable pub nack_entries : Block → List NackEntry
unfolding as_chunks parse_nack_entry
nack_entries b = map parse_nack_entry (as_chunks 4 (drop feedback_header_len b.payload))

-- `flat_map` over the entries.
unfoldable pub all_lost : List NackEntry → List ℕ
unfolding lost
all_lost [] = []
all_lost (e ∷ es) = lost e ++ all_lost es

unfoldable pub lost_packets : Block → List ℕ
unfolding nack_entries all_lost
lost_packets b = all_lost (nack_entries b)

unfoldable pub parse_fir_entry : Bytes → FirEntry
unfolding be32_at
parse_fir_entry c = record { ssrc = be32_at c 0; seq = byte_at c 4 }

unfoldable pub fir_entries : Block → List FirEntry
unfolding as_chunks parse_fir_entry
fir_entries b = map parse_fir_entry (as_chunks 8 (drop feedback_header_len b.payload))

-- The two SSRCs that the feedback builders write after the header.
unfoldable pub write_ssrcs : Bytes → ℕ → ℕ → Bytes
unfolding to_be32
write_ssrcs out sender media = splice (splice out 4 (to_be32 sender)) 8 (to_be32 media)

unfoldable pub write_nack_entries : Bytes → ℕ → List NackEntry → Bytes
unfolding to_be16
write_nack_entries out w [] = out
write_nack_entries out w (e ∷ es) =
    write_nack_entries (splice (splice out w (to_be16 e.pid)) (w + 2) (to_be16 e.blp)) (w + 4) es

-- The bytes 5 to 7 of an entry are not written.
unfoldable pub write_fir_entries : Bytes → ℕ → List FirEntry → Bytes
unfolding to_be32
write_fir_entries out w [] = out
write_fir_entries out w (e ∷ es) =
    write_fir_entries (splice (splice out w (to_be32 e.ssrc)) (w + 4) (e.seq ∷ [])) (w + 8) es

-- `Nack::build`: the result and the buffer that it leaves.
unfoldable pub build_nack : Bytes → ℕ → ℕ → List NackEntry → Result RtcpError ℕ × Bytes
unfolding write_ssrcs
build_nack out sender media entries =
    let total = header_len + feedback_header_len + 4 * length entries in
    if ltb (length out) total
    then (err (buffer_too_small total (length out)), out)
    else (let (written, head) = write_header out fmt_nack pt_rtpfb total in
        elim written [
          | err e ↦ (err e, head)
          | ok _ ↦ (ok total, write_nack_entries (write_ssrcs head sender media) 12 entries)
        ])

unfoldable pub build_pli : Bytes → ℕ → ℕ → Result RtcpError ℕ × Bytes
unfolding write_ssrcs
build_pli out sender media =
    let total = header_len + feedback_header_len in
    if ltb (length out) total
    then (err (buffer_too_small total (length out)), out)
    else (let (written, head) = write_header out fmt_pli pt_psfb total in
        elim written [ err e ↦ (err e, head) | ok _ ↦ (ok total, write_ssrcs head sender media) ])

unfoldable pub build_fir : Bytes → ℕ → ℕ → List FirEntry → Result RtcpError ℕ × Bytes
unfolding write_ssrcs
build_fir out sender media entries =
    let total = header_len + feedback_header_len + 8 * length entries in
    if ltb (length out) total
    then (err (buffer_too_small total (length out)), out)
    else (let (written, head) = write_header out fmt_fir pt_psfb total in
        elim written [
          | err e ↦ (err e, head)
          | ok _ ↦ (ok total, write_fir_entries (write_ssrcs head sender media) 12 entries)
        ])

abbrev pub remb_magic : Bytes
remb_magic = b'R' ∷ b'E' ∷ b'M' ∷ b'B' ∷ []

unfoldable pub is_remb : Block → Bool
unfolding list_beq
is_remb b = list_beq (slice b.payload feedback_header_len (feedback_header_len + 4)) remb_magic

unfoldable pub remb : Block → Result RtcpError Block
unfolding feedback
remb b = feedback b >>= λ (_, fci).
    if ltb (length fci) 8 || ltb (length fci) (8 + 4 * byte_at fci 4) then err truncated else ok b

unfoldable pub bitrate : Block → ℕ
unfolding be32_at
bitrate b =
    let fci = drop feedback_header_len b.payload in
    let exp = byte_at fci 5 / 4 in
    let mantissa = be32_at (0 ∷ (byte_at fci 5 % 4) ∷ byte_at fci 6 ∷ byte_at fci 7 ∷ []) 0 in
    if ltb (mantissa * 2 ^ exp) (2 ^ 64) then mantissa * 2 ^ exp else 2 ^ 64 - 1

unfoldable pub remb_ssrcs : Block → List ℕ
unfolding words_of
remb_ssrcs b =
    let fci = drop feedback_header_len b.payload in words_of (slice fci 8 (8 + 4 * byte_at fci 4))
