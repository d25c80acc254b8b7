-- ===== src/Rtcp/Block.antt =====
-- The common header of RTCP in crates/wroom-edge/src/rtcp.rs: `Block::parse`, its feedback header, and
-- `write_header`.
pub mod Header
use Prim.Native.Nat.{bit_or}
use wroom.Common.{
  ℕ, ◌+◌, ◌-◌, ◌*◌, ◌/◌, ◌%◌, Bool, ◌||◌, List, [], ◌∷◌, ltb, nat_beq, if◌then◌else◌, length, take,
  drop,
}
use wroom.Common.Bytes.{Bytes, byte_at, be16_at, to_be16, splice}
use wroom.Common.Results.{Result, ok, err}

abbrev pub header_len : ℕ
header_len = 4

abbrev pub feedback_header_len : ℕ
feedback_header_len = 8

abbrev pub pt_sr : ℕ
pt_sr = 200

abbrev pub pt_rr : ℕ
pt_rr = 201

abbrev pub pt_sdes : ℕ
pt_sdes = 202

abbrev pub pt_bye : ℕ
pt_bye = 203

abbrev pub pt_rtpfb : ℕ
pt_rtpfb = 205

abbrev pub pt_psfb : ℕ
pt_psfb = 206

abbrev pub fmt_nack : ℕ
fmt_nack = 1

abbrev pub fmt_twcc : ℕ
fmt_twcc = 15

abbrev pub fmt_pli : ℕ
fmt_pli = 1

abbrev pub fmt_fir : ℕ
fmt_fir = 4

abbrev pub fmt_afb : ℕ
fmt_afb = 15

-- The messages that `Invalid` is made with.
pub data InvalidField : Type 0 where
  cname_too_long reference_time_too_large delta_out_of_range : InvalidField

pub data RtcpError : Type 0 where
  too_short bad_length bad_padding truncated : RtcpError
  bad_version : ℕ → RtcpError
  buffer_too_small count_overflow : ℕ → ℕ → RtcpError
  invalid : InvalidField → RtcpError

pub record Block : Type 0 where
  pub count : ℕ
  pub packet_type : ℕ
  pub block_len : ℕ
  pub payload : Bytes
  pub raw : Bytes

-- The body of a block without its padding; the last byte counts the padding.
unfoldable pub unpad : Bool → Bytes → Result RtcpError Bytes
unpad padded payload =
    let n = byte_at payload (length payload - 1) in
    if padded
    then (if nat_beq n 0 || ltb (length payload) n
        then err bad_padding
        else ok (take (length payload - n) payload))
    else ok payload

unfoldable pub parse : Bytes → Result RtcpError Block
unfolding be16_at unpad
parse buf =
    let block_len = (be16_at buf 2 + 1) * 4 in
    let raw = take block_len buf in
    if ltb (length buf) header_len
    then err too_short
    else if ltb (byte_at buf 0 / 64) 2 || ltb 2 (byte_at buf 0 / 64)
    then err (bad_version (byte_at buf 0 / 64))
    else if ltb (length buf) block_len
    then err bad_length
    else elim (unpad (nat_beq (byte_at buf 0 / 32 % 2) 1) (drop header_len raw)) [
      | err e ↦ err e
      | ok payload ↦ ok (record {
        count = byte_at buf 0 % 32;
        packet_type = byte_at buf 1;
        block_len = block_len;
        payload = payload;
        raw = raw;
      })
    ]

-- The shared header of a feedback block, and what follows it.
unfoldable pub feedback : Block → Result RtcpError (Bytes × Bytes)
feedback b =
    if ltb (length b.payload) feedback_header_len
    then err truncated
    else ok (take feedback_header_len b.payload, drop feedback_header_len b.payload)

-- The result of writing the header of a block of `total` bytes, and the buffer afterwards.
unfoldable pub write_header : Bytes → ℕ → ℕ → ℕ → Result RtcpError (Unit {0}) × Bytes
unfolding to_be16
write_header out count packet_type total =
    let words = total / 4 - 1 in
    if ltb 0xffff words then (err (count_overflow total (4 * (0xffff + 1))), out) else (
      ok tt,
      splice (splice (splice out 0 (bit_or 0x80 count ∷ [])) 1 (packet_type ∷ [])) 2
          (to_be16 words),
    )
