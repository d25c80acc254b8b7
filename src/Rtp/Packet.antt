-- ===== src/Rtp/Packet.antt =====
-- `RtpPacket` of crates/wroom-edge/src/rtp.rs: parsing and the views of a parsed packet.
pub mod Parsing
use wroom.Common.{
  ℕ, ◌+◌, ◌-◌, ◌*◌, ◌/◌, ◌%◌, List, [], ◌∷◌, Option, none, some, Bool, true, false, ◌||◌, ltb, leb,
  nat_beq, if◌then◌else◌, length, take, drop,
}
use wroom.Common.Bytes.{Bytes, byte_at, be16_at, be32_at, slice}
use wroom.Common.Results.{Result, ok, err, ◌>>=◌}
use wroom.Rtp.Extensions.{
  KnownExt, mid, rid, twcc, abs_send_time, audio_level, ExtMap, id_of, elements,
}

abbrev pub fixed_header_len : ℕ
fixed_header_len = 12

abbrev pub profile_one_byte : ℕ
profile_one_byte = 0xbede

abbrev pub profile_two_byte : ℕ
profile_two_byte = 0x1000

pub data RtpError : Type 0 where
  too_short truncated_header bad_padding : RtpError
  bad_version : ℕ → RtpError
  buffer_too_small : ℕ → ℕ → RtpError

pub record Ext : Type 0 where
  pub profile : ℕ
  pub off : ℕ
  pub len : ℕ

pub record RtpPacket : Type 0 where
  pub buf : Bytes
  pub payload_off : ℕ
  pub padding : ℕ
  pub ext : Option Ext

-- The extension block that starts at an offset, with the offset after it.
unfoldable pub parse_ext : Bytes → ℕ → Result RtpError (Option Ext × ℕ)
unfolding be16_at
parse_ext buf off =
    if nat_beq (byte_at buf 0 / 16 % 2) 0
    then ok (none, off)
    else if ltb (length buf) (off + 4)
    then err truncated_header
    else (let data_len = be16_at buf (off + 2) * 4 in
        if ltb (length buf) (off + 4 + data_len)
        then err truncated_header
        else ok (
          some (record { profile = be16_at buf off; off = off + 4; len = data_len }),
          off + 4 + data_len,
        ))

-- The padding count, for a payload region that starts at an offset.
unfoldable pub parse_padding : Bytes → ℕ → Result RtpError ℕ
parse_padding buf off =
    let n = byte_at buf (length buf - 1) in
    if nat_beq (byte_at buf 0 / 32 % 2) 0
    then ok 0
    else if leb (length buf) off
    then err bad_padding
    else if nat_beq n 0 || ltb (length buf - off) n
    then err bad_padding
    else ok n

unfoldable pub parse : Bytes → Result RtpError RtpPacket
unfolding parse_ext parse_padding
parse buf =
    let off = fixed_header_len + 4 * (byte_at buf 0 % 16) in
    if ltb (length buf) fixed_header_len
    then err too_short
    else if ltb (byte_at buf 0 / 64) 2 || ltb 2 (byte_at buf 0 / 64)
    then err (bad_version (byte_at buf 0 / 64))
    else if ltb (length buf) off
    then err truncated_header
    else (parse_ext buf off >>= λ (ext, off'). parse_padding buf off' >>= λ padding.
        ok (record { buf = buf; payload_off = off'; padding = padding; ext = ext }))

unfoldable pub marker : RtpPacket → Bool
marker p = leb 0x80 (byte_at p.buf 1)

unfoldable pub payload_type : RtpPacket → ℕ
payload_type p = byte_at p.buf 1 % 0x80

unfoldable pub sequence_number : RtpPacket → ℕ
unfolding be16_at
sequence_number p = be16_at p.buf 2

unfoldable pub timestamp : RtpPacket → ℕ
unfolding be32_at
timestamp p = be32_at p.buf 4

unfoldable pub ssrc : RtpPacket → ℕ
unfolding be32_at
ssrc p = be32_at p.buf 8

unfoldable pub csrc_count : RtpPacket → ℕ
csrc_count p = byte_at p.buf 0 % 16

unfoldable pub csrc : RtpPacket → ℕ → Option ℕ
unfolding csrc_count be32_at
csrc p i = if leb (csrc_count p) i then none else some (be32_at p.buf (fixed_header_len + 4 * i))

unfoldable pub has_padding : RtpPacket → Bool
has_padding p = nat_beq (byte_at p.buf 0 / 32 % 2) 1

unfoldable pub payload : RtpPacket → Bytes
payload p = slice p.buf p.payload_off (length p.buf - p.padding)

-- `profile & PROFILE_TWO_BYTE_MASK == PROFILE_TWO_BYTE`.
abbrev pub is_two_byte_profile : ℕ → Bool
is_two_byte_profile profile = nat_beq (profile / 16) 0x100

unfoldable pub extensions : RtpPacket → List (ℕ × Bytes)
unfolding elements
extensions p = elim p.ext [
  | none ↦ []
  | some e ↦
      let area = slice p.buf e.off (e.off + e.len) in
      if nat_beq e.profile profile_one_byte
      then elements false area
      else if is_two_byte_profile e.profile
      then elements true area
      else []
]

-- `find` over the elements.
unfoldable pub first_with : ℕ → List (ℕ × Bytes) → Option Bytes
first_with id [] = none
first_with id ((i, v) ∷ es) = if nat_beq i id then some v else first_with id es

unfoldable pub extension : RtpPacket → ℕ → Option Bytes
unfolding extensions first_with
extension p id = first_with id (extensions p)

unfoldable pub ext_value : RtpPacket → ExtMap → KnownExt → Option Bytes
unfolding id_of extension
ext_value p m kind = elim (id_of m kind) [ none ↦ none | some id ↦ extension p id ]

unfoldable pub twcc_seq : RtpPacket → ExtMap → Option ℕ
unfolding ext_value be16_at
twcc_seq p m = elim (ext_value p m twcc) [
  | none ↦ none
  | some v ↦ if nat_beq (length v) 2 then some (be16_at v 0) else none
]

unfoldable pub abs_send_time_value : RtpPacket → ExtMap → Option ℕ
unfolding ext_value
abs_send_time_value p m = elim (ext_value p m abs_send_time) [
  | none ↦ none
  | some v ↦
      if nat_beq (length v) 3
      then some (byte_at v 0 * 0x10000 + byte_at v 1 * 0x100 + byte_at v 2)
      else none
]

-- The value of an audio-level element: the voice bit and the level.
unfoldable pub audio_level_value : RtpPacket → ExtMap → Option (Bool × ℕ)
unfolding ext_value
audio_level_value p m = elim (ext_value p m audio_level) [
  | none ↦ none
  | some v ↦
      if nat_beq (length v) 1 then some (leb 0x80 (byte_at v 0), byte_at v 0 % 0x80) else none
]

unfoldable pub ext_is_two_byte : RtpPacket → Bool
ext_is_two_byte p = elim p.ext [ none ↦ false | some e ↦ is_two_byte_profile e.profile ]
