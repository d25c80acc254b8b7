-- ===== src/Rtp/Packet/Parsing.antt =====
-- A packet that parses has its parts where they should be, inside the datagram.
use wroom.Common.{
  ℕ, ◌+◌, ◌*◌, ◌/◌, ◌%◌, ◌≤◌, ◌<◌, Option, none, some, true, ◌≡◌, refl, inl, inr, arith, length,
  ◌↔◌, nat_beq, subst,
}
use wroom.Common.Bytes.{Bytes, byte_at}
use wroom.Common.Results.{ok, Result-cases}
use wroom.Rtp.Packet.{
  RtpPacket, Ext, parse, parse_ext, parse_padding, csrc_count, has_padding, fixed_header_len,
}

-- Where the extension block of a packet lies, for a CSRC list that ends at an offset.
abbrev ExtFits : Bytes → ℕ → Option Ext → ℕ → Type 0
ExtFits buf off none after = after ≡ off
ExtFits buf off (some e) after =
    (e.off ≡ off + 4) × (after ≡ e.off + e.len) × (after ≤ length buf) × (e.len % 4 ≡ 0)

-- The parts of a parsed packet follow each other: the fixed header with the CSRC list, the extension
-- block if there is one, the payload and the padding.
pub record IsLaidOut (buf : Bytes) (p : RtpPacket) : Type 0 where
  pub whole : p.buf ≡ buf
  pub header : fixed_header_len + 4 * csrc_count p ≤ p.payload_off
  pub ext_block : ExtFits buf (fixed_header_len + 4 * csrc_count p) p.ext p.payload_off
  pub payload_room : p.payload_off + p.padding ≤ length buf
  pub padded : (has_padding p ≡ true) ↔ (0 < p.padding)

parse_ext-fits :
    (buf : Bytes) (off : ℕ) (out : Option Ext × ℕ)
    → off ≤ length buf
    → parse_ext buf off ≡ ok out
    → ExtFits buf off out.0 out.1 × (off ≤ out.1) × (out.1 ≤ length buf)
unfolding parse_ext
parse_ext-fits buf off (none, after) fits h = ground (arith, h)
parse_ext-fits buf off (some e, after) fits h = ground (arith, h)

parse_padding-fits :
    (buf : Bytes) (off n : ℕ)
    → off ≤ length buf
    → parse_padding buf off ≡ ok n
    → (off + n ≤ length buf) × ((nat_beq (byte_at buf 0 / 32 % 2) 1 ≡ true) ↔ (0 < n))
unfolding parse_padding
parse_padding-fits buf off n fits h = ground (arith, h)

-- A packet that parses is laid out in the datagram: the fixed header with the CSRC list, the extension
-- block in whole words, the payload and the padding, which is there exactly when its bit is set.
pub parse-IsLaidOut : (buf : Bytes) (p : RtpPacket) → parse buf ≡ ok p → IsLaidOut buf p
unfolding parse csrc_count has_padding
parse-IsLaidOut buf p h =
    let off = fixed_header_len + 4 * (byte_at buf 0 % 16) in
    elim (Result-cases (parse_ext buf off)) [
      | inl (e, q) ↦ absurd (ground (arith, q, h))
      | inr (out, q) ↦ elim (Result-cases (parse_padding buf out.1)) [
        | inl (e, r) ↦ absurd (ground (arith, q, r, h))
        | inr (padding, r) ↦
            let parsed : RtpPacket = record {
              buf = buf;
              payload_off = out.1;
              padding = padding;
              ext = out.0;
            } in
            let same : parsed ≡ p = ground (arith, q, r, h) in
            let room : off ≤ length buf = ground (arith, h) in
            let ext_fits = parse_ext-fits buf off out room q in
            let padding_fits = parse_padding-fits buf out.1 padding ext_fits.2 r in
            subst (IsLaidOut buf) same (record {
              whole = refl;
              header = ext_fits.1;
              ext_block = ext_fits.0;
              payload_room = padding_fits.0;
              padded = padding_fits.1;
            })
      ]
    ]
