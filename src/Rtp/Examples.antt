-- ===== src/Rtp/Examples.antt =====
-- The theorems on crates/wroom-edge/src/rtp.rs at concrete packets.
use wroom.Common.{
  ℕ, ◌+◌, List, [], ◌∷◌, ◌++◌, none, some, true, false, ◌≡◌, refl, replicate, length, ltb,
  if◌then◌else◌, arith,
}
use wroom.Common.Bytes.{Bytes, to_be16, byte_at}
use wroom.Common.Results.{ok, err}
use wroom.Rtp.Extensions
use wroom.Rtp.Extensions.{ExtMap, mid, twcc, elements}
use wroom.Rtp.Extensions.Decoding.{encode_one_byte, elements-encode_one_byte}
use wroom.Rtp.Packet.{RtpPacket, buffer_too_small, parse, extensions}
use wroom.Rtp.Packet.Parsing.{IsLaidOut, parse-IsLaidOut}
use wroom.Rtp.Rewriting.{Rewrite, rewrite_into, write_twcc, write_mid}
use wroom.Rtp.Rewriting.Overlap.{synthesized_overlap}
use wroom.Rtp.Rewriting.Emitted.{emitted}
use wroom.Rtp.Rewriting.Sizes.{returned, wire_len, rewrite_into-wire_len}

abbrev two_elements : List (ℕ × Bytes)
two_elements = (1, b'a' ∷ b'1' ∷ []) ∷ (4, 0 ∷ 9 ∷ []) ∷ []

elements-encode_one_byte_example :
    elements false (encode_one_byte two_elements ++ replicate 2 0) ≡ two_elements
elements-encode_one_byte_example = elements-encode_one_byte 2 two_elements (
  (omega arith, omega arith, omega arith, omega arith),
  ((omega arith, omega arith, omega arith, omega arith), tt),
)

-- Version 2 with padding and an extension block of one word, then a payload byte and two padding bytes.
abbrev datagram : Bytes
datagram =
    0xb0 ∷ 96 ∷ 0 ∷ 5 ∷ 0 ∷ 0 ∷ 0 ∷ 1 ∷ 0 ∷ 0 ∷ 0 ∷ 9 ∷ 0xbe ∷ 0xde ∷ 0 ∷ 1 ∷ 0x11 ∷ b'a' ∷ b'1' ∷ 0
    ∷ 7 ∷ 0 ∷ 2 ∷ []

abbrev packet : RtpPacket
packet = record {
  buf = datagram;
  payload_off = 20;
  padding = 2;
  ext = some (record { profile = 0xbede; off = 16; len = 4 });
}

parse-IsLaidOut_example : IsLaidOut datagram packet
unfolding parse
parse-IsLaidOut_example = parse-IsLaidOut datagram packet refl

abbrev both_maps : ExtMap
both_maps = Extensions.from_pairs ((1, mid) ∷ (4, twcc) ∷ [])

abbrev forward : Rewrite
forward = record {
  in_map = both_maps;
  out_map = both_maps;
  sequence_number = 100;
  timestamp = 200;
  ssrc = 300;
  twcc_seq = none;
  payload_type = some 97;
  mid = some (b'0' ∷ []);
}

abbrev scratch : Bytes
scratch = replicate 10 0

rewrite_into-wire_len_example : returned (rewrite_into packet scratch forward) ≡ (
    if ltb (length scratch) (wire_len packet (emitted forward (extensions packet)))
    then err
        (buffer_too_small (wire_len packet (emitted forward (extensions packet))) (length scratch))
    else ok (wire_len packet (emitted forward (extensions packet))))
rewrite_into-wire_len_example = rewrite_into-wire_len packet scratch forward

-- Only the sequence number is synthesized.
abbrev numbered : Rewrite
numbered = record forward { twcc_seq = some 500 }

synthesized_overlap_example :
    byte_at
      (write_mid true (write_twcc true (scratch, 0) (some (4, to_be16 500))) (some (1, b'0' ∷ [])))
      (0 + 2)
    ≡ 1
synthesized_overlap_example = synthesized_overlap scratch 0 4 500 1 (b'0' ∷ []) (omega arith)
