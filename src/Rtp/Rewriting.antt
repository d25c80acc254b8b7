-- ===== src/Rtp/Rewriting.antt =====
-- `RtpPacket::rewrite_into` of crates/wroom-edge/src/rtp.rs. The output buffer is written in place, at
-- the positions that the code writes, in its order.
pub mod Emitted
pub mod Sizes
pub mod Written
pub mod Overlap
use Prim.Native.Nat.{max}
use wroom.Common.{
  ℕ, ◌+◌, ◌-◌, ◌*◌, ◌/◌, ◌%◌, List, [], ◌∷◌, ◌++◌, Option, none, some, Bool, true, false, not, ◌&&◌,
  ◌||◌, ltb, leb, nat_beq, if◌then◌else◌, length, take, drop, replicate,
}
use wroom.Common.Bytes.{Bytes, byte_at, to_be16, to_be32, slice, splice}
use wroom.Common.Results.{Result, ok, err}
use wroom.Rtp.Extensions.{KnownExt, mid, twcc, kind_index, kind_beq, ExtMap, kind_of, id_of}
use wroom.Rtp.Packet.{
  RtpError, buffer_too_small, RtpPacket, Ext, csrc_count, has_padding, payload_type, extensions,
  ext_is_two_byte, is_two_byte_profile, fixed_header_len, profile_one_byte, profile_two_byte,
}

pub record Rewrite : Type 0 where
  pub in_map : ExtMap
  pub out_map : ExtMap
  pub sequence_number : ℕ
  pub timestamp : ℕ
  pub ssrc : ℕ
  pub twcc_seq : Option ℕ
  pub payload_type : Option ℕ
  pub mid : Option Bytes

abbrev pub is_some {ℓ} : {A : Type ℓ} → Option A → Bool
is_some none = false
is_some (some a) = true

-- The kind and the outgoing id of an element; `none` is a `continue`.
unfoldable pub mapped : Rewrite → ℕ → Option (KnownExt × ℕ)
unfolding kind_of id_of
mapped r in_id = elim (kind_of r.in_map in_id) [
  | none ↦ none
  | some kind ↦ elim (id_of r.out_map kind) [ none ↦ none | some out_id ↦ some (kind, out_id) ]
]

-- What the first pass counts.
pub record Tally : Type 0 where
  pub count : ℕ
  pub data_bytes : ℕ
  pub max_id : ℕ
  pub max_len : ℕ
  pub twcc_emitted : Bool
  pub mid_emitted : Bool

unfoldable pub out_len : Rewrite → KnownExt → Bytes → ℕ
unfolding kind_index
out_len r kind area =
    if kind_beq kind twcc && is_some r.twcc_seq
    then 2
    else if kind_beq kind mid
    then elim r.mid [ none ↦ length area | some m ↦ length m ]
    else length area

-- One more element, with its outgoing id and its length.
abbrev pub counted : Tally → ℕ → ℕ → Tally
counted t id len = record t {
  count = t.count + 1;
  data_bytes = t.data_bytes + len;
  max_id = max t.max_id id;
  max_len = max t.max_len len;
}

unfoldable pub tally_elements : Rewrite → Tally → List (ℕ × Bytes) → Tally
unfolding mapped out_len kind_index
tally_elements r t [] = t
tally_elements r t ((in_id, area) ∷ es) = elim (mapped r in_id) [
  | none ↦ tally_elements r t es
  | some (kind, out_id) ↦
      tally_elements r
        (record (counted t out_id (out_len r kind area)) {
          twcc_emitted = t.twcc_emitted || kind_beq kind twcc;
          mid_emitted = t.mid_emitted || kind_beq kind mid;
        })
        es
]

abbrev pub no_tally : Tally
no_tally = record {
  count = 0;
  data_bytes = 0;
  max_id = 0;
  max_len = 0;
  twcc_emitted = false;
  mid_emitted = false;
}

-- The element that is synthesized: its id and its value.
unfoldable pub twcc_insert : Rewrite → Tally → Option (ℕ × Bytes)
unfolding id_of to_be16
twcc_insert r t = elim r.twcc_seq [
  | none ↦ none
  | some seq ↦ elim (id_of r.out_map twcc) [
    | none ↦ none
    | some id ↦ if t.twcc_emitted then none else some (id, to_be16 seq)
  ]
]

unfoldable pub mid_insert : Rewrite → Tally → Option (ℕ × Bytes)
unfolding id_of
mid_insert r t = elim r.mid [
  | none ↦ none
  | some m ↦ elim (id_of r.out_map mid) [
    | none ↦ none
    | some id ↦ if t.mid_emitted then none else some (id, m)
  ]
]

abbrev pub count_insert : Option (ℕ × Bytes) → Tally → Tally
count_insert none t = t
count_insert (some (id, v)) t = counted t id (length v)

-- The first pass.
unfoldable pub tally : RtpPacket → Rewrite → Tally
unfolding tally_elements twcc_insert mid_insert extensions
tally p r =
    let t = tally_elements r no_tally (extensions p) in
    count_insert (mid_insert r t) (count_insert (twcc_insert r t) t)

abbrev pub emits_ext : Tally → Bool
emits_ext t = ltb 0 t.count

unfoldable pub uses_two_byte : RtpPacket → Tally → Bool
unfolding ext_is_two_byte
uses_two_byte p t = emits_ext t && (ext_is_two_byte p || ltb 14 t.max_id || ltb 16 t.max_len)

-- The length of the element area, rounded up to words.
unfoldable pub ext_data_len : Bool → Tally → ℕ
ext_data_len two_byte t = (t.data_bytes + t.count * (if two_byte then 2 else 1) + 3) / 4 * 4

unfoldable pub needed_len : RtpPacket → Tally → ℕ
needed_len p t =
    fixed_header_len
    + 4 * csrc_count p
    + (if emits_ext t then 4 + ext_data_len (uses_two_byte p t) t else 0)
    + (length p.buf - p.payload_off)

-- The header of one element.
unfoldable pub element_head : Bool → ℕ → ℕ → Bytes
element_head two_byte id len =
    if two_byte then id ∷ len % 256 ∷ [] else (id * 16 % 256 + (len % 256 - 1)) ∷ []

-- One element at a position, which moves past it.
unfoldable pub write_element : Bool → Bytes × ℕ → ℕ → Bytes → Bytes × ℕ
unfolding element_head
write_element two_byte (out, w) id value =
    let head = element_head two_byte id (length value) in
    (splice (splice out w head) (w + length head) value, w + length head + length value)

unfoldable pub out_value : Rewrite → KnownExt → Bytes → Bytes
unfolding to_be16 kind_index
out_value r kind area =
    if kind_beq kind twcc
    then elim r.twcc_seq [ none ↦ area | some seq ↦ to_be16 seq ]
    else if kind_beq kind mid
    then elim r.mid [ none ↦ area | some m ↦ m ]
    else area

unfoldable pub write_elements : Rewrite → Bool → Bytes × ℕ → List (ℕ × Bytes) → Bytes × ℕ
unfolding mapped write_element out_value
write_elements r two_byte s [] = s
write_elements r two_byte s ((in_id, area) ∷ es) = elim (mapped r in_id) [
  | none ↦ write_elements r two_byte s es
  | some (kind, out_id) ↦
      write_elements r two_byte (write_element two_byte s out_id (out_value r kind area)) es
]

-- The synthesized sequence number: the position moves past the element's header only.
unfoldable pub write_twcc : Bool → Bytes × ℕ → Option (ℕ × Bytes) → Bytes × ℕ
unfolding element_head
write_twcc two_byte (out, w) none = (out, w)
write_twcc two_byte (out, w) (some (id, seq)) =
    let head = element_head two_byte id 2 in
    (splice (splice out w head) (w + length head) seq, w + length head)

unfoldable pub write_mid : Bool → Bytes × ℕ → Option (ℕ × Bytes) → Bytes
unfolding write_element
write_mid two_byte s none = s.0
write_mid two_byte s (some (id, m)) = (write_element two_byte s id m).0

-- The extension block at a position, whose element area is cleared first.
unfoldable pub write_ext : RtpPacket → Rewrite → Bytes → ℕ → Bytes
unfolding tally uses_two_byte ext_data_len write_elements write_twcc write_mid
write_ext p r out w =
    let t = tally p r in
    let seen = tally_elements r no_tally (extensions p) in
    let two_byte = uses_two_byte p t in
    let len = ext_data_len two_byte t in
    let profile =
      if two_byte
      then elim p.ext [
        | none ↦ profile_two_byte
        | some e ↦ if is_two_byte_profile e.profile then e.profile else profile_two_byte
      ]
      else profile_one_byte in
    let cleared = splice out w (to_be16 profile ++ to_be16 (len / 4) ++ replicate len 0) in
    write_mid two_byte
      (write_twcc two_byte (write_elements r two_byte (cleared, w + 4) (extensions p))
        (twcc_insert r seen))
      (mid_insert r seen)

-- The first two bytes of the outgoing header.
unfoldable pub first_byte : RtpPacket → Tally → ℕ
unfolding csrc_count has_padding
first_byte p t =
    0x80 + (if has_padding p then 0x20 else 0) + (if emits_ext t then 0x10 else 0) + csrc_count p

unfoldable pub second_byte : RtpPacket → Rewrite → ℕ
unfolding payload_type
second_byte p r =
    byte_at p.buf 1 / 0x80 * 0x80
    + elim r.payload_type [ none ↦ payload_type p | some pt ↦ pt % 0x80 ]

-- Where the payload goes.
unfoldable pub payload_at : RtpPacket → Tally → ℕ
payload_at p t =
    let csrc_end = fixed_header_len + 4 * csrc_count p in
    if emits_ext t then csrc_end + 4 + ext_data_len (uses_two_byte p t) t else csrc_end

-- The header with the CSRC list.
unfoldable pub write_header : RtpPacket → Rewrite → Bytes → Bytes
unfolding first_byte second_byte to_be16 to_be32
write_header p r out =
    let fixed =
      first_byte p (tally p r) ∷ second_byte p r ∷ to_be16 r.sequence_number
      ++ to_be32 r.timestamp
      ++ to_be32 r.ssrc in
    splice out 0 (fixed ++ slice p.buf fixed_header_len (fixed_header_len + 4 * csrc_count p))

-- The length of the packet written, and the output buffer.
unfoldable pub rewrite_into : RtpPacket → Bytes → Rewrite → Result RtpError (ℕ × Bytes)
rewrite_into p out r =
    let t = tally p r in
    let needed = needed_len p t in
    let body = drop p.payload_off p.buf in
    let headed = write_header p r out in
    let extended =
      if emits_ext t then write_ext p r headed (fixed_header_len + 4 * csrc_count p) else headed in
    if ltb (length out) needed
    then err (buffer_too_small needed (length out))
    else ok (payload_at p t + length body, splice extended (payload_at p t) body)
