-- ===== src/Ice/Stun.antt =====
-- STUN messages of crates/wroom-edge/src/ice.rs: parsing, the views, and the two checks.
use Prim.Native.Nat.{bit_xor}
use wroom.Common.{
  ℕ, zero, suc, ◌+◌, ◌-◌, ◌*◌, ◌/◌, ◌%◌, ◌^◌, List, [], ◌∷◌, ◌++◌, Option, none, some, Bool, true,
  false, ◌&&◌, ltb, leb, nat_beq, if◌then◌else◌, length, take, drop, map, nat_eq, list_eq, ◌==◌,
}
use wroom.Common.Bytes.{Bytes, byte_at, be16_at, be32_at, to_be16, to_be32, slice, as_chunks}
use wroom.Common.Results.{Result, ok, err}
use wroom.Ice.Addresses.{SocketAddr, v4, v6, is_utf8}

-- What the agent takes from the crates hmac, sha1 and crc: the tag of a key and a text, and the checksum.
pub record Digests : Type 0 where
  pub hmac_sha1 : Bytes → Bytes → Bytes
  pub crc32 : Bytes → ℕ

abbrev pub header_len : ℕ
header_len = 20

abbrev pub magic_cookie : ℕ
magic_cookie = 0x2112_a442

abbrev pub fingerprint_xor : ℕ
fingerprint_xor = 0x5354_554e

abbrev pub binding_success : ℕ
binding_success = 0x0101

abbrev pub binding_error : ℕ
binding_error = 0x0111

abbrev pub method_binding : ℕ
method_binding = 0x001

abbrev pub attr_mapped_address : ℕ
attr_mapped_address = 0x0001

abbrev pub attr_username : ℕ
attr_username = 0x0006

abbrev pub attr_message_integrity : ℕ
attr_message_integrity = 0x0008

abbrev pub attr_error_code : ℕ
attr_error_code = 0x0009

abbrev pub attr_unknown_attributes : ℕ
attr_unknown_attributes = 0x000a

abbrev pub attr_realm : ℕ
attr_realm = 0x0014

abbrev pub attr_nonce : ℕ
attr_nonce = 0x0015

abbrev pub attr_xor_mapped_address : ℕ
attr_xor_mapped_address = 0x0020

abbrev pub attr_priority : ℕ
attr_priority = 0x0024

abbrev pub attr_use_candidate : ℕ
attr_use_candidate = 0x0025

abbrev pub attr_software : ℕ
attr_software = 0x8022

abbrev pub attr_fingerprint : ℕ
attr_fingerprint = 0x8028

abbrev pub attr_ice_controlled : ℕ
attr_ice_controlled = 0x8029

abbrev pub attr_ice_controlling : ℕ
attr_ice_controlling = 0x802a

abbrev pub known_attrs : List ℕ
known_attrs =
    attr_mapped_address ∷ attr_username ∷ attr_message_integrity ∷ attr_error_code
    ∷ attr_unknown_attributes ∷ attr_realm ∷ attr_nonce ∷ attr_xor_mapped_address ∷ attr_priority
    ∷ attr_use_candidate ∷ attr_software ∷ attr_fingerprint ∷ attr_ice_controlled
    ∷ attr_ice_controlling ∷ []

pub data StunError : Type 0 where
  too_short not_stun bad_cookie bad_length truncated malformed_attributes : StunError
  buffer_too_small attribute_too_large message_too_large attribute_order : StunError

pub data Class : Type 0 where
  request indication success error : Class

pub data IceRole : Type 0 where
  controlling controlled : IceRole

-- `(n + 3) & !3`.
abbrev pub pad4 : ℕ → ℕ
pad4 n = (n + 3) / 4 * 4

unfoldable pub is_stun_datagram : Bytes → Bool
unfolding be32_at
is_stun_datagram buf =
    leb header_len (length buf) && leb (byte_at buf 0) 3 && nat_beq (be32_at buf 4) magic_cookie

pub record Attribute : Type 0 where
  pub attr_type : ℕ
  pub offset : ℕ
  pub value : Bytes

pub record Message : Type 0 where
  pub raw : Bytes
  pub msg_type : ℕ
  pub transaction_id : Bytes

-- The framing loop from an offset: whether the attributes fit exactly. Each takes four bytes or more, so
-- that the length of the message is fuel enough.
unfoldable pub well_framed : ℕ → Bytes → ℕ → Bool
unfolding be16_at
well_framed zero raw off = false
well_framed (suc fuel) raw off =
    let next = off + 4 + pad4 (be16_at raw (off + 2)) in
    let later = well_framed fuel raw next in
    if leb (length raw) off
    then true
    else if ltb (length raw) (off + 4)
    then false
    else if ltb (length raw) next
    then false
    else later

-- `Message::parse`.
unfoldable pub parse : Bytes → Result StunError Message
unfolding well_framed be16_at be32_at
parse datagram =
    let declared = be16_at datagram 2 in
    let end = header_len + declared in
    let raw = take end datagram in
    if ltb (length datagram) header_len
    then err too_short
    else if leb 0x40 (byte_at datagram 0)
    then err not_stun
    else if ltb 0 (declared % 4)
    then err bad_length
    else if nat_beq (be32_at datagram 4) magic_cookie
    then (if ltb (length datagram) end
        then err truncated
        else if well_framed (length raw) raw header_len
        then ok
            (record { raw = raw; msg_type = be16_at datagram 0; transaction_id = slice raw 8 20 })
        else err malformed_attributes)
    else err bad_cookie

-- The bits of the method, which the bits of the class lie between.
unfoldable pub method : Message → ℕ
method m = m.msg_type % 16 + m.msg_type / 32 % 8 * 16 + m.msg_type / 512 % 32 * 128

unfoldable pub class : Message → Class
class m =
    let bits = m.msg_type / 16 % 2 + m.msg_type / 256 % 2 * 2 in
    if nat_beq bits 0
    then request
    else if nat_beq bits 1
    then indication
    else if nat_beq bits 2
    then success
    else error

-- The attributes from an offset, as `Attributes::next` gives them.
unfoldable pub attributes_from : ℕ → Bytes → ℕ → List Attribute
unfolding be16_at
attributes_from zero raw off = []
attributes_from (suc fuel) raw off =
    let len = be16_at raw (off + 2) in
    let later = attributes_from fuel raw (off + 4 + pad4 len) in
    if ltb (length raw) (off + 4)
    then []
    else if ltb (length raw) (off + 4 + len)
    then []
    else record {
      attr_type = be16_at raw off;
      offset = off;
      value = slice raw (off + 4) (off + 4 + len);
    }
      ∷ later

unfoldable pub attributes : Message → List Attribute
unfolding attributes_from
attributes m = attributes_from (length m.raw) m.raw header_len

-- `find` over the attributes.
unfoldable pub first_of : ℕ → List Attribute → Option Attribute
first_of ty [] = none
first_of ty (a ∷ rest) = if nat_beq a.attr_type ty then some a else first_of ty rest

unfoldable pub get : Message → ℕ → Option Attribute
unfolding attributes first_of
get m ty = first_of ty (attributes m)

-- `username` and `software`: the value of an attribute where it is UTF-8.
unfoldable pub text_of : Message → ℕ → Option Bytes
unfolding get
text_of m ty = elim (get m ty) [
  | none ↦ none
  | some a ↦ if is_utf8 a.value then some a.value else none
]

unfoldable pub use_candidate : Message → Bool
unfolding get
use_candidate m = elim (get m attr_use_candidate) [ none ↦ false | some a ↦ true ]

unfoldable pub priority : Message → Option ℕ
unfolding get be32_at
priority m = elim (get m attr_priority) [
  | none ↦ none
  | some a ↦ if nat_beq (length a.value) 4 then some (be32_at a.value 0) else none
]

-- A role attribute's tiebreaker.
unfoldable pub tiebreaker : Attribute → Option ℕ
unfolding be32_at
tiebreaker a =
    if nat_beq (length a.value) 8
    then some (be32_at a.value 0 * 2 ^ 32 + be32_at a.value 4)
    else none

unfoldable pub ice_role : Message → Option (IceRole × ℕ)
unfolding get tiebreaker
ice_role m = elim (get m attr_ice_controlled) [
  | some a ↦ elim (tiebreaker a) [ none ↦ none | some n ↦ some (controlled, n) ]
  | none ↦ elim (get m attr_ice_controlling) [
    | none ↦ none
    | some a ↦ elim (tiebreaker a) [ none ↦ none | some n ↦ some (controlling, n) ]
  ]
]

-- Two byte strings, byte by byte.
unfoldable pub xor_zip : Bytes → Bytes → Bytes
xor_zip [] ks = []
xor_zip (b ∷ bs) [] = []
xor_zip (b ∷ bs) (k ∷ ks) = bit_xor b k ∷ xor_zip bs ks

unfoldable pub xor_mapped_address : Message → Option SocketAddr
unfolding get xor_zip be16_at be32_at to_be32
xor_mapped_address m = elim (get m attr_xor_mapped_address) [
  | none ↦ none
  | some a ↦
      let port = bit_xor (be16_at a.value 2) (magic_cookie / 2 ^ 16) in
      if ltb (length a.value) 4
      then none
      else if nat_beq (byte_at a.value 1) 1
      then (if ltb (length a.value) 8
          then none
          else some (v4 (bit_xor (be32_at a.value 4) magic_cookie) port))
      else if nat_beq (byte_at a.value 1) 2
      then (if ltb (length a.value) 20
          then none
          else some (
              v6 (xor_zip (slice a.value 4 20) (to_be32 magic_cookie ++ m.transaction_id)) port 0
                0))
      else none
]

unfoldable pub error_code : Message → Option (ℕ × Bytes)
unfolding get
error_code m = elim (get m attr_error_code) [
  | none ↦ none
  | some a ↦
      if ltb (length a.value) 4
      then none
      else if is_utf8 (drop 4 a.value)
      then some (byte_at a.value 2 % 8 * 100 + byte_at a.value 3, drop 4 a.value)
      else none
]

unfoldable pub unknown_attributes : Message → List ℕ
unfolding get be16_at as_chunks
unknown_attributes m = elim (get m attr_unknown_attributes) [
  | none ↦ []
  | some a ↦ map (λ (c : Bytes). be16_at c 0) (as_chunks 2 a.value)
]

module _ (digests : Digests) where
  -- The tag covers the message up to the attribute, with a length field that reaches to its end.
  unfoldable pub verify_message_integrity : Message → Bytes → Bool
  unfolding get to_be16
  verify_message_integrity m key = elim (get m attr_message_integrity) [
    | none ↦ false
    | some a ↦
        let adjusted = (a.offset + 24 - header_len) % 2 ^ 16 in
        let covered = take 2 m.raw ++ (to_be16 adjusted ++ slice m.raw 4 a.offset) in
        nat_beq (length a.value) 20 && (digests.hmac_sha1 key covered == a.value)
  ]

  unfoldable pub fingerprint_valid : Message → Bool
  unfolding get be32_at
  fingerprint_valid m = elim (get m attr_fingerprint) [
    | none ↦ true
    | some a ↦
        nat_beq (length a.value) 4
        && nat_beq (a.offset + 8) (length m.raw)
        && nat_beq (bit_xor (digests.crc32 (take a.offset m.raw)) fingerprint_xor)
            (be32_at a.value 0)
  ]
