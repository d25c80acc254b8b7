-- ===== src/Ice/Building.antt =====
-- `MessageBuilder` of crates/wroom-edge/src/ice.rs, and the two responses of the agent.
use Prim.Native.Nat.{bit_xor}
use wroom.Common.{
  ℕ, ◌+◌, ◌-◌, ◌/◌, ◌%◌, ◌^◌, List, [], ◌∷◌, ◌++◌, Option, none, some, Bool, true, false, ltb,
  if◌then◌else◌, length, take, replicate,
}
use wroom.Common.Bytes.{Bytes, to_be16, to_be32, slice, splice}
use wroom.Common.Results.{Result, ok, err, ◌>>=◌}
use wroom.Ice.Addresses.{SocketAddr, v4, v6}
use wroom.Ice.Stun.{
  Digests, StunError, buffer_too_small, attribute_too_large, message_too_large, attribute_order,
  header_len, magic_cookie, fingerprint_xor, binding_success, binding_error, attr_message_integrity,
  attr_error_code, attr_unknown_attributes, attr_xor_mapped_address, attr_software,
  attr_fingerprint, pad4, xor_zip,
}

abbrev pub max_unknown_attrs : ℕ
max_unknown_attrs = 16

abbrev pub software_name : Bytes
software_name = b'w' ∷ b'r' ∷ b'o' ∷ b'o' ∷ b'm' ∷ b'-' ∷ b'w' ∷ b'r' ∷ b'o' ∷ b'o' ∷ b'm' ∷ []

pub record MessageBuilder : Type 0 where
  pub buf : Bytes
  pub pos : ℕ
  pub tid : Bytes
  pub sealed : Bool
  pub fingerprint_written : Bool

unfoldable pub builder_new : Bytes → ℕ → Bytes → Result StunError MessageBuilder
unfolding to_be16 to_be32
builder_new buf msg_type tid =
    let typed = splice (splice buf 0 (to_be16 msg_type)) 2 (0 ∷ 0 ∷ []) in
    if ltb (length buf) header_len
    then err buffer_too_small
    else ok (record {
      buf = splice (splice typed 4 (to_be32 magic_cookie)) 8 tid;
      pos = header_len;
      tid = tid;
      sealed = false;
      fingerprint_written = false;
    })

unfoldable pub attr : ℕ → Bytes → MessageBuilder → Result StunError MessageBuilder
unfolding to_be16
attr ty value b =
    let need = 4 + pad4 (length value) in
    let head = splice (splice b.buf b.pos (to_be16 ty)) (b.pos + 2) (to_be16 (length value)) in
    let body = splice head (b.pos + 4) value in
    if b.sealed
    then err attribute_order
    else if ltb 0xffff (length value)
    then err attribute_too_large
    else if ltb (length b.buf) (b.pos + need)
    then err buffer_too_small
    else ok (record b {
      buf = splice body (b.pos + 4 + length value) (replicate (need - (4 + length value)) 0);
      pos = b.pos + need;
    })

-- The value of an XOR-MAPPED-ADDRESS attribute.
unfoldable pub xor_address : Bytes → SocketAddr → Bytes
unfolding to_be16 to_be32 xor_zip
xor_address tid (v4 ip port) =
    0 ∷ 1 ∷ (to_be16 (bit_xor port (magic_cookie / 2 ^ 16)) ++ to_be32 (bit_xor ip magic_cookie))
xor_address tid (v6 ip port flow scope) =
    0
    ∷ 2
    ∷ (to_be16 (bit_xor port (magic_cookie / 2 ^ 16)) ++ xor_zip ip (to_be32 magic_cookie ++ tid))

-- The value of an ERROR-CODE attribute; a class above 255 is taken for 6.
unfoldable pub error_value : ℕ → Bytes → Bytes
error_value code reason =
    0 ∷ 0 ∷ (if ltb (code / 100) 256 then code / 100 % 8 else 6) ∷ (code % 100) ∷ take 763 reason

unfoldable pub types_value : List ℕ → Bytes
unfolding to_be16
types_value [] = []
types_value (ty ∷ types) = to_be16 ty ++ types_value types

module _ (digests : Digests) where
  unfoldable pub message_integrity : Bytes → MessageBuilder → Result StunError MessageBuilder
  unfolding to_be16
  message_integrity key b =
      let adjusted = (b.pos + 24 - header_len) % 2 ^ 16 in
      let head =
        splice (splice b.buf b.pos (to_be16 attr_message_integrity)) (b.pos + 2) (to_be16 20) in
      let patched = splice head 2 (to_be16 adjusted) in
      let covered = take 2 patched ++ (to_be16 adjusted ++ slice patched 4 b.pos) in
      if b.sealed
      then err attribute_order
      else if ltb (length b.buf) (b.pos + 24)
      then err buffer_too_small
      else ok (record b {
        buf = splice patched (b.pos + 4) (digests.hmac_sha1 key covered);
        pos = b.pos + 24;
        sealed = true;
      })

  unfoldable pub fingerprint : MessageBuilder → Result StunError MessageBuilder
  unfolding to_be16 to_be32
  fingerprint b =
      let total = (b.pos + 8 - header_len) % 2 ^ 16 in
      let head = splice (splice b.buf b.pos (to_be16 attr_fingerprint)) (b.pos + 2) (to_be16 4) in
      let patched = splice head 2 (to_be16 total) in
      let crc = bit_xor (digests.crc32 (take b.pos patched)) fingerprint_xor in
      if b.fingerprint_written
      then err attribute_order
      else if ltb (length b.buf) (b.pos + 8)
      then err buffer_too_small
      else ok (record b {
        buf = splice patched (b.pos + 4) (to_be32 crc);
        pos = b.pos + 8;
        sealed = true;
        fingerprint_written = true;
      })

  -- The length of the message and the buffer.
  unfoldable pub finish : MessageBuilder → Result StunError (ℕ × Bytes)
  unfolding to_be16
  finish b =
      let len = b.pos - header_len in
      if ltb 0xffff len then err message_too_large else ok (b.pos, splice b.buf 2 (to_be16 len))

  unfoldable pub build_success : Bytes → Bytes → Bytes → SocketAddr → Result StunError (ℕ × Bytes)
  unfolding builder_new attr xor_address message_integrity fingerprint finish
  build_success pwd out tid remote =
      builder_new out binding_success tid
      >>= attr attr_xor_mapped_address (xor_address tid remote)
      >>= attr attr_software software_name
      >>= message_integrity pwd
      >>= fingerprint
      >>= finish

  -- The attributes of an error response before its seal.
  unfoldable pub error_attributes :
      ℕ → Bytes → Option (List ℕ) → MessageBuilder → Result StunError MessageBuilder
  unfolding attr error_value types_value
  error_attributes code reason none b =
      attr attr_error_code (error_value code reason) b >>= attr attr_software software_name
  error_attributes code reason (some types) b =
      attr attr_error_code (error_value code reason) b
      >>= attr attr_unknown_attributes (types_value (take max_unknown_attrs types))
      >>= attr attr_software software_name

  unfoldable pub build_error :
      Bytes → Bytes → Bytes → ℕ → Bytes → Option (List ℕ) → Bool → Result StunError (ℕ × Bytes)
  unfolding builder_new error_attributes message_integrity fingerprint finish
  build_error pwd out tid code reason unknown sign =
      let plain = builder_new out binding_error tid >>= error_attributes code reason unknown in
      let sealed = if sign then plain >>= message_integrity pwd else plain in
      sealed >>= fingerprint >>= finish
