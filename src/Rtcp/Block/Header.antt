-- ===== src/Rtcp/Block/Header.antt =====
-- A header that was written parses again.
use Prim.Native.Nat.{bit_or}
use wroom.Common.{
  ℕ, zero, suc, ◌+◌, ◌-◌, ◌*◌, ◌/◌, ◌%◌, ◌^◌, ◌≤◌, ◌<◌, ◌≡◌, refl, arith, [], ◌∷◌, ◌++◌, length,
  take, length-append, subst,
}
use wroom.Common.Bits.{bit_or_step}
use native.Mathlib.Nat.{pow-suc}
use wroom.Common.Bytes.{
  Bytes, Holds, be16_at, to_be16, splice, splice-Holds, take-append, append_nil,
}
use wroom.Common.Results.{ok}
use wroom.Rtcp.Block.{write_header, parse, Block, unpad}

-- A flag above the bits of a number is added to it.
flag-bit_or : (k n : ℕ) → n < 2 ^ k → bit_or (2 ^ k) n ≡ 2 ^ k + n
flag-bit_or zero zero h = refl
flag-bit_or zero (suc n) h = absurd (omega arith)
flag-bit_or (suc k) n h =
    let half : 2 ^ suc k / 2 ≡ 2 ^ k = omega (arith, pow-suc 2 k) in
    let top : bit_or (2 ^ suc k / 2) (n / 2) ≡ 2 ^ k + n / 2 =
      rw half (flag-bit_or k (n / 2) (omega (arith, pow-suc 2 k, h))) in
    omega (arith, bit_or_step (2 ^ suc k) n, top, pow-suc 2 k)

-- The four bytes of a header.
abbrev pub header_bytes : ℕ → ℕ → ℕ → Bytes
header_bytes count packet_type words =
    (0x80 + count) ∷ packet_type ∷ (words / 256 % 256) ∷ (words % 256) ∷ []

pub write_header-Holds :
    (out : Bytes) (count packet_type words : ℕ)
    → count < 32
    → words ≤ 0xffff
    → (words + 1) * 4 ≤ length out
    → (out' : Bytes) × (write_header out count packet_type ((words + 1) * 4) ≡ (ok tt, out'))
      × Holds (header_bytes count packet_type words) out'
      × (length out' ≡ length out)
unfolding write_header to_be16
write_header-Holds out count packet_type words few small room =
    let n : (words + 1) * 4 / 4 - 1 ≡ words = omega arith in
    let c : bit_or 0x80 count ≡ 0x80 + count = flag-bit_or 7 count (omega (arith, few)) in
    let a =
      splice-Holds [] out 0 ((0x80 + count) ∷ []) refl (refl, omega arith) (omega (arith, room)) in
    let out1 = splice out 0 ((0x80 + count) ∷ []) in
    let b =
      splice-Holds ((0x80 + count) ∷ []) out1 1 (packet_type ∷ []) refl a.0
        (omega (arith, room, a.1)) in
    let out2 = splice out1 1 (packet_type ∷ []) in
    let d =
      splice-Holds ((0x80 + count) ∷ packet_type ∷ []) out2 2 (to_be16 words) refl b.0
        (omega (arith, room, a.1, b.1)) in
    rw (n, c)
      (splice out2 2 (to_be16 words), ground (arith, small), d.0, omega (arith, a.1, b.1, d.1))

-- What a block with this header and this body parses to.
abbrev pub plain_block : ℕ → ℕ → Bytes → Block
plain_block count packet_type body = record {
  count = count;
  packet_type = packet_type;
  block_len = length body + 4;
  payload = body;
  raw = header_bytes count packet_type (length body / 4) ++ body;
}

pub parse-header_bytes :
    (count packet_type : ℕ) (body rest : Bytes)
    → count < 32
    → length body % 4 ≡ 0
    → length body / 4 ≤ 0xffff
    → parse (header_bytes count packet_type (length body / 4) ++ (body ++ rest))
      ≡ ok (plain_block count packet_type body)
unfolding parse be16_at unpad
parse-header_bytes count packet_type body rest few aligned small =
    let words = length body / 4 in
    let block_len : (words / 256 % 256 * 256 + words % 256 + 1) * 4
        ≡ suc (suc (suc (suc (length body)))) =
      omega (arith, small, aligned) in
    let version : (0x80 + count) / 64 ≡ 2 = omega (arith, few) in
    let padding : (0x80 + count) / 32 % 2 ≡ 0 = omega (arith, few) in
    let low : (0x80 + count) % 32 ≡ count = omega (arith, few) in
    let whole : suc (suc (suc (suc (length (body ++ rest))))) ≡ length body + length rest + 4 =
      omega (arith, length-append body rest) in
    let body_at : take (length body) (body ++ rest) ≡ body = take-append body rest in
    rw (block_len, version, padding, low, whole, body_at) (ground arith)

-- What was written parses, cut to its length.
pub parse-Holds :
    (count packet_type total : ℕ) (body out : Bytes)
    → count < 32
    → total ≡ length body + 4
    → length body % 4 ≡ 0
    → length body / 4 ≤ 0xffff
    → Holds (header_bytes count packet_type (length body / 4) ++ body) out
    → parse (take total out) ≡ ok (plain_block count packet_type body)
parse-Holds count packet_type total body out few size aligned small holds =
    let len : total ≡ suc (suc (suc (suc (length body)))) = omega (arith, size) in
    let head = header_bytes count packet_type (length body / 4) in
    let whole : take total out ≡ head ++ body = rw len holds.0 in
    rw whole (
      subst (λ (t : Bytes). parse (head ++ t) ≡ ok (plain_block count packet_type body))
        (append_nil body) (parse-header_bytes count packet_type body [] few aligned small))
