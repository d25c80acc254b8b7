-- ===== src/Common/Bytes.antt =====
-- Big-endian fields of a byte buffer, and bytes of a number.
use wroom.Common.Tests.{ltb, if◌then◌else◌}
use wroom.Common.Lists.{get_or, length, take, drop, length-append, length-take, length-drop}
use Prim.Native.Nat.{ℕ, zero, suc, ◌+◌, ◌-◌, ◌*◌, ◌/◌, ◌%◌, ◌^◌, ◌≤◌}
use mathlib.Core.Path.{◌≡◌, refl, sym, ap}
use native.Mathlib.Omega.{arith}
use mathlib.Core.List.{List, [], ◌∷◌, ◌++◌}

abbrev pub Bytes : Type 0
Bytes = List ℕ

-- `buf[i]`, after the code has checked that `i` is in range.
abbrev pub byte_at : Bytes → ℕ → ℕ
byte_at buf i = get_or buf i 0

-- `u16::from_be_bytes` and `u32::from_be_bytes` of the bytes from an offset.
unfoldable pub be16_at : Bytes → ℕ → ℕ
be16_at buf i = byte_at buf i * 256 + byte_at buf (i + 1)

unfoldable pub be32_at : Bytes → ℕ → ℕ
unfolding be16_at
be32_at buf i = be16_at buf i * 2 ^ 16 + be16_at buf (i + 2)

-- `to_be_bytes`.
unfoldable pub to_be16 : ℕ → Bytes
to_be16 n = (n / 256 % 256) ∷ (n % 256) ∷ []

unfoldable pub to_be32 : ℕ → Bytes
to_be32 n = (n / 2 ^ 24 % 256) ∷ (n / 2 ^ 16 % 256) ∷ (n / 256 % 256) ∷ (n % 256) ∷ []

unfoldable pub to_be64 : ℕ → Bytes
unfolding to_be32
to_be64 n = to_be32 (n / 2 ^ 32 % 2 ^ 32) ++ to_be32 (n % 2 ^ 32)

-- `&buf[a..b]`.
abbrev pub slice : Bytes → ℕ → ℕ → Bytes
slice buf a b = take (b - a) (drop a buf)

-- `buf[at..at + part.len()].copy_from_slice(part)`.
abbrev pub splice : Bytes → ℕ → Bytes → Bytes
splice buf at part = take at buf ++ (part ++ drop (at + length part) buf)

-- `as_chunks::<N>().0`: the whole chunks of a size. A chunk takes a byte or more, so that the length is
-- fuel enough.
unfoldable pub chunks_within : ℕ → ℕ → Bytes → List Bytes
chunks_within zero n buf = []
chunks_within (suc fuel) n buf =
    let later = chunks_within fuel n (drop n buf) in
    if ltb (length buf) n then [] else take n buf ∷ later

unfoldable pub as_chunks : ℕ → Bytes → List Bytes
unfolding chunks_within
as_chunks n buf = chunks_within (length buf) n buf

-- The first `used` bytes of a buffer are those that have been written to it so far.
abbrev pub Holds : Bytes → Bytes → Type 0
Holds written out = (take (length written) out ≡ written) × (length written ≤ length out)

pub append_assoc : (a b c : Bytes) → (a ++ b) ++ c ≡ a ++ (b ++ c)
append_assoc [] b c = refl
append_assoc (x ∷ a) b c = ap (λ t. x ∷ t) (append_assoc a b c)

pub append_nil : (a : Bytes) → a ++ [] ≡ a
append_nil [] = refl
append_nil (x ∷ a) = ap (λ t. x ∷ t) (append_nil a)

pub take-append : (a b : Bytes) → take (length a) (a ++ b) ≡ a
take-append [] b = refl
take-append (x ∷ a) b = ap (λ t. x ∷ t) (take-append a b)

pub drop-append : (a b : Bytes) → drop (length a) (a ++ b) ≡ b
drop-append [] b = refl
drop-append (x ∷ a) b = drop-append a b

pub length-splice :
    (out : Bytes) (at : ℕ) (part : Bytes)
    → at + length part ≤ length out
    → length (splice out at part) ≡ length out
length-splice out at part room = omega (
  arith,
  length-append (take at out) (part ++ drop (at + length part) out),
  length-append part (drop (at + length part) out),
  length-take at out,
  length-drop (at + length part) out,
)

-- Writing a part where the written bytes end makes it part of them.
pub splice-Holds :
    (written out : Bytes) (at : ℕ) (part : Bytes)
    → at ≡ length written
    → Holds written out
    → at + length part ≤ length out
    → Holds (written ++ part) (splice out at part) × (length (splice out at part) ≡ length out)
splice-Holds written out at part here holds room =
    let kept = length-splice out at part room in
    let both = append_assoc written part (drop (at + length part) out) in
    let all = take-append (written ++ part) (drop (at + length part) out) in
    let len = length-append written part in
    let start : take at out ≡ written = rw here holds.0 in
    let spliced : splice out at part ≡ (written ++ part) ++ drop (at + length part) out =
      rw start (sym both) in
    ((rw spliced all, omega (arith, kept, len, here, room)), kept)
