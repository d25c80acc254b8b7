-- ===== src/Common/Chunks.antt =====
-- The chunks of a concatenation, and the numbers that big-endian bytes stand for.
use Prim.Native.Nat.{ℕ, zero, suc, ◌+◌, ◌^◌, ◌≤◌, ◌<◌}
use mathlib.Core.Path.{◌≡◌, refl, sym, subst, ◌∙◌}
use mathlib.Core.List.{List, [], ◌∷◌, ◌++◌}
use native.Mathlib.Omega.{arith}
use wroom.Common.Lists.{length, take, drop, All, length-append}
use wroom.Common.Bytes.{
  Bytes, as_chunks, chunks_within, be16_at, be32_at, to_be16, to_be32, take-append, drop-append,
  append_nil, append_assoc, splice, splice-Holds, Holds,
}

abbrev pub flat : List Bytes → Bytes
flat [] = []
flat (c ∷ cs) = c ++ flat cs

-- Parts written one after the other from a position on.
abbrev pub write_parts : Bytes → ℕ → List Bytes → Bytes
write_parts out at [] = out
write_parts out at (part ∷ parts) = write_parts (splice out at part) (at + length part) parts

pub write_parts-Holds :
    (written out : Bytes) (at : ℕ) (parts : List Bytes)
    → at ≡ length written
    → Holds written out
    → at + length (flat parts) ≤ length out
    → Holds (written ++ flat parts) (write_parts out at parts)
      × (length (write_parts out at parts) ≡ length out)
write_parts-Holds written out at [] here holds room =
    (subst (λ (t : Bytes). Holds t out) (sym (append_nil written)) holds, refl)
write_parts-Holds written out at (part ∷ parts) here holds room =
    let whole = length-append part (flat parts) in
    let first = splice-Holds written out at part here holds (omega (arith, room, whole)) in
    let out' = splice out at part in
    let rest =
      write_parts-Holds (written ++ part) out' (at + length part) parts
        (omega (arith, here, length-append written part)) first.0
        (omega (arith, room, whole, first.1)) in
    (
      subst (λ (t : Bytes). Holds t (write_parts out' (at + length part) parts))
          (append_assoc written part (flat parts)) rest.0,
      rest.1 ∙ first.1,
    )

abbrev pub HasLength : ℕ → Bytes → Type 0
HasLength n c = length c ≡ n

chunks-flat :
    (fuel n : ℕ) (cs : List Bytes)
    → 0 < n
    → All (HasLength n) cs
    → length (flat cs) ≤ fuel
    → chunks_within fuel n (flat cs) ≡ cs
unfolding chunks_within
chunks-flat zero n [] some sizes enough = refl
chunks-flat (suc fuel) n [] some sizes enough = ground (arith, some)
chunks-flat zero n (c ∷ cs) some sizes enough =
    absurd (omega (arith, enough, some, sizes.0, length-append c (flat cs)))
chunks-flat (suc fuel) n (c ∷ cs) some sizes enough =
    let whole = length-append c (flat cs) in
    let rest = chunks-flat fuel n cs some sizes.1 (omega (arith, whole, enough, some, sizes.0)) in
    let front : take n (c ++ flat cs) ≡ c = rw (sym sizes.0) (take-append c (flat cs)) in
    let back : drop n (c ++ flat cs) ≡ flat cs = rw (sym sizes.0) (drop-append c (flat cs)) in
    rw (front, back, rest) (ground (arith, whole, sizes.0))

-- Cutting a concatenation of chunks gives the chunks.
pub as_chunks-flat :
    (n : ℕ) (cs : List Bytes) → 0 < n → All (HasLength n) cs → as_chunks n (flat cs) ≡ cs
unfolding as_chunks
as_chunks-flat n cs some sizes = chunks-flat (length (flat cs)) n cs some sizes (omega arith)

pub be16-to_be16 : (n : ℕ) (rest : Bytes) → n < 2 ^ 16 → be16_at (to_be16 n ++ rest) 0 ≡ n
unfolding be16_at to_be16
be16-to_be16 n rest h = omega (arith, h)

pub be32-to_be32 : (n : ℕ) (rest : Bytes) → n < 2 ^ 32 → be32_at (to_be32 n ++ rest) 0 ≡ n
unfolding be32_at be16_at to_be32
be32-to_be32 n rest h = omega (arith, h)

pub be32-second : (a : ℕ) (rest : Bytes) → be32_at (to_be32 a ++ rest) 4 ≡ be32_at rest 0
unfolding be32_at be16_at to_be32
be32-second a rest = refl
