-- ===== src/Rtp/Rewriting/Overlap.antt =====
-- Where the two synthesized elements are written.
use wroom.Common.{
  ℕ, zero, suc, ◌+◌, ◌%◌, ◌≤◌, ◌<◌, [], ◌∷◌, ◌++◌, some, true, ◌≡◌, refl, arith, length,
  length-append, length-drop, length-take, get_or, get_or-append_left, take, drop, ◌∙◌, subst,
}
use wroom.Common.Bytes.{Bytes, byte_at, splice, to_be16}
use wroom.Rtp.Rewriting.{write_twcc, write_mid}

get_or-append_end : (xs ys : Bytes) (x : ℕ) → get_or (xs ++ x ∷ ys) (length xs) 0 ≡ x
get_or-append_end [] ys x = refl
get_or-append_end (y ∷ xs) ys x = get_or-append_end xs ys x

get_or-take : (n i : ℕ) (xs : Bytes) → i < n → get_or (take n xs) i 0 ≡ get_or xs i 0
get_or-take zero i xs h = absurd (omega arith)
get_or-take (suc n) i [] h = refl
get_or-take (suc n) zero (x ∷ xs) h = refl
get_or-take (suc n) (suc i) (x ∷ xs) h = get_or-take n i xs (omega arith)

module _ (buf : Bytes) (at : ℕ) (part : Bytes) where
  length-splice : at + length part ≤ length buf → length (splice buf at part) ≡ length buf
  length-splice h = omega (
    arith,
    length-append (take at buf) (part ++ drop (at + length part) buf),
    length-append part (drop (at + length part) buf),
    length-take at buf,
    length-drop (at + length part) buf,
  )

  byte_at-splice_below :
      (i : ℕ) → i < at → at ≤ length buf → byte_at (splice buf at part) i ≡ byte_at buf i
  byte_at-splice_below i below fits =
      get_or-append_left (take at buf) (part ++ drop (at + length part) buf) i 0
        (omega (arith, length-take at buf))
      ∙ get_or-take at i buf below

byte_at-splice_first :
    (buf : Bytes) (at x : ℕ) (part : Bytes)
    → at ≤ length buf
    → byte_at (splice buf at (x ∷ part)) at ≡ x
byte_at-splice_first buf at x part fits =
    let len : length (take at buf) ≡ at = omega (arith, length-take at buf) in
    subst (λ k. get_or (take at buf ++ x ∷ (part ++ drop (at + length (x ∷ part)) buf)) k 0 ≡ x) len
      (get_or-append_end (take at buf) (part ++ drop (at + length (x ∷ part)) buf) x)

-- When both elements are synthesized in the two-byte form, the id of the MID element lands on the first
-- byte of the transport-wide sequence number.
pub synthesized_overlap :
    (out : Bytes) (w id seq mid_id : ℕ) (m : Bytes)
    → w + 4 ≤ length out
    → byte_at
        (write_mid true (write_twcc true (out, w) (some (id, to_be16 seq))) (some (mid_id, m)))
        (w + 2)
      ≡ mid_id
unfolding write_mid write_twcc to_be16
synthesized_overlap out w id seq mid_id m room =
    let headed = splice out w (id ∷ 2 ∷ []) in
    let with_seq = splice headed (w + 2) (to_be16 seq) in
    let with_head = splice with_seq (w + 2) (mid_id ∷ length m % 256 ∷ []) in
    let l1 : length headed ≡ length out = length-splice out w (id ∷ 2 ∷ []) (omega arith) in
    let l2 : length with_seq ≡ length headed =
      length-splice headed (w + 2) (to_be16 seq) (omega (arith, l1)) in
    let l3 : length with_head ≡ length with_seq =
      length-splice with_seq (w + 2) (mid_id ∷ length m % 256 ∷ []) (omega (arith, l1, l2)) in
    byte_at-splice_below with_head (w + 2 + 2) m (w + 2) (omega arith) (omega (arith, l1, l2, l3))
    ∙ byte_at-splice_first with_seq (w + 2) mid_id (length m % 256 ∷ []) (omega (arith, l1, l2))
