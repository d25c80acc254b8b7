-- ===== src/Rtcp/Feedback/Lost.antt =====
-- The sequence numbers that a NACK entry stands for.
use wroom.Common.{
  ℕ, zero, suc, ◌+◌, ◌-◌, ◌%◌, ◌^◌, ◌≤◌, ◌<◌, ◌≡◌, ◌≢◌, ◌↔◌, ◌⊎◌, inl, inr, refl, arith, List, [],
  ◌∷◌, true, false, nat_beq, nat_beq_iff, Bool-cases, subst,
}
use wroom.Common.Bits.{bit}
use wroom.Rtcp.Feedback.{NackEntry, lost, lost_from}

abbrev pub Among : ℕ → List ℕ → Type 0
Among x [] = true ≡ false
Among x (y ∷ ys) = (x ≡ y) ⊎ Among x ys

-- The bitmask marks a number: it is an offset from a range after the packet id, and has its bit set.
abbrev pub Marked : NackEntry → ℕ → ℕ → ℕ → Type 0
Marked e i n x =
    (d : ℕ) × (i ≤ d) × (d < i + n) × (bit e.blp (d - 1) ≢ 0) × (x ≡ (e.pid + d) % 2 ^ 16)

Marked-later : (e : NackEntry) (i n x : ℕ) → Marked e (i + 1) n x → Marked e i (suc n) x
Marked-later e i n x (d, lo, hi, set, same) = (d, omega (arith, lo), omega (arith, hi), set, same)

lost_from-clear :
    (e : NackEntry) (i n : ℕ)
    → 1 ≤ i
    → bit e.blp (i - 1) ≡ 0
    → lost_from e i (suc n) ≡ lost_from e (i + 1) n
unfolding lost_from
lost_from-clear e i n pos clear = ground (arith, pos, clear)

lost_from-set :
    (e : NackEntry) (i n : ℕ)
    → 1 ≤ i
    → bit e.blp (i - 1) ≢ 0
    → lost_from e i (suc n) ≡ ((e.pid + i) % 2 ^ 16) ∷ lost_from e (i + 1) n
unfolding lost_from
lost_from-set e i n pos set = ground (arith, pos, set)

Marked-Among : (e : NackEntry) (i n x : ℕ) → 1 ≤ i → Marked e i n x → Among x (lost_from e i n)
Marked-Among e i zero x pos (d, lo, hi, set, same) = absurd (omega (arith, lo, hi))
Marked-Among e i (suc n) x pos (d, lo, hi, set, same) = elim (Bool-cases (nat_beq d i)) [
  | inl here ↦
      let at : d ≡ i = (nat_beq_iff d i).0 here in
      let set' : bit e.blp (i - 1) ≢ 0 = subst (λ (t : ℕ). bit e.blp (t - 1) ≢ 0) at set in
      let same' : x ≡ (e.pid + i) % 2 ^ 16 = subst (λ (t : ℕ). x ≡ (e.pid + t) % 2 ^ 16) at same in
      rw (lost_from-set e i n pos set') (inl same')
  | inr there ↦
      let later =
        Marked-Among e (i + 1) n x (omega arith)
          (d, ground (arith, lo, there), omega (arith, hi), set, same) in
      elim (Bool-cases (nat_beq (bit e.blp (i - 1)) 0)) [
        | inl clear ↦
            rw (lost_from-clear e i n pos ((nat_beq_iff (bit e.blp (i - 1)) 0).0 clear)) later
        | inr kept ↦
            rw (lost_from-set e i n pos (λ z. absurd (ground (arith, z, kept)))) (inr later)
      ]
]

Among-Marked : (e : NackEntry) (i n x : ℕ) → 1 ≤ i → Among x (lost_from e i n) → Marked e i n x
unfolding lost_from
Among-Marked e i zero x pos among = absurd (ground (arith, among))
Among-Marked e i (suc n) x pos among = elim (Bool-cases (nat_beq (bit e.blp (i - 1)) 0)) [
  | inl clear ↦
      let same = lost_from-clear e i n pos ((nat_beq_iff (bit e.blp (i - 1)) 0).0 clear) in
      Marked-later e i n x (Among-Marked e (i + 1) n x (omega arith) (subst (Among x) same among))
  | inr kept ↦
      let set : bit e.blp (i - 1) ≢ 0 = λ z. absurd (ground (arith, z, kept)) in
      elim (subst (Among x) (lost_from-set e i n pos set) among) [
        | inl here ↦ (i, omega arith, omega arith, set, here)
        | inr later ↦ Marked-later e i n x (Among-Marked e (i + 1) n x (omega arith) later)
      ]
]

lost_from-first : (e : NackEntry) (n : ℕ) → lost_from e 0 (suc n) ≡ e.pid ∷ lost_from e 1 n
unfolding lost_from
lost_from-first e n = refl

lost-first : (e : NackEntry) → lost e ≡ e.pid ∷ lost_from e 1 16
unfolding lost
lost-first e = lost_from-first e 16

-- An entry stands for its packet id and, for each of the 16 bits of its mask that is set, for the number
-- that many and one more after it, modulo 2^16; and for nothing else.
lost_iff : (e : NackEntry) (x : ℕ) → Among x (lost e) ↔ ((x ≡ e.pid) ⊎ Marked e 1 16 x)
lost_iff e x = rw (lost-first e) (
  λ among. elim among [
    | inl here ↦ inl here
    | inr later ↦ inr (Among-Marked e 1 16 x (omega arith) later)
  ],
  λ found. elim found [
    | inl here ↦ inl here
    | inr marked ↦ inr (Marked-Among e 1 16 x (omega arith) marked)
  ],
)
