-- ===== src/Srtp/Window/Replay.antt =====
-- The window against the set of indices recorded in it.
use Prim.Native.Nat.{bit_or, max}
use wroom.Common.{
  ℕ, zero, suc, ◌+◌, ◌-◌, ◌*◌, ◌%◌, ◌^◌, ◌≤◌, ◌<◌, List, [], ◌∷◌, Option, none, some, true, false,
  ◌||◌, ◌≡◌, refl, ◌↔◌, inl, inr, ltb, leb, nat_beq, if◌then◌else◌, arith, nat_eq, ap, Bool-cases,
}
use wroom.Common.Bits.{bit, bit-bit_or, bit-two_pow, bit-shl, bit-mod_pow, bit_zero}
use wroom.Common.Sets.{contains}
use wroom.Srtp.Window.{IndexWindow, check, record_index}

-- What a window with a highest index knows of the indices recorded so far.
pub record Marks (h bits : ℕ) (seen : List ℕ) : Type 0 where
  pub has_top : contains h seen ≡ true
  pub top : (i : ℕ) → contains i seen ≡ true → i ≤ h
  pub marks : (d : ℕ) → d < 64 → d ≤ h → bit bits d ≡ (if contains (h - d) seen then 1 else 0)

-- A window stands for the indices recorded so far, newest first.
abbrev pub Tracks : IndexWindow → List ℕ → Type 0
Tracks w seen = elim w.highest [ none ↦ seen ≡ [] | some h ↦ Marks h w.bits seen ]

contains_cons : (a i : ℕ) (seen : List ℕ) → contains i (a ∷ seen) ≡ (nat_beq a i || contains i seen)
unfolding contains
contains_cons a i seen = refl

contains_nil : (i : ℕ) → contains i [] ≡ false
unfolding contains
contains_nil i = refl

bit_one : (d : ℕ) → bit 1 d ≡ (if nat_beq d 0 then 1 else 0)
unfolding bit
bit_one zero = refl
bit_one (suc d) = ground (arith, bit_zero d)

-- The bits after the window has moved up to a new index.
shifted_bits :
    (h bits s d : ℕ)
    → s < 64
    → d < 64
    → bit (bit_or (bits * 2 ^ s % 2 ^ 64) 1) d
      ≡ max (if ltb d s then 0 else bit bits (d - s)) (if nat_beq d 0 then 1 else 0)
shifted_bits h bits s d hs hd = ground (
  arith,
  bit-bit_or (bits * 2 ^ s % 2 ^ 64) 1 d,
  bit-mod_pow 64 (bits * 2 ^ s) d,
  bit-shl s bits d,
  bit_one d,
)

module _ (h bits index : ℕ) (seen : List ℕ) (t : Marks h bits seen) where
  move_up :
      h < index
      → index - h < 64
      → Marks index (bit_or (bits * 2 ^ (index - h) % 2 ^ 64) 1) (index ∷ seen)
  move_up up near = record {
    has_top = ground (arith, contains_cons index index seen);
    top = λ i c. ground (arith, contains_cons index i seen, t.top i);
    marks = λ d hd le. ground (
      arith,
      shifted_bits h bits (index - h) d near hd,
      contains_cons index (index - d) seen,
      t.marks (d - (index - h)),
      t.top (index - d),
      eq_sub d,
    );
  }
    where
      eq_sub :
          (d : ℕ)
          → index - h ≤ d
          → d ≤ index
          → contains (h - (d - (index - h))) seen ≡ contains (index - d) seen
      eq_sub d le le' = ap (λ (x : ℕ). contains x seen) (omega arith)

  jump : h + 64 ≤ index → Marks index 1 (index ∷ seen)
  jump far = record {
    has_top = ground (arith, contains_cons index index seen);
    top = λ i c. ground (arith, contains_cons index i seen, t.top i);
    marks = λ d hd le.
        ground (arith, bit_one d, contains_cons index (index - d) seen, t.top (index - d));
  }

  mark_inside : index ≤ h → h - index < 64 → Marks h (bit_or bits (2 ^ (h - index))) (index ∷ seen)
  mark_inside low near = record {
    has_top = ground (arith, contains_cons index h seen, t.has_top);
    top = λ i c. ground (arith, contains_cons index i seen, t.top i);
    marks = λ d hd le. ground (
      arith,
      bit-bit_or bits (2 ^ (h - index)) d,
      bit-two_pow (h - index) d,
      contains_cons index (h - d) seen,
      t.marks d hd le,
    );
  }

  too_old : 64 ≤ h - index → Marks h bits (index ∷ seen)
  too_old far = record {
    has_top = ground (arith, contains_cons index h seen, t.has_top);
    top = λ i c. ground (arith, contains_cons index i seen, t.top i);
    marks = λ d hd le. ground (arith, contains_cons index (h - d) seen, t.marks d hd le);
  }

first_mark : (index : ℕ) → Marks index 1 (index ∷ [])
first_mark index = record {
  has_top = ground (arith, contains_cons index index []);
  top = λ i c. ground (arith, contains_cons index i [], contains_nil i);
  marks = λ d hd le.
      ground (arith, bit_one d, contains_cons index (index - d) [], contains_nil (index - d));
}

abbrev window : Option ℕ → ℕ → IndexWindow
window o bits = record { highest = o; bits = bits }

record_at :
    (o : Option ℕ) (bits index : ℕ) (seen : List ℕ)
    → Tracks (window o bits) seen
    → Tracks (record_index (window o bits) index) (index ∷ seen)
unfolding record_index
record_at none bits index seen t = rw t (first_mark index)
record_at (some h) bits index seen t = elim (Bool-cases (ltb h index)) [
  | inl up ↦ elim (Bool-cases (leb 64 (index - h))) [
    | inl far ↦ rw up (rw far (jump h bits index seen t (ground arith)))
    | inr near ↦ rw up (rw near (move_up h bits index seen t (ground arith) (ground arith)))
  ]
  | inr down ↦ elim (Bool-cases (ltb (h - index) 64)) [
    | inl near ↦ rw down (rw near (mark_inside h bits index seen t (ground arith) (ground arith)))
    | inr far ↦ rw down (rw far (too_old h bits index seen t (ground arith)))
  ]
]

-- Recording an index keeps the window true to the indices recorded.
pub record_index-Tracks :
    (w : IndexWindow) (index : ℕ) (seen : List ℕ)
    → Tracks w seen
    → Tracks (record_index w index) (index ∷ seen)
record_index-Tracks w index seen t = record_at w.highest w.bits index seen t

-- The index lies ahead of the window or inside it.
abbrev pub IsRecent : Option ℕ → ℕ → Type 0
IsRecent none index = Unit
IsRecent (some h) index = h < index + 64

check_at :
    (o : Option ℕ) (bits index : ℕ) (seen : List ℕ)
    → Tracks (window o bits) seen
    → (check (window o bits) index ≡ true) ↔ ((contains index seen ≡ false) × IsRecent o index)
unfolding check
check_at none bits index seen t = rw t (ground (arith, contains_nil index))
check_at (some h) bits index seen t = ground (arith, t.top index, t.marks (h - index), sub_twice)
  where
    sub_twice : index ≤ h → contains (h - (h - index)) seen ≡ contains index seen
    sub_twice le = ap (λ (x : ℕ). contains x seen) (omega arith)

-- The window accepts exactly the indices that are recent and were not recorded before.
pub check_iff :
    (w : IndexWindow) (index : ℕ) (seen : List ℕ)
    → Tracks w seen
    → (check w index ≡ true) ↔ ((contains index seen ≡ false) × IsRecent w.highest index)
check_iff w index seen t = check_at w.highest w.bits index seen t
