-- ===== src/Srtp/Window.antt =====
-- `IndexWindow` of crates/wroom-edge/src/srtp.rs: the estimate of a packet's 48-bit index and the
-- 64-index window behind replay protection and IV-reuse prevention. `u64` and `u32` wrap as written.
pub mod Estimate
pub mod Replay
use Prim.Native.Nat.{bit_or}
use wroom.Common.{
  ℕ, ◌+◌, ◌-◌, ◌*◌, ◌/◌, ◌%◌, ◌^◌, Option, none, some, Bool, true, ◌&&◌, ltb, leb, nat_beq,
  if◌then◌else◌,
}
use wroom.Common.Bits.{bit}

abbrev pub replay_window : ℕ
replay_window = 64

pub record IndexWindow : Type 0 where
  pub highest : Option ℕ
  pub bits : ℕ

-- `IndexWindow::default()`.
abbrev pub empty : IndexWindow
empty = record { highest = none; bits = 0 }

-- `roc = (h >> 16) as u32` and `s_l = h & 0xffff`.
abbrev pub roc_of : ℕ → ℕ
roc_of h = h / 2 ^ 16 % 2 ^ 32

abbrev pub seq_of : ℕ → ℕ
seq_of h = h % 2 ^ 16

-- `((v as u64) << 16) | seq`: the two fields share no bit, so `|` is `+`.
abbrev pub index_of : ℕ → ℕ → ℕ
index_of v seq = v * 2 ^ 16 + seq

-- The choice of `v` in `guess`. The comparisons of `i32` values are written without subtraction.
unfoldable pub guess_roc : ℕ → ℕ → ℕ
guess_roc h seq =
    if ltb (seq_of h) 0x8000
    then (if ltb (seq_of h + 0x8000) seq then (roc_of h + 2 ^ 32 - 1) % 2 ^ 32 else roc_of h)
    else if ltb (seq + 0x8000) (seq_of h)
    then (roc_of h + 1) % 2 ^ 32
    else roc_of h

unfoldable pub guess : IndexWindow → ℕ → ℕ
unfolding guess_roc
guess w seq = elim w.highest [ none ↦ seq | some h ↦ index_of (guess_roc h seq) seq ]

-- The index that the sender uses; `none` is `IndexExhausted`.
unfoldable pub send_index : IndexWindow → ℕ → Option ℕ
send_index w seq = elim w.highest [
  | none ↦ some seq
  | some h ↦
      if ltb seq (seq_of h) && ltb 0x8000 (seq_of h - seq)
      then (if leb (2 ^ 32) (roc_of h + 1) then none else some (index_of (roc_of h + 1) seq))
      else some (index_of (roc_of h) seq)
]

-- `self.bits & (1 << d) == 0` reads bit `d`.
unfoldable pub check : IndexWindow → ℕ → Bool
check w index = elim w.highest [
  | none ↦ true
  | some h ↦
      if ltb h index
      then true
      else ltb (h - index) replay_window && nat_beq (bit w.bits (h - index)) 0
]

unfoldable pub record_index : IndexWindow → ℕ → IndexWindow
record_index w index = elim w.highest [
  | none ↦ record { highest = some index; bits = 1 }
  | some h ↦
      if ltb h index
      then record {
        highest = some index;
        bits =
            if leb replay_window (index - h)
            then 1
            else bit_or (w.bits * 2 ^ (index - h) % 2 ^ 64) 1;
      }
      else if ltb (h - index) replay_window
      then record w { bits = bit_or w.bits (2 ^ (h - index)) }
      else w
]
