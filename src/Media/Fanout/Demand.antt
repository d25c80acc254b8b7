-- ===== src/Media/Fanout/Demand.antt =====
-- The demand masks: bit `j` of a publisher's mask tells whether a member of shard `j` wants it.
use wroom.Common.{
  ℕ, ◌^◌, ◌≡◌, arith, Bool, true, false, ◌||◌, ◌&&◌, not, List, [], ◌∷◌, if◌then◌else◌, nat_beq,
  Bool-cases, inl, inr, ◌==◌, nat_eq, list_eq,
}
use wroom.Common.Bits.{bit, bit-bit_or, bit-two_pow, bit-le_one, bit_zero}
use wroom.Common.Bytes.{Bytes}
use wroom.Common.Maps.{Map, lookup, insert, lookup-insert, values}
use wroom.Common.Sets.{contains}
use wroom.Media.Fanout.{RoomShard, Target, demand_of, mark_if, target_of, wants_video, wants_audio}
use wroom.Media.Fanout.Rows.{
  Which, video_rows, audio_rows, any_rows, wanted, marked_demand, passes_over,
}
use wroom.Media.Fanout.Targets.{demand_after, demand_of_targets}

abbrev pub has_bit : ℕ → ℕ → Bool
has_bit mask j = nat_beq (bit mask j) 1

abbrev pub masked : Which → ℕ × ℕ → ℕ → Bool
masked video_rows masks j = has_bit masks.0 j
masked audio_rows masks j = has_bit masks.1 j
masked any_rows masks j = has_bit masks.0 j || has_bit masks.1 j

has_bit-mark_if :
    (b : Bool) (shard mask j : ℕ)
    → has_bit (mark_if b shard mask) j ≡ has_bit mask j || (b && (shard == j))
unfolding mark_if
has_bit-mark_if false shard mask j = ground arith
has_bit-mark_if true shard mask j =
    ground (arith, bit-bit_or mask (2 ^ shard) j, bit-two_pow shard j, bit-le_one mask j)

-- Whether a target asks shard `j` for the publisher.
abbrev pub asks : Which → Target → ℕ → ℕ → Bool
asks k t j p = not (p == t.pid) && (wanted k t p && (t.shard == j))

demand_of-insert :
    (p q : ℕ) (masks : ℕ × ℕ) (d : Map ℕ (ℕ × ℕ))
    → demand_of q (insert p masks d) ≡ (if p == q then masks else demand_of q d)
unfolding demand_of
demand_of-insert p q masks d = ground (arith, lookup-insert p q masks d)

-- The masks after a visit: those of the publisher have the bits that the target asks for.
masked-visited :
    (k : Which) (t : Target) (p j : ℕ) (masks : ℕ × ℕ)
    → passes_over t p ≡ false
    → masked k
        (mark_if (wants_video t p) t.shard masks.0, mark_if (wants_audio t p) t.shard masks.1)
        j
      ≡ masked k masks j || asks k t j p
masked-visited video_rows t p j masks here =
    ground (arith, here, has_bit-mark_if (wants_video t p) t.shard masks.0 j)
masked-visited audio_rows t p j masks here =
    ground (arith, here, has_bit-mark_if (wants_audio t p) t.shard masks.1 j)
masked-visited any_rows t p j masks here = ground (
  arith,
  here,
  has_bit-mark_if (wants_video t p) t.shard masks.0 j,
  has_bit-mark_if (wants_audio t p) t.shard masks.1 j,
)

asks_over : (k : Which) (t : Target) (p j : ℕ) → passes_over t p ≡ true → asks k t j p ≡ false
asks_over video_rows t p j over = ground (arith, over)
asks_over audio_rows t p j over = ground (arith, over)
asks_over any_rows t p j over = ground (arith, over)

masked-marked_demand :
    (k : Which) (t : Target) (p q j : ℕ) (d : Map ℕ (ℕ × ℕ))
    → masked k (demand_of q (marked_demand t p d)) j
      ≡ masked k (demand_of q d) j || ((p == q) && asks k t j q)
masked-marked_demand k t p q j d = elim (Bool-cases (passes_over t p)) [
  | inl over ↦ rw over (ground (arith, asks_over k t p j over, nat_eq.decides p q))
  | inr here ↦
      let masks : ℕ × ℕ = (
        mark_if (wants_video t p) t.shard (demand_of p d).0,
        mark_if (wants_audio t p) t.shard (demand_of p d).1,
      ) in
      rw (here, demand_of-insert p q masks d)
        (ground (arith, masked-visited k t p j (demand_of p d) here, nat_eq.decides p q))
]

masked-demand_after :
    (k : Which) (t : Target) (ps : List ℕ) (q j : ℕ) (d : Map ℕ (ℕ × ℕ))
    → masked k (demand_of q (demand_after t ps d)) j
      ≡ masked k (demand_of q d) j || (contains q ps && asks k t j q)
unfolding contains
masked-demand_after k t [] q j d = ground arith
masked-demand_after k t (p ∷ ps) q j d =
    ground (
      arith,
      masked-demand_after k t ps q j (marked_demand t p d),
      masked-marked_demand k t p q j d,
    )

-- Whether some target asks shard `j` for the publisher.
abbrev pub any_asks : Which → ℕ → RoomShard → ℕ → ℕ → Map Bytes ℕ → Bool
any_asks k n s j p [] = false
any_asks k n s j p ((name, pid) ∷ targets) =
    asks k (target_of n s name pid) j p || any_asks k n s j p targets

pub masked-demand_of_targets :
    (k : Which) (n : ℕ) (s : RoomShard) (q j : ℕ) (targets : Map Bytes ℕ) (d : Map ℕ (ℕ × ℕ))
    → contains q (values s.pids) ≡ true
    → masked k (demand_of q (demand_of_targets n s targets d)) j
      ≡ masked k (demand_of q d) j || any_asks k n s j q targets
masked-demand_of_targets k n s q j [] d h = ground arith
masked-demand_of_targets k n s q j ((name, pid) ∷ targets) d h =
    let t = target_of n s name pid in
    ground (
      arith,
      masked-demand_of_targets k n s q j targets (demand_after t (values s.pids) d) h,
      masked-demand_after k t (values s.pids) q j d,
      h,
    )

pub masked_none : (k : Which) (q j : ℕ) → masked k (demand_of q []) j ≡ false
unfolding demand_of lookup
masked_none video_rows q j = ground (arith, bit_zero j)
masked_none audio_rows q j = ground (arith, bit_zero j)
masked_none any_rows q j = ground (arith, bit_zero j)
