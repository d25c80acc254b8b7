-- ===== src/Media/Feedback.antt =====
-- `RrSlot` of crates/wroomd/src/media.rs, the receiver-report counters of one source. Instants are
-- nanoseconds, and arithmetic on `u32` and `i64` wraps, as in a release build.
pub mod Tracking
pub mod Stream
use wroom.Common.{
  ℕ, ◌+◌, ◌-◌, ◌*◌, ◌/◌, ◌%◌, ◌^◌, Bool, true, false, ◌||◌, Option, none, some, ltb, leb,
  if◌then◌else◌, ◌==◌, nat_eq,
}
use wroom.Common.Integers.{ℤ, pos, negsuc, shr, sub_ℕ, ◌+ℤ◌, ◌-ℤ◌, abs, clamp, unsigned}
use wroom.Rtcp.Reports.{ReportBlock}

pub record RrSlot : Type 0 where
  pub ssrc : ℕ
  pub max_seq : ℕ
  pub cycles : ℕ
  pub base_seq : ℕ
  pub received : ℕ
  pub expected_prior : ℕ
  pub received_prior : ℕ
  pub jitter16 : ℤ
  pub transit : ℤ
  pub lsr : ℕ
  pub lsr_at : Option ℕ
  pub seen : ℕ
  pub init : Bool

unfoldable pub slot_new : ℕ → ℕ → ℕ → RrSlot
slot_new ssrc seq now = record {
  ssrc = ssrc;
  max_seq = seq;
  cycles = 0;
  base_seq = seq;
  received = 0;
  expected_prior = 0;
  received_prior = 0;
  jitter16 = pos 0;
  transit = pos 0;
  lsr = 0;
  lsr_at = none;
  seen = now;
  init = false;
}

-- How far a sequence number lies ahead, modulo 2^16.
abbrev pub ahead : ℕ → ℕ → ℕ
ahead seq from = (seq + 2 ^ 16 - from) % 2 ^ 16

unfoldable pub anchor : ℕ → ℤ → RrSlot → RrSlot
anchor seq transit s = record s {
  base_seq = seq;
  max_seq = seq;
  received = 0;
  cycles = 0;
  transit = transit;
}

unfoldable pub advance : ℕ → RrSlot → RrSlot
advance seq s = record s {
  max_seq = seq;
  cycles = if ltb seq s.max_seq then (s.cycles + 2 ^ 16) % 2 ^ 32 else s.cycles;
}

-- The branches on the distance from the highest sequence number.
unfoldable pub move_mark : ℕ → ℤ → RrSlot → RrSlot
unfolding advance anchor
move_mark seq transit s =
    let udelta = ahead seq s.max_seq in
    if ltb udelta 3000
    then advance seq s
    else if leb udelta (2 ^ 16 - 100)
    then s
    else anchor seq transit s

unfoldable pub jitter_with : ℤ → RrSlot → RrSlot
unfolding ◌+ℤ◌ ◌-ℤ◌ abs shr
jitter_with transit s =
    let d = pos (abs (transit -ℤ s.transit)) in
    record s { transit = transit; jitter16 = s.jitter16 +ℤ (d -ℤ shr (s.jitter16 +ℤ pos 8) 4) }

-- `RrSlot::record`.
unfoldable pub record_slot : ℕ → ℕ → ℤ → ℕ → RrSlot → RrSlot
unfolding move_mark jitter_with ◌-ℤ◌
record_slot seq rtp_ts arrival now s =
    let transit = arrival -ℤ pos rtp_ts in
    let first = record s {
      base_seq = seq;
      max_seq = seq;
      received = 0;
      transit = transit;
      init = true;
    } in
    let tracked = if s.init then jitter_with transit (move_mark seq transit s) else first in
    record tracked { received = (tracked.received + 1) % 2 ^ 32; seen = now }

abbrev pub sub_u32 : ℕ → ℕ → ℕ
sub_u32 a b = (a + 2 ^ 32 - b) % 2 ^ 32

unfoldable pub ext_max : RrSlot → ℕ
ext_max s = (s.cycles + s.max_seq) % 2 ^ 32

unfoldable pub expected : RrSlot → ℕ
unfolding ext_max
expected s = (sub_u32 (ext_max s) s.base_seq + 1) % 2 ^ 32

-- The share of an interval's packets that was lost, in 256ths.
unfoldable pub fraction : ℕ → ℕ → ℕ
fraction exp_iv rec_iv =
    if (exp_iv == 0) || leb exp_iv rec_iv then 0 else (exp_iv - rec_iv) * 2 ^ 8 / exp_iv % 2 ^ 8

-- `RrSlot::report`; `dlsr` gives the 65536ths of a second for a time, by floating-point.
unfoldable pub report : (ℕ → ℕ) → ℕ → RrSlot → ReportBlock × RrSlot
unfolding ext_max expected fraction clamp shr unsigned
report dlsr now s =
    let exp_iv = sub_u32 (expected s) s.expected_prior in
    let rec_iv = sub_u32 s.received s.received_prior in
    let since : ℕ = elim s.lsr_at [ none ↦ 0 | some at ↦ dlsr (now - at) ] in
    (
      record {
        ssrc = s.ssrc;
        fraction_lost = fraction exp_iv rec_iv;
        cumulative_lost = clamp (negsuc 8_388_606) (pos 8_388_607) (sub_ℕ (expected s) s.received);
        highest_seq = ext_max s;
        jitter = unsigned 32 (clamp (pos 0) (pos 4_294_967_295) (shr s.jitter16 4));
        lsr = s.lsr;
        dlsr = since;
      },
      record s { expected_prior = expected s; received_prior = s.received },
    )
