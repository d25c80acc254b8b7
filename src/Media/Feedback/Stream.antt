-- ===== src/Media/Feedback/Stream.antt =====
-- What the report on a source says of a stream from its first packet on, whose packets come in order.
use wroom.Common.{
  ℕ, suc, subst, ◌+◌, ◌-◌, ◌*◌, ◌/◌, ◌%◌, ◌^◌, ◌<◌, ◌≤◌, ◌≡◌, refl, ◌∙◌, arith, true, ltb, List, [],
  ◌∷◌, length, All, nat_eq,
}
use wroom.Common.Integers.{ℤ, pos, negsuc, clamp, sub_ℕ, ◌-ℤ◌}
use wroom.Rtcp.Reports.{ReportBlock}
use wroom.Media.Feedback.{
  RrSlot, slot_new, ahead, move_mark, advance, jitter_with, record_slot, ext_max, expected,
  fraction, report, sub_u32,
}

-- A packet, by how far its sequence number lies after the one before it.
pub record Heard : Type 0 where
  pub gap : ℕ
  pub rtp_ts : ℕ
  pub arrival : ℤ
  pub now : ℕ

abbrev pub total : List Heard → ℕ
total [] = 0
total (h ∷ hs) = h.gap + total hs

abbrev pub hear : ℕ → List Heard → RrSlot → RrSlot
hear last [] s = s
hear last (h ∷ hs) s =
    let seq = (last + h.gap) % 2 ^ 16 in hear seq hs (record_slot seq h.rtp_ts h.arrival h.now s)

-- In order, with fewer than 3000 numbers from one to the next.
abbrev pub IsInOrder : List Heard → Type 0
IsInOrder = All (λ h. (0 < h.gap) × (h.gap < 3000))

-- The counters after a number of packets that end at a distance from the first.
abbrev Counts : ℕ → ℕ → ℕ → RrSlot → Type 0
Counts first far count s =
    (s.init ≡ true)
    × (s.max_seq ≡ (first + far) % 2 ^ 16)
    × (ext_max s ≡ first + far)
    × (s.base_seq ≡ first)
    × (s.received ≡ count)
    × (s.expected_prior ≡ 0)
    × (s.received_prior ≡ 0)

-- A packet that is not far ahead of the last one.
record_slot-next :
    (seq rtp_ts now : ℕ) (arrival : ℤ) (s : RrSlot)
    → s.init ≡ true
    → ltb (ahead seq s.max_seq) 3000 ≡ true
    → record_slot seq rtp_ts arrival now s
      ≡ record (jitter_with (arrival -ℤ pos rtp_ts) (advance seq s)) {
        received = (s.received + 1) % 2 ^ 32;
        seen = now;
      }
unfolding record_slot move_mark jitter_with advance
record_slot-next seq rtp_ts now arrival s heard near = rw (heard, near) refl

ahead_gap :
    (seq top last gap : ℕ)
    → top ≡ last % 2 ^ 16
    → gap < 3000
    → seq ≡ (last % 2 ^ 16 + gap) % 2 ^ 16
    → ltb (ahead seq top) 3000 ≡ true
ahead_gap seq top last gap t small next = ground (arith, t, small, next)

ext_max-advance :
    (seq first far gap : ℕ) (s : RrSlot)
    → s.max_seq ≡ (first + far) % 2 ^ 16
    → ext_max s ≡ first + far
    → gap < 3000
    → first + far + gap < 2 ^ 32
    → seq ≡ ((first + far) % 2 ^ 16 + gap) % 2 ^ 16
    → ext_max (advance seq s) ≡ first + (far + gap)
unfolding ext_max advance
ext_max-advance seq first far gap s top ext small room next =
    ground (arith, top, ext, small, room, next)

record_slot-Counts :
    (seq rtp_ts now first far count gap : ℕ) (arrival : ℤ) (s : RrSlot)
    → Counts first far count s
    → gap < 3000
    → first + far + gap < 2 ^ 32
    → count + 1 < 2 ^ 32
    → seq ≡ ((first + far) % 2 ^ 16 + gap) % 2 ^ 16
    → Counts first (far + gap) (count + 1) (record_slot seq rtp_ts arrival now s)
unfolding jitter_with advance ext_max
record_slot-Counts seq rtp_ts now first far count gap arrival s counts small room fewer next =
    let (heard, top, ext, base, got, exp, rec) = counts in
    let near = ahead_gap seq s.max_seq (first + far) gap top small next in
    rw (record_slot-next seq rtp_ts now arrival s heard near) (
      heard,
      omega (arith, next),
      ext_max-advance seq first far gap s top ext small room next,
      base,
      omega (arith, got, fewer),
      exp,
      rec,
    )

hear-Counts :
    (first far count : ℕ) (hs : List Heard) (s : RrSlot)
    → IsInOrder hs
    → first + far + total hs < 2 ^ 32
    → count + length hs < 2 ^ 32
    → Counts first far count s
    → Counts first (far + total hs) (count + length hs) (hear ((first + far) % 2 ^ 16) hs s)
hear-Counts first far count [] s order room fewer counts =
    let same_far : far + 0 ≡ far = omega arith in
    let same_count : count + 0 ≡ count = omega arith in rw (same_far, same_count) counts
hear-Counts first far count (h ∷ hs) s order room fewer counts =
    let seq = ((first + far) % 2 ^ 16 + h.gap) % 2 ^ 16 in
    let next =
      record_slot-Counts seq h.rtp_ts h.now first far count h.gap h.arrival s counts order.0.1
        (omega (arith, room)) (omega (arith, fewer)) refl in
    let place : (first + (far + h.gap)) % 2 ^ 16 ≡ seq = omega arith in
    let reach : far + h.gap + total hs ≡ far + (h.gap + total hs) = omega arith in
    let sum : count + 1 + length hs ≡ count + suc (length hs) = omega arith in
    let after = record_slot seq h.rtp_ts h.arrival h.now s in
    subst (λ (n : ℕ). Counts first (far + (h.gap + total hs)) n (hear seq hs after)) sum
      (subst (λ (n : ℕ). Counts first n (count + 1 + length hs) (hear seq hs after)) reach
        (subst
          (λ (at : ℕ).
            Counts first (far + h.gap + total hs) (count + 1 + length hs) (hear at hs after))
          place
          (hear-Counts first (far + h.gap) (count + 1) hs after order.1 (omega (arith, room))
            (omega (arith, fewer)) next)))

length-total : (hs : List Heard) → IsInOrder hs → length hs ≤ total hs
length-total [] order = omega arith
length-total (h ∷ hs) order = omega (arith, order.0.0, length-total hs order.1)

opened-Counts :
    (ssrc first rtp_ts at : ℕ) (arrival : ℤ)
    → first < 2 ^ 16
    → Counts first 0 1 (record_slot first rtp_ts arrival at (slot_new ssrc first at))
unfolding record_slot slot_new ext_max
opened-Counts ssrc first rtp_ts at arrival h =
    (refl, omega (arith, h), omega (arith, h), refl, refl, refl, refl)

expected_far :
    (first far : ℕ) (s : RrSlot)
    → ext_max s ≡ first + far
    → s.base_seq ≡ first
    → first + far + 1 < 2 ^ 32
    → expected s ≡ far + 1
unfolding expected
expected_far first far s ext base room = rw (ext, base) (omega (arith, room))

whole_u32 : (n : ℕ) → n < 2 ^ 32 → sub_u32 n 0 ≡ n
whole_u32 n h = omega (arith, h)

lost_few :
    (due got : ℕ)
    → got ≤ due
    → due - got ≤ 8_388_607
    → clamp (negsuc 8_388_606) (pos 8_388_607) (sub_ℕ due got) ≡ pos (due - got)
unfolding clamp
lost_few due got h few = ground (arith, h, few)

lost_share : (due got : ℕ) → got ≤ due → fraction due got ≡ (due - got) * 2 ^ 8 / due % 2 ^ 8
unfolding fraction
lost_share due got h = ground (arith, h)

report_fields :
    (dlsr : ℕ → ℕ) (now : ℕ) (s : RrSlot)
    → ((report dlsr now s).0.highest_seq ≡ ext_max s)
      × ((report dlsr now s).0.cumulative_lost
          ≡ clamp (negsuc 8_388_606) (pos 8_388_607) (sub_ℕ (expected s) s.received))
      × ((report dlsr now s).0.fraction_lost
          ≡ fraction (sub_u32 (expected s) s.expected_prior) (sub_u32 s.received s.received_prior))
unfolding report
report_fields dlsr now s = (refl, refl, refl)

-- A report on a stream that reaches so far, with so many packets lost.
abbrev pub Tells : ReportBlock → ℕ → ℕ → ℕ → Type 0
Tells r first far lost =
    (r.highest_seq ≡ first + far)
    × (r.cumulative_lost ≡ pos lost)
    × (r.fraction_lost ≡ lost * 2 ^ 8 / (far + 1) % 2 ^ 8)

report-Counts :
    (dlsr : ℕ → ℕ) (now first far count : ℕ) (s : RrSlot)
    → Counts first far count s
    → count ≤ far + 1
    → far + 1 - count ≤ 8_388_607
    → first + far + 1 < 2 ^ 32
    → Tells (report dlsr now s).0 first far (far + 1 - count)
report-Counts dlsr now first far count s counts some_lost few room =
    let (heard, top, ext, base, got, exp, rec) = counts in
    let due = expected_far first far s ext base room in
    let fields = report_fields dlsr now s in
    (
      fields.0 ∙ ext,
      fields.1 ∙ rw (due, got) (lost_few (far + 1) count some_lost few),
      fields.2
          ∙ rw
              (
                due,
                got,
                exp,
                rec,
                whole_u32 (far + 1) (omega (arith, room)),
                whole_u32 count (omega (arith, some_lost, room)),
              )
              (lost_share (far + 1) count some_lost),
    )

-- For a source whose first packet has a 16-bit number, followed by packets in order with fewer than 3000
-- numbers from one to the next, whose extended numbers stay below 2^32 - 1 and of which less than 2^23 are
-- missing: the report gives as the highest number the extended number of the last one, as the number lost
-- exactly those that are missing, and as the fraction their share, in 256ths rounded down.
pub report-hear :
    (dlsr : ℕ → ℕ) (now ssrc first rtp_ts at : ℕ) (arrival : ℤ) (hs : List Heard)
    → first < 2 ^ 16
    → IsInOrder hs
    → first + total hs + 1 < 2 ^ 32
    → total hs - length hs < 2 ^ 23
    → Tells
        (report dlsr now
          (hear first hs (record_slot first rtp_ts arrival at (slot_new ssrc first at)))).0
        first
        (total hs)
        (total hs - length hs)
report-hear dlsr now ssrc first rtp_ts at arrival hs small order room few =
    let begun = record_slot first rtp_ts arrival at (slot_new ssrc first at) in
    let fewer = length-total hs order in
    let place : (first + 0) % 2 ^ 16 ≡ first = omega (arith, small) in
    let reach : 0 + total hs ≡ total hs = omega arith in
    let lost : total hs + 1 - (1 + length hs) ≡ total hs - length hs = omega arith in
    let counts =
      subst (λ (far : ℕ). Counts first far (1 + length hs) (hear first hs begun)) reach
        (subst (λ (from : ℕ). Counts first (0 + total hs) (1 + length hs) (hear from hs begun))
          place
          (hear-Counts first 0 1 hs begun order (omega (arith, room)) (omega (arith, room, fewer))
            (opened-Counts ssrc first rtp_ts at arrival small))) in
    subst (λ (n : ℕ). Tells (report dlsr now (hear first hs begun)).0 first (total hs) n) lost
      (report-Counts dlsr now first (total hs) (1 + length hs) (hear first hs begun) counts
        (omega (arith, fewer)) (omega (arith, few)) room)
