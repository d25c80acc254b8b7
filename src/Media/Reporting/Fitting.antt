-- ===== src/Media/Reporting/Fitting.antt =====
-- The reports on the slots of a leg fit their fields, so that a reader of the packet finds them in it.
use wroom.Common.{
  ℕ, zero, suc, ◌+◌, ◌-◌, ◌*◌, ◌^◌, ◌<◌, ◌≤◌, ◌≡◌, arith, List, [], ◌∷◌, Option, none, some, All,
  length, take, replicate, nat_eq, length-replicate,
}
use wroom.Common.Bytes.{Bytes}
use wroom.Common.Integers.{ℤ, pos, negsuc, FitsSigned, clamp, shr, unsigned, sub_ℕ}
use wroom.Common.Results.{ok}
use wroom.Rtcp.Block.{Block}
use wroom.Rtcp.Reports.{build_receiver_report, receiver_reports, report_ssrc}
use wroom.Rtcp.Reports.Written.{FitsReport}
use wroom.Rtcp.Reports.Receiver.{build_receiver_report-parse_packet}
use wroom.Rtcp.Compound.{parse_packet, receiver_report}
use wroom.Media.Feedback.{RrSlot, report, fraction, expected, ext_max, sub_u32}
use wroom.Media.Reporting.{report_each}

-- The fields of a slot that a report copies are words.
abbrev pub FitsSlot : RrSlot → Type 0
FitsSlot s = (s.ssrc < 2 ^ 32) × (s.lsr < 2 ^ 32)

clamped_lost : (a : ℤ) → FitsSigned 24 (clamp (negsuc 8_388_606) (pos 8_388_607) a)
unfolding clamp
clamped_lost (pos n) = ground arith
clamped_lost (negsuc n) = ground arith

unsigned_small : (a : ℤ) → unsigned 32 a < 2 ^ 32
unfolding unsigned
unsigned_small (pos n) = omega arith
unsigned_small (negsuc n) = omega arith

fraction_small : (a b : ℕ) → fraction a b < 2 ^ 8
unfolding fraction
fraction_small a b = ground arith

highest_small : (s : RrSlot) → ext_max s < 2 ^ 32
unfolding ext_max
highest_small s = omega arith

module _ (dlsr : ℕ → ℕ) (small : (t : ℕ) → dlsr t < 2 ^ 32) (now : ℕ) where
  since_small :
      (at : Option ℕ) → (elim at as (λ _. ℕ) [ none ↦ 0 | some t ↦ dlsr (now - t) ]) < 2 ^ 32
  since_small none = omega arith
  since_small (some t) = small (now - t)

  report-FitsReport : (s : RrSlot) → FitsSlot s → FitsReport (report dlsr now s).0
  unfolding report
  report-FitsReport s fits = (
    fits.0,
    fraction_small (sub_u32 (expected s) s.expected_prior) (sub_u32 s.received s.received_prior),
    clamped_lost (sub_ℕ (expected s) s.received),
    highest_small s,
    unsigned_small (clamp (pos 0) (pos 4_294_967_295) (shr s.jitter16 4)),
    fits.1,
    since_small s.lsr_at,
  )

  report_each-FitsReport :
      (n : ℕ) (slots : List RrSlot)
      → All FitsSlot slots
      → All FitsReport (report_each dlsr now n slots).0
  unfolding report_each
  report_each-FitsReport zero slots fits = tt
  report_each-FitsReport (suc n) [] fits = tt
  report_each-FitsReport (suc n) (s ∷ slots) fits =
      (report-FitsReport s fits.0, report_each-FitsReport n slots fits.1)

  length-report_each : (n : ℕ) (slots : List RrSlot) → length (report_each dlsr now n slots).0 ≤ n
  unfolding report_each
  length-report_each zero slots = omega arith
  length-report_each (suc n) [] = omega arith
  length-report_each (suc n) (s ∷ slots) = omega (arith, length-report_each n slots)

  -- For slots whose sources and sender-report times are words, of which at most four are in use,
  -- and delays that are words, the receiver report that the leg builds parses as one from source 1
  -- with exactly the reports on the slots.
  pub report_each-parse_packet :
      (n : ℕ) (slots : List RrSlot)
      → n ≤ 4
      → All FitsSlot slots
      → (b : Block) × (out : Bytes) × (build_receiver_report
            (replicate 512 0)
            1
            (report_each dlsr now n slots).0
          ≡ (ok (8 + 24 * length (report_each dlsr now n slots).0), out))
        × (parse_packet (take (8 + 24 * length (report_each dlsr now n slots).0) out)
            ≡ ok (record { block = b; kind = receiver_report b }))
        × (report_ssrc b ≡ 1)
        × (receiver_reports b ≡ (report_each dlsr now n slots).0)
  report_each-parse_packet n slots few fits =
      let fewer = length-report_each n slots in
      build_receiver_report-parse_packet (replicate 512 0) 1 (report_each dlsr now n slots).0
        (omega arith) (report_each-FitsReport n slots fits) (omega (arith, few, fewer))
        (omega (arith, few, fewer, length-replicate {A = ℕ} 512 0))
