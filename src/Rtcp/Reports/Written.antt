-- ===== src/Rtcp/Reports/Written.antt =====
-- A report that was built parses back to the fields and the report blocks it was built from.
use wroom.Common.{
  ℕ, ◌+◌, ◌-◌, ◌*◌, ◌%◌, ◌^◌, ◌≤◌, ◌<◌, ◌≡◌, refl, sym, ap, arith, subst, List, [], ◌∷◌, ◌++◌, map,
  length, take, drop, All, length-append,
}
use wroom.Common.Bytes.{
  Bytes, Holds, be16_at, be32_at, to_be32, append_assoc, append_nil, take-append, drop-append,
}
use wroom.Common.Chunks.{
  flat, as_chunks-flat, HasLength, be32-to_be32, write_parts, write_parts-Holds,
}
use wroom.Common.Integers.{ℤ, pos, negsuc, signed, unsigned, shr, FitsSigned}
use wroom.Rtcp.Block.Header.{header_bytes, plain_block}
use wroom.Rtcp.Reports.{ReportBlock, write_report, write_reports, parse_report, reports_from}

lost-unsigned :
    (z : ℤ) → FitsSigned 24 z → shr (signed 32 (unsigned 32 z % 2 ^ 24 * 2 ^ 8 % 2 ^ 32)) 8 ≡ z
unfolding shr signed unsigned
lost-unsigned (pos n) h = ground (arith, h)
lost-unsigned (negsuc n) h = ground (arith, h)

abbrev lost_bytes : ReportBlock → Bytes
lost_bytes r = drop 1 (to_be32 (unsigned 32 r.cumulative_lost % 2 ^ 24))

abbrev report_parts : ReportBlock → List Bytes
report_parts r =
    to_be32 r.ssrc
    ∷ (r.fraction_lost ∷ [])
    ∷ lost_bytes r
    ∷ to_be32 r.highest_seq
    ∷ to_be32 r.jitter
    ∷ to_be32 r.lsr
    ∷ to_be32 r.dlsr
    ∷ []

abbrev pub report_bytes : ReportBlock → Bytes
report_bytes r = flat (report_parts r)

write_report-write_parts :
    (r : ReportBlock) (out : Bytes) (w : ℕ)
    → write_report r out w ≡ write_parts out w (report_parts r)
unfolding write_report to_be32
write_report-write_parts r out w =
    let a : w + 4 + 1 ≡ w + 5 = omega arith in
    let b : w + 5 + 3 ≡ w + 8 = omega arith in
    let c : w + 8 + 4 ≡ w + 12 = omega arith in
    let d : w + 12 + 4 ≡ w + 16 = omega arith in
    let e : w + 16 + 4 ≡ w + 20 = omega arith in rw (a, b, c, d, e) refl

abbrev pub FitsReport : ReportBlock → Type 0
FitsReport r =
    (r.ssrc < 2 ^ 32)
    × (r.fraction_lost < 256)
    × FitsSigned 24 r.cumulative_lost
    × (r.highest_seq < 2 ^ 32)
    × (r.jitter < 2 ^ 32)
    × (r.lsr < 2 ^ 32)
    × (r.dlsr < 2 ^ 32)

lost_of_bytes : (n : ℕ) → n < 2 ^ 24 → be32_at (0 ∷ drop 1 (to_be32 n)) 0 ≡ n
unfolding be32_at be16_at to_be32
lost_of_bytes n h = omega (arith, h)

same_report :
    (q r : ReportBlock)
    → q.ssrc ≡ r.ssrc
    → q.fraction_lost ≡ r.fraction_lost
    → q.cumulative_lost ≡ r.cumulative_lost
    → q.highest_seq ≡ r.highest_seq
    → q.jitter ≡ r.jitter
    → q.lsr ≡ r.lsr
    → q.dlsr ≡ r.dlsr
    → q ≡ r
same_report q r a b c d e f g = ground (arith, a, b, c, d, e, f, g)

parse_report-report_bytes : (r : ReportBlock) → FitsReport r → parse_report (report_bytes r) ≡ r
unfolding parse_report be32_at be16_at to_be32
parse_report-report_bytes r (ssrc, fraction, lost, highest, jitter, lsr, dlsr) =
    let low = unsigned 32 r.cumulative_lost % 2 ^ 24 in
    let cumulative : shr (signed 32 (be32_at (0 ∷ drop 1 (to_be32 low)) 0 * 2 ^ 8 % 2 ^ 32)) 8
        ≡ r.cumulative_lost =
      rw (lost_of_bytes low (omega arith)) (lost-unsigned r.cumulative_lost lost) in
    same_report (parse_report (report_bytes r)) r (be32-to_be32 r.ssrc [] ssrc) refl cumulative
      (be32-to_be32 r.highest_seq [] highest) (be32-to_be32 r.jitter [] jitter)
      (be32-to_be32 r.lsr [] lsr) (be32-to_be32 r.dlsr [] dlsr)

pub length-report_bytes :
    (rs : List ReportBlock) → length (flat (map report_bytes rs)) ≡ 24 * length rs
unfolding to_be32
length-report_bytes [] = refl
length-report_bytes (r ∷ rs) = omega (arith, length-report_bytes rs)

report_bytes-HasLength : (rs : List ReportBlock) → All (HasLength 24) (map report_bytes rs)
unfolding to_be32
report_bytes-HasLength [] = tt
report_bytes-HasLength (r ∷ rs) = (refl, report_bytes-HasLength rs)

parse_report-map :
    (rs : List ReportBlock) → All FitsReport rs → map parse_report (map report_bytes rs) ≡ rs
parse_report-map [] fits = refl
parse_report-map (r ∷ rs) (fits, more) =
    rw (parse_report-map rs more)
      (ap (λ (q : ReportBlock). q ∷ rs) (parse_report-report_bytes r fits))

write_reports-Holds :
    (written out : Bytes) (w : ℕ) (rs : List ReportBlock)
    → w ≡ length written
    → Holds written out
    → w + 24 * length rs ≤ length out
    → Holds (written ++ flat (map report_bytes rs)) (write_reports out w rs)
unfolding write_reports
write_reports-Holds written out w [] here holds room =
    subst (λ (t : Bytes). Holds t out) (sym (append_nil written)) holds
write_reports-Holds written out w (r ∷ rs) here holds room =
    let size : length (report_bytes r) ≡ 24 = unfold to_be32 in refl in
    let first =
      write_parts-Holds written out w (report_parts r) here holds (omega (arith, room, size)) in
    let out' = write_parts out w (report_parts r) in
    let rest =
      write_reports-Holds (written ++ report_bytes r) out' (w + 24) rs
        (omega (arith, here, length-append written (report_bytes r), size)) first.0
        (omega (arith, room, first.1)) in
    let joined = append_assoc written (report_bytes r) (flat (map report_bytes rs)) in
    rw (write_report-write_parts r out w)
      (subst (λ (t : Bytes). Holds t (write_reports out' (w + 24) rs)) joined rest)

-- The reports of a block whose body has them after some other fields.
pub reports_from-body :
    (start packet_type : ℕ) (lead : Bytes) (rs : List ReportBlock)
    → start ≡ length lead
    → All FitsReport rs
    → reports_from start (plain_block (length rs) packet_type (lead ++ flat (map report_bytes rs)))
      ≡ rs
unfolding reports_from
reports_from-body start packet_type lead rs here fits =
    let reports = flat (map report_bytes rs) in
    let behind : drop start (lead ++ reports) ≡ reports = rw here (drop-append lead reports) in
    let size : start + 24 * length rs - start ≡ length reports =
      omega (arith, length-report_bytes rs) in
    let all : take (length reports) reports ≡ reports =
      subst (λ (t : Bytes). take (length reports) t ≡ reports) (append_nil reports)
        (take-append reports []) in
    let cut = as_chunks-flat 24 (map report_bytes rs) (omega arith) (report_bytes-HasLength rs) in
    rw (behind, size, all, cut) (parse_report-map rs fits)

-- A header, some fields, and then the report blocks.
pub written_reports :
    (out head : Bytes) (packet_type words : ℕ) (lead : List Bytes) (rs : List ReportBlock) (w : ℕ)
    → Holds (header_bytes (length rs) packet_type words) head
    → length head ≡ length out
    → w ≡ 4 + length (flat lead)
    → w + 24 * length rs ≤ length out
    → Holds
        (header_bytes (length rs) packet_type words ++ (flat lead ++ flat (map report_bytes rs)))
        (write_reports (write_parts head 4 lead) w rs)
written_reports out head packet_type words lead rs w holds len at room =
    let start = header_bytes (length rs) packet_type words in
    let fields = write_parts-Holds start head 4 lead refl holds (omega (arith, len, at, room)) in
    let reports =
      write_reports-Holds (start ++ flat lead) (write_parts head 4 lead) w rs (omega (arith, at))
        fields.0 (omega (arith, fields.1, len, room)) in
    subst (λ (t : Bytes). Holds t (write_reports (write_parts head 4 lead) w rs))
      (append_assoc start (flat lead) (flat (map report_bytes rs))) reports
