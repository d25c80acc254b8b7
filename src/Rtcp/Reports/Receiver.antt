-- ===== src/Rtcp/Reports/Receiver.antt =====
-- The round trip of receiver reports.
use wroom.Common.{
  ℕ, ◌+◌, ◌*◌, ◌/◌, ◌^◌, ◌≤◌, ◌<◌, ◌≡◌, refl, sym, arith, subst, List, [], ◌∷◌, ◌++◌, map, length,
  take, All,
}
use wroom.Common.Bytes.{Bytes, Holds, to_be32}
use wroom.Common.Chunks.{flat, be32-to_be32, write_parts}
use wroom.Common.Results.{ok}
use wroom.Rtcp.Block.{Block, write_header}
use wroom.Rtcp.Block.Header.{header_bytes, write_header-Holds, plain_block, parse-Holds}
use wroom.Rtcp.Compound.{parse_packet, packet_of_block, kind_of_block, receiver_report}
use wroom.Rtcp.Reports
use wroom.Rtcp.Reports.{
  ReportBlock, write_reports, build_receiver_report, receiver_reports, report_ssrc,
}
use wroom.Rtcp.Reports.Written.{
  FitsReport, report_bytes, reports_from-body, written_reports, length-report_bytes,
}

build_receiver_report-ok :
    (out head : Bytes) (ssrc : ℕ) (rs : List ReportBlock)
    → length rs ≤ 31
    → 8 + 24 * length rs ≤ length out
    → write_header out (length rs) 201 (8 + 24 * length rs) ≡ (ok tt, head)
    → build_receiver_report out ssrc rs
      ≡ (ok (8 + 24 * length rs), write_reports (write_parts head 4 (to_be32 ssrc ∷ [])) 8 rs)
unfolding build_receiver_report
build_receiver_report-ok out head ssrc rs few room written = ground (arith, few, room, written)

abbrev body_of : ℕ → List ReportBlock → Bytes
body_of ssrc rs = flat (to_be32 ssrc ∷ []) ++ flat (map report_bytes rs)

build_receiver_report-Holds :
    (out : Bytes) (ssrc : ℕ) (rs : List ReportBlock)
    → length rs ≤ 31
    → 8 + 24 * length rs ≤ length out
    → (out' : Bytes) × (build_receiver_report out ssrc rs ≡ (ok (8 + 24 * length rs), out'))
      × Holds (header_bytes (length rs) 201 (1 + 6 * length rs) ++ body_of ssrc rs) out'
build_receiver_report-Holds out ssrc rs few room =
    let words = 1 + 6 * length rs in
    let (head, written, holds, len) =
      write_header-Holds out (length rs) 201 words (omega (arith, few)) (omega (arith, few))
        (omega (arith, room)) in
    let total : (words + 1) * 4 ≡ 8 + 24 * length rs = omega arith in
    let header : write_header out (length rs) 201 (8 + 24 * length rs) ≡ (ok tt, head) =
      rw (sym total) written in
    let lead = to_be32 ssrc ∷ [] in
    let eight : 8 ≡ 4 + length (flat lead) = unfold to_be32 in refl in
    (
      write_reports (write_parts head 4 lead) 8 rs,
      build_receiver_report-ok out head ssrc rs few room header,
      written_reports out head 201 words lead rs 8 holds len eight room,
    )

packet-body_of :
    (ssrc : ℕ) (rs : List ReportBlock)
    → packet_of_block (plain_block (length rs) 201 (body_of ssrc rs))
      ≡ ok (record {
        block = plain_block (length rs) 201 (body_of ssrc rs);
        kind = receiver_report (plain_block (length rs) 201 (body_of ssrc rs));
      })
unfolding packet_of_block kind_of_block Reports.receiver_report to_be32
packet-body_of ssrc rs = ground (arith, length-report_bytes rs)

-- A receiver report that is built, with fields and 31 report blocks at most that fit, in a buffer with
-- room for it, parses as a receiver report with the same sender and the same report blocks.
pub build_receiver_report-parse_packet :
    (out : Bytes) (ssrc : ℕ) (rs : List ReportBlock)
    → ssrc < 2 ^ 32
    → All FitsReport rs
    → length rs ≤ 31
    → 8 + 24 * length rs ≤ length out
    → (b : Block) × (out' : Bytes) × (build_receiver_report out ssrc rs
        ≡ (ok (8 + 24 * length rs), out'))
      × (parse_packet (take (8 + 24 * length rs) out')
          ≡ ok (record { block = b; kind = receiver_report b }))
      × (report_ssrc b ≡ ssrc)
      × (receiver_reports b ≡ rs)
unfolding parse_packet report_ssrc receiver_reports to_be32
build_receiver_report-parse_packet out ssrc rs s fits few room =
    let (out', built, holds) = build_receiver_report-Holds out ssrc rs few room in
    let body = body_of ssrc rs in
    let size : length body ≡ 4 + 24 * length rs =
      unfold to_be32 in omega (arith, length-report_bytes rs) in
    let words : 1 + 6 * length rs ≡ length body / 4 = omega (arith, size) in
    let holds' =
      subst (λ (w : ℕ). Holds (header_bytes (length rs) 201 w ++ body) out') words holds in
    let parsed =
      parse-Holds (length rs) 201 (8 + 24 * length rs) body out' (omega (arith, few))
        (omega (arith, size)) (omega (arith, size)) (omega (arith, words, few)) holds' in
    let four : 4 ≡ length (flat (to_be32 ssrc ∷ [])) = unfold to_be32 in refl in
    (
      plain_block (length rs) 201 body,
      out',
      built,
      rw parsed (packet-body_of ssrc rs),
      be32-to_be32 ssrc (flat (map report_bytes rs)) s,
      reports_from-body 4 201 (flat (to_be32 ssrc ∷ [])) rs four fits,
    )
