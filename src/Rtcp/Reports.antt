-- ===== src/Rtcp/Reports.antt =====
-- Sender and receiver reports of crates/wroom-edge/src/rtcp.rs.
pub mod Written
pub mod Receiver
use wroom.Common.{
  ℕ, ◌+◌, ◌-◌, ◌*◌, ◌/◌, ◌%◌, ◌^◌, List, [], ◌∷◌, map, ltb, if◌then◌else◌, length, take, drop,
}
use wroom.Common.Bytes.{Bytes, byte_at, be32_at, to_be32, to_be64, slice, splice, as_chunks}
use wroom.Common.Integers.{ℤ, signed, unsigned, shr}
use wroom.Common.Results.{Result, ok, err}
use wroom.Rtcp.Block.{
  RtcpError, truncated, count_overflow, buffer_too_small, Block, write_header, header_len, pt_sr,
  pt_rr,
}

pub record ReportBlock : Type 0 where
  pub ssrc : ℕ
  pub fraction_lost : ℕ
  pub cumulative_lost : ℤ
  pub highest_seq : ℕ
  pub jitter : ℕ
  pub lsr : ℕ
  pub dlsr : ℕ

abbrev pub report_block_len : ℕ
report_block_len = 24

unfoldable pub parse_report : Bytes → ReportBlock
unfolding be32_at signed shr
parse_report b = record {
  ssrc = be32_at b 0;
  fraction_lost = byte_at b 4;
  cumulative_lost = shr (signed 32 (be32_at (0 ∷ slice b 5 8) 0 * 2 ^ 8 % 2 ^ 32)) 8;
  highest_seq = be32_at b 8;
  jitter = be32_at b 12;
  lsr = be32_at b 16;
  dlsr = be32_at b 20;
}

-- The result of `write` into the slice of a buffer that starts at an offset.
unfoldable pub write_report : ReportBlock → Bytes → ℕ → Bytes
unfolding to_be32 unsigned
write_report r out w =
    let ssrc = splice out w (to_be32 r.ssrc) in
    let fraction = splice ssrc (w + 4) (r.fraction_lost ∷ []) in
    let lost =
      splice fraction (w + 5) (drop 1 (to_be32 (unsigned 32 r.cumulative_lost % 2 ^ 24))) in
    let highest = splice lost (w + 8) (to_be32 r.highest_seq) in
    let jitter = splice highest (w + 12) (to_be32 r.jitter) in
    let lsr = splice jitter (w + 16) (to_be32 r.lsr) in splice lsr (w + 20) (to_be32 r.dlsr)

-- The loop of the builders over their report blocks.
unfoldable pub write_reports : Bytes → ℕ → List ReportBlock → Bytes
unfolding write_report
write_reports out w [] = out
write_reports out w (r ∷ reports) =
    write_reports (write_report r out w) (w + report_block_len) reports

abbrev pub sender_info_len : ℕ
sender_info_len = 24

unfoldable pub sender_report : Block → Result RtcpError Block
sender_report b =
    if ltb (length b.payload) (sender_info_len + report_block_len * b.count)
    then err truncated
    else ok b

unfoldable pub receiver_report : Block → Result RtcpError Block
receiver_report b =
    if ltb (length b.payload) (4 + report_block_len * b.count) then err truncated else ok b

-- `sender_ssrc` of both reports.
unfoldable pub report_ssrc : Block → ℕ
unfolding be32_at
report_ssrc b = be32_at b.payload 0

unfoldable pub ntp_timestamp : Block → ℕ
unfolding be32_at
ntp_timestamp b = be32_at b.payload 4 * 2 ^ 32 + be32_at b.payload 8

unfoldable pub ntp_middle : Block → ℕ
unfolding ntp_timestamp
ntp_middle b = ntp_timestamp b / 2 ^ 16 % 2 ^ 32

unfoldable pub rtp_timestamp : Block → ℕ
unfolding be32_at
rtp_timestamp b = be32_at b.payload 12

unfoldable pub packet_count : Block → ℕ
unfolding be32_at
packet_count b = be32_at b.payload 16

unfoldable pub octet_count : Block → ℕ
unfolding be32_at
octet_count b = be32_at b.payload 20

-- The report blocks that start at an offset of the payload.
unfoldable pub reports_from : ℕ → Block → List ReportBlock
reports_from start b =
    map parse_report
      (as_chunks report_block_len (slice b.payload start (start + report_block_len * b.count)))

unfoldable pub sender_reports : Block → List ReportBlock
unfolding reports_from
sender_reports b = reports_from sender_info_len b

unfoldable pub receiver_reports : Block → List ReportBlock
unfolding reports_from
receiver_reports b = reports_from 4 b

-- `SenderReport::build`: the result and the buffer that it leaves.
unfoldable pub build_sender_report :
    Bytes → ℕ → ℕ → ℕ → ℕ → ℕ → List ReportBlock → Result RtcpError ℕ × Bytes
unfolding to_be32
build_sender_report out ssrc ntp rtp packets octets reports =
    let total = header_len + sender_info_len + report_block_len * length reports in
    if ltb 31 (length reports)
    then (err (count_overflow (length reports) 31), out)
    else if ltb (length out) total
    then (err (buffer_too_small total (length out)), out)
    else (let (written, head) = write_header out (length reports) pt_sr total in
        elim written [
          | err e ↦ (err e, head)
          | ok _ ↦
              let a = splice head 4 (to_be32 ssrc) in
              let b = splice a 8 (to_be64 ntp) in
              let c = splice b 16 (to_be32 rtp) in
              let d = splice c 20 (to_be32 packets) in
              let e = splice d 24 (to_be32 octets) in (ok total, write_reports e 28 reports)
        ])

-- `ReceiverReport::build`.
unfoldable pub build_receiver_report : Bytes → ℕ → List ReportBlock → Result RtcpError ℕ × Bytes
unfolding to_be32
build_receiver_report out ssrc reports =
    let total = header_len + 4 + report_block_len * length reports in
    if ltb 31 (length reports)
    then (err (count_overflow (length reports) 31), out)
    else if ltb (length out) total
    then (err (buffer_too_small total (length out)), out)
    else (let (written, head) = write_header out (length reports) pt_rr total in
        elim written [
          | err e ↦ (err e, head)
          | ok _ ↦ (ok total, write_reports (splice head 4 (to_be32 ssrc)) 8 reports)
        ])
