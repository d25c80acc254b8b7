-- ===== src/Rtcp/Examples.antt =====
-- The theorems on RTCP at concrete inputs.
use wroom.Common.{◌+◌, ◌*◌, ◌/◌, ◌≡◌, arith, true, [], ◌∷◌, length, take, replicate}
use wroom.Common.Bytes.{Bytes}
use wroom.Common.Integers.{negsuc}
use wroom.Common.Results.{ok}
use wroom.Rtcp.Block.{Block}
use wroom.Rtcp.Compound.{collect, packets, parse_packet, nack, receiver_report}
use wroom.Rtcp.Compound.Walking.{IsWalk, collect-IsWalk}
use wroom.Rtcp.Feedback.{NackEntry, build_nack, nack_entries, sender_ssrc, media_ssrc}
use wroom.Rtcp.Feedback.Written.{build_nack-parse_packet}
use wroom.Rtcp.Reports.{ReportBlock, build_receiver_report, receiver_reports, report_ssrc}
use wroom.Rtcp.Reports.Receiver.{build_receiver_report-parse_packet}

-- An empty receiver report, a PLI, and two bytes that are no block.
abbrev compound : Bytes
compound =
    0x80 ∷ 201 ∷ 0 ∷ 1 ∷ 0 ∷ 0 ∷ 0 ∷ 7 ∷ 0x81 ∷ 206 ∷ 0 ∷ 2 ∷ 0 ∷ 0 ∷ 0 ∷ 7 ∷ 0 ∷ 0 ∷ 0 ∷ 9 ∷ 0x80
    ∷ 201 ∷ []

collect-IsWalk_example :
    ((collect (length compound / 4 + 2) (packets compound)).1 ≡ true)
    × IsWalk compound (collect (length compound / 4 + 2) (packets compound)).0
collect-IsWalk_example = collect-IsWalk compound

abbrev lossy : NackEntry
lossy = record { pid = 65535; blp = 5 }

abbrev scratch : Bytes
scratch = replicate 40 0xff

build_nack-parse_packet_example :
    (b : Block) × (out' : Bytes) × (build_nack scratch 7 9 (lossy ∷ []) ≡ (ok (12 + 4 * 1), out'))
    × (parse_packet (take (12 + 4 * 1) out') ≡ ok (record { block = b; kind = nack b }))
    × (sender_ssrc b ≡ 7)
    × (media_ssrc b ≡ 9)
    × (nack_entries b ≡ lossy ∷ [])
build_nack-parse_packet_example =
    build_nack-parse_packet scratch 7 9 (lossy ∷ []) (omega arith) (omega arith)
      ((omega arith, omega arith), tt) (omega arith) (omega arith)

abbrev duplicated : ReportBlock
duplicated = record {
  ssrc = 9;
  fraction_lost = 0;
  cumulative_lost = negsuc 2;
  highest_seq = 70000;
  jitter = 12;
  lsr = 0;
  dlsr = 0;
}

build_receiver_report-parse_packet_example :
    (b : Block) × (out' : Bytes) × (build_receiver_report scratch 7 (duplicated ∷ [])
      ≡ (ok (8 + 24 * 1), out'))
    × (parse_packet (take (8 + 24 * 1) out') ≡ ok (record { block = b; kind = receiver_report b }))
    × (report_ssrc b ≡ 7)
    × (receiver_reports b ≡ duplicated ∷ [])
build_receiver_report-parse_packet_example =
    build_receiver_report-parse_packet scratch 7 (duplicated ∷ []) (omega arith)
      (
        (omega arith, omega arith, omega arith, omega arith, omega arith, omega arith, omega arith),
        tt,
      )
      (omega arith) (omega arith)
