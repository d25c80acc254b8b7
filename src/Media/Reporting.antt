-- ===== src/Media/Reporting.antt =====
-- The reports that `Shard` of crates/wroomd/src/media.rs sends to a publisher leg, and the sender reports
-- that it takes from one.
pub mod Fitting
pub mod Bounded
pub mod Contained
use wroom.Common.{
  ℕ, zero, suc, ◌+◌, ◌-◌, Bool, true, false, ◌&&◌, List, [], ◌∷◌, ◌++◌, Option, none, some, length,
  take, drop, replicate, ltb, leb, if◌then◌else◌, ◌==◌, nat_eq,
}
use wroom.Common.Bytes.{Bytes}
use wroom.Common.Results.{Result, ok, err}
use wroom.Rtcp.Block.{RtcpError, Block}
use wroom.Rtcp.Reports.{ReportBlock, report_ssrc, ntp_middle, build_receiver_report}
use wroom.Rtcp.Sources.{build_cname}
use wroom.Rtcp.Compound.{RtcpPacket, RtcpKind, sender_report, packets, collect}
use wroom.Media.Feedback.{RrSlot, report}
use wroom.Media.Receiving.{RecvFeedback, flush_twcc}

-- The first slot of a source takes the time of its sender report.
unfoldable pub note_report : Block → ℕ → ℕ → List RrSlot → List RrSlot
unfolding report_ssrc ntp_middle
note_report sr now zero slots = slots
note_report sr now (suc n) [] = []
note_report sr now (suc n) (s ∷ slots) =
    let rest = note_report sr now n slots in
    if s.ssrc == report_ssrc sr
    then record s { lsr = ntp_middle sr; lsr_at = some now } ∷ slots
    else s ∷ rest

unfoldable pub note_kind : RtcpKind → ℕ → RecvFeedback → RecvFeedback
unfolding note_report
note_kind (sender_report sr) now rx = record rx { rr = note_report sr now rx.rr_len rx.rr }
note_kind _ now rx = rx

-- The loop of `on_rtcp`, which an error ends.
unfoldable pub note_each : ℕ → List (Result RtcpError RtcpPacket) → RecvFeedback → RecvFeedback
unfolding note_kind
note_each now [] rx = rx
note_each now (err e ∷ items) rx = rx
note_each now (ok p ∷ items) rx = note_each now items (note_kind p.kind now rx)

-- `RecvFeedback::on_rtcp`: a datagram has at most as many packets as bytes.
unfoldable pub on_rtcp : Bytes → ℕ → RecvFeedback → RecvFeedback
unfolding note_each collect packets
on_rtcp plain now rx = note_each now (collect (suc (length plain)) (packets plain)).0 rx

unfoldable pub twcc_due : ℕ → RecvFeedback → Bool
twcc_due now rx = ltb 0 rx.tw_len && leb 50_000_000 (now - rx.tw_last_flush)

unfoldable pub rr_due : ℕ → RecvFeedback → Bool
rr_due now rx = ltb 0 rx.rr_len && leb 1_000_000_000 (now - rx.rr_last)

-- The reports of the slots in use, and all slots after them.
unfoldable pub report_each : (ℕ → ℕ) → ℕ → ℕ → List RrSlot → List ReportBlock × List RrSlot
unfolding report
report_each dlsr now zero slots = ([], slots)
report_each dlsr now (suc n) [] = ([], [])
report_each dlsr now (suc n) (s ∷ slots) =
    let (r, s') = report dlsr now s in
    let (reports, slots') = report_each dlsr now n slots in (r ∷ reports, s' ∷ slots')

abbrev cname : Bytes
cname = b'w' ∷ b'r' ∷ b'o' ∷ b'o' ∷ b'm' ∷ b'd' ∷ []

-- The receiver report with the name after it, if there is room for that.
unfoldable pub compound_report : List ReportBlock → Option Bytes
unfolding build_receiver_report build_cname
compound_report reports =
    let (result, pkt) = build_receiver_report (replicate 512 0) 1 reports in
    elim result [
      | err e ↦ none
      | ok n ↦
          let (named, tail) = build_cname (drop n pkt) 1 cname in
          elim named [ err e ↦ some (take n pkt) | ok m ↦ some (take n pkt ++ take m tail) ]
    ]

-- `Shard::send_rr`: the packet to protect and send, if any.
unfoldable pub send_rr : (ℕ → ℕ) → ℕ → RecvFeedback → Option Bytes × RecvFeedback
unfolding rr_due report_each compound_report
send_rr dlsr now rx =
    let (reports, slots) = report_each dlsr now rx.rr_len rx.rr in
    if rr_due now rx
    then (compound_report reports, record rx { rr_last = now; rr = slots })
    else (none, rx)

-- What `on_tick` does for a publisher leg: the feedback, the report, and the state. The flush reads the clock
-- anew.
unfoldable pub on_leg_tick :
    (ℕ → ℕ) → ℕ → ℕ → RecvFeedback → Option Bytes × Option Bytes × RecvFeedback
unfolding twcc_due flush_twcc send_rr
on_leg_tick dlsr now later rx =
    let (packet, flushed) = if twcc_due now rx then flush_twcc later rx else (none, rx) in
    let (sent, reported) = send_rr dlsr now flushed in (packet, sent, reported)
