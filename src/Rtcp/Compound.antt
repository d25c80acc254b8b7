-- ===== src/Rtcp/Compound.antt =====
-- `RtcpPacket` and the walk over a compound datagram in crates/wroom-edge/src/rtcp.rs.
pub mod Walking
use wroom.Common.{
  ℕ, zero, suc, Bool, true, false, ◌||◌, ◌&&◌, List, [], ◌∷◌, Option, none, some, nat_beq,
  if◌then◌else◌, length, drop,
}
use wroom.Common.Bytes.{Bytes}
use wroom.Common.Results.{Result, ok, err, ◌>>=◌}
use wroom.Rtcp.Block.{
  RtcpError, Block, parse, pt_sr, pt_rr, pt_sdes, pt_bye, pt_rtpfb, pt_psfb, fmt_nack, fmt_twcc,
  fmt_pli, fmt_fir, fmt_afb,
}
use wroom.Rtcp.Reports
use wroom.Rtcp.Sources
use wroom.Rtcp.Feedback
use wroom.Rtcp.Twcc

pub data RtcpKind : Type 0 where
  sender_report receiver_report sdes bye nack pli fir remb other : Block → RtcpKind
  twcc : Twcc.Twcc → RtcpKind

pub record RtcpPacket : Type 0 where
  pub block : Block
  pub kind : RtcpKind

abbrev pub is_fmt : Block → ℕ → ℕ → Bool
is_fmt b packet_type fmt = nat_beq b.packet_type packet_type && nat_beq b.count fmt

-- The match on the packet type and the count of a block.
unfoldable pub kind_of_block : Block → Result RtcpError RtcpKind
unfolding Reports.sender_report Reports.receiver_report Sources.bye Feedback.feedback_block
    Feedback.remb Feedback.is_remb Twcc.from_block
kind_of_block b =
    if nat_beq b.packet_type pt_sr
    then (Reports.sender_report b >>= λ v. ok (sender_report v))
    else if nat_beq b.packet_type pt_rr
    then (Reports.receiver_report b >>= λ v. ok (receiver_report v))
    else if nat_beq b.packet_type pt_sdes
    then ok (sdes b)
    else if nat_beq b.packet_type pt_bye
    then (Sources.bye b >>= λ v. ok (bye v))
    else if is_fmt b pt_rtpfb fmt_nack
    then (Feedback.feedback_block b >>= λ v. ok (nack v))
    else if is_fmt b pt_rtpfb fmt_twcc
    then (Twcc.from_block b >>= λ v. ok (twcc v))
    else if is_fmt b pt_psfb fmt_pli
    then (Feedback.feedback_block b >>= λ v. ok (pli v))
    else if is_fmt b pt_psfb fmt_fir
    then (Feedback.feedback_block b >>= λ v. ok (fir v))
    else if is_fmt b pt_psfb fmt_afb
    then (if Feedback.is_remb b then (Feedback.remb b >>= λ v. ok (remb v)) else ok (other b))
    else ok (other b)

unfoldable pub packet_of_block : Block → Result RtcpError RtcpPacket
unfolding kind_of_block
packet_of_block b = kind_of_block b >>= λ kind. ok (record { block = b; kind = kind })

-- `RtcpPacket::parse`: the first block of a datagram.
unfoldable pub parse_packet : Bytes → Result RtcpError RtcpPacket
unfolding parse packet_of_block
parse_packet buf = parse buf >>= packet_of_block

pub record PacketIter : Type 0 where
  pub rest : Bytes
  pub done : Bool

unfoldable pub packets : Bytes → PacketIter
packets datagram = record { rest = datagram; done = false }

abbrev pub is_empty : Bytes → Bool
is_empty [] = true
is_empty (b ∷ buf) = false

-- `PacketIter::next`, with the iterator that it leaves.
unfoldable pub next : PacketIter → Option (Result RtcpError RtcpPacket) × PacketIter
unfolding parse packet_of_block
next it = if it.done || is_empty it.rest then (none, it) else elim (parse it.rest) [
  | err e ↦ (some (err e), record it { done = true })
  | ok b ↦
      let advanced = record it { rest = drop b.block_len it.rest } in
      elim (packet_of_block b) [
        | ok p ↦ (some (ok p), advanced)
        | err e ↦ (some (err e), record advanced { done = true })
      ]
]

-- What a `for` loop sees, for at most so many rounds, and whether the iterator has ended by then.
unfoldable pub collect : ℕ → PacketIter → List (Result RtcpError RtcpPacket) × Bool
unfolding next
collect zero it = ([], false)
collect (suc fuel) it =
    let (item, after) = next it in
    let (items, ended) = collect fuel after in
    elim item [ none ↦ ([], true) | some r ↦ (r ∷ items, ended) ]
