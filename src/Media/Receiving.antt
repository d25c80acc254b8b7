-- ===== src/Media/Receiving.antt =====
-- `RecvFeedback` of crates/wroomd/src/media.rs: the receiver-report slots and the window of arrival times
-- of a publisher leg. The leg protects and sends the packets that this makes.
pub mod Deltas
pub mod Window
use wroom.Common.{
  ℕ, zero, suc, ◌+◌, ◌-◌, ◌*◌, ◌/◌, ◌%◌, ◌^◌, Bool, true, false, ◌||◌, ◌&&◌, not, List, [], ◌∷◌,
  Option, none, some, length, take, get_or, set, replicate, ltb, leb, if◌then◌else◌, ◌==◌, nat_eq,
}
use wroom.Common.Bytes.{Bytes}
use wroom.Common.Integers.{ℤ, pos, negsuc, signed, unsigned, div_trunc, ◌-ℤ◌, clamp}
use wroom.Common.Results.{Result, ok, err}
use wroom.Rtp.Extensions.{ExtMap, from_pairs, mid, rid, twcc, abs_send_time, audio_level}
use wroom.Rtp.Packet.{RtpPacket, parse, ssrc, payload_type, sequence_number, timestamp, twcc_seq}
use wroom.Rtcp.Twcc.{TwccStatus, not_received, received}
use wroom.Rtcp.Twcc.Building.{build_twcc}
use wroom.Media.Feedback.{RrSlot, slot_new, record_slot, ahead}

pub record RecvFeedback : Type 0 where
  pub epoch : ℕ
  pub tw_init : Bool
  pub tw_base_seq : ℕ
  pub tw_statuses : List TwccStatus
  pub tw_len : ℕ
  pub tw_fb_count : ℕ
  pub tw_last_flush : ℕ
  pub tw_media_ssrc : ℕ
  pub rr : List RrSlot
  pub rr_len : ℕ
  pub rr_last : ℕ

unfoldable pub feedback_new : ℕ → RecvFeedback
unfolding slot_new
feedback_new now = record {
  epoch = now;
  tw_init = false;
  tw_base_seq = 0;
  tw_statuses = replicate 512 not_received;
  tw_len = 0;
  tw_fb_count = 0;
  tw_last_flush = now;
  tw_media_ssrc = 0;
  rr = replicate 4 (slot_new 0 0 now);
  rr_len = 0;
  rr_last = now;
}

unfoldable pub slot_of : ℕ → List RrSlot → ℕ → Option ℕ
slot_of source [] i = none
slot_of source (s ∷ slots) i =
    let rest = slot_of source slots (suc i) in if s.ssrc == source then some i else rest

-- `min_by_key` on `seen`: the first of the least.
unfoldable pub stalest : List RrSlot → ℕ → ℕ → ℕ → ℕ
stalest [] i best least = best
stalest (s ∷ slots) i best least =
    stalest slots (suc i) (if ltb s.seen least then i else best)
      (if ltb s.seen least then s.seen else least)

unfoldable pub stalest_of : List RrSlot → ℕ
unfolding stalest
stalest_of [] = 0
stalest_of (s ∷ slots) = stalest slots 1 0 s.seen

-- The slot for a source, and the number of slots then in use.
unfoldable pub claim : ℕ → RecvFeedback → ℕ × ℕ
unfolding slot_of stalest_of
claim source rx = elim (slot_of source (take rx.rr_len rx.rr) 0) [
  | some i ↦ (i, rx.rr_len)
  | none ↦
      if ltb rx.rr_len (length rx.rr)
      then (rx.rr_len, suc rx.rr_len)
      else (stalest_of rx.rr, rx.rr_len)
]

abbrev pub clock_rate : ℕ → ℕ
clock_rate payload_type = if payload_type == 111 then 48_000 else 90_000

unfoldable pub arrival_ticks : ℕ → ℕ → ℕ → ℤ
unfolding signed div_trunc
arrival_ticks rate epoch now = div_trunc (signed 64 ((now - epoch) * rate % 2 ^ 64)) 1_000_000_000

unfoldable pub slot_for : ℕ → ℕ → ℕ → RrSlot → RrSlot
unfolding slot_new
slot_for source seq now s =
    if not s.init || not (s.ssrc == source) then slot_new source seq now else s

-- The receiver-report part of `on_rtp`.
unfoldable pub count_rr : RtpPacket → ℕ → RecvFeedback → RecvFeedback
unfolding claim slot_for arrival_ticks record_slot ssrc payload_type sequence_number timestamp
count_rr h now rx =
    let (i, len) = claim (ssrc h) rx in
    let s = slot_for (ssrc h) (sequence_number h) now (get_or rx.rr i (slot_new 0 0 rx.epoch)) in
    let arrival = arrival_ticks (clock_rate (payload_type h)) rx.epoch now in
    record rx {
      rr = set rx.rr i (record_slot (sequence_number h) (timestamp h) arrival now s);
      rr_len = len;
    }

unfoldable pub epoch_ticks : RecvFeedback → ℕ → ℤ
unfolding signed
epoch_ticks rx now = signed 32 ((now - rx.epoch) / 1_000 / 250 % 2 ^ 32)

-- So many statuses, after a number of others, become not received.
unfoldable pub clear : ℕ → ℕ → List TwccStatus → List TwccStatus
clear n k [] = []
clear zero zero (x ∷ xs) = x ∷ xs
clear zero (suc k) (x ∷ xs) = not_received ∷ clear zero k xs
clear (suc n) k (x ∷ xs) = x ∷ clear n k xs

abbrev pub is_not_received : TwccStatus → Bool
is_not_received not_received = true
is_not_received (received at) = false

-- The first packet of a window.
unfoldable pub open_window : ℕ → ℕ → RecvFeedback → RecvFeedback
unfolding epoch_ticks
open_window seq now rx = record rx {
  tw_init = true;
  tw_base_seq = seq;
  tw_last_flush = now;
  tw_statuses = set rx.tw_statuses 0 (received (epoch_ticks rx now));
  tw_len = 1;
}

unfoldable pub extend : ℕ → RecvFeedback → RecvFeedback
unfolding clear
extend d rx =
    if leb rx.tw_len d
    then record rx {
      tw_statuses = clear rx.tw_len (suc d - rx.tw_len) rx.tw_statuses;
      tw_len = suc d;
    }
    else rx

unfoldable pub mark_arrival : ℕ → ℕ → RecvFeedback → RecvFeedback
unfolding epoch_ticks
mark_arrival d now rx =
    if is_not_received (get_or rx.tw_statuses d not_received)
    then record rx { tw_statuses = set rx.tw_statuses d (received (epoch_ticks rx now)) }
    else rx

-- The transport-wide part of `on_rtp`.
unfoldable pub record_twcc : ℕ → ℕ → RecvFeedback → Bool × RecvFeedback
unfolding open_window extend mark_arrival
record_twcc seq now rx =
    if not rx.tw_init
    then (false, open_window seq now rx)
    else let d = ahead seq rx.tw_base_seq in
      if leb (2 ^ 15) d
      then (false, rx)
      else if leb (length rx.tw_statuses) d
      then (true, rx)
      else let rx' = mark_arrival d now (extend d rx) in (leb 400 rx'.tw_len, rx')

abbrev pub leg_extmap : ExtMap
leg_extmap =
    from_pairs ((1, audio_level) ∷ (2, abs_send_time) ∷ (3, twcc) ∷ (4, mid) ∷ (10, rid) ∷ [])

-- `RecvFeedback::on_rtp`: whether to flush, and the state it leaves.
unfoldable pub on_rtp : Bytes → ℕ → RecvFeedback → Bool × RecvFeedback
unfolding count_rr record_twcc parse twcc_seq ssrc
on_rtp plain now rx = elim (parse plain) [
  | err e ↦ (false, rx)
  | ok h ↦ elim (twcc_seq h leg_extmap) [
    | none ↦ (false, count_rr h now rx)
    | some seq ↦ record_twcc seq now (record (count_rr h now rx) { tw_media_ssrc = ssrc h })
  ]
]

unfoldable pub first_tick : List TwccStatus → ℤ
first_tick [] = pos 0
first_tick (not_received ∷ statuses) = first_tick statuses
first_tick (received at ∷ statuses) = at

unfoldable pub deltas_from : ℤ → List TwccStatus → List TwccStatus
unfolding clamp ◌-ℤ◌
deltas_from prev [] = []
deltas_from prev (not_received ∷ statuses) = not_received ∷ deltas_from prev statuses
deltas_from prev (received at ∷ statuses) =
    received (clamp (negsuc 32_767) (pos 32_767) (at -ℤ prev)) ∷ deltas_from at statuses

abbrev pub reference_units : ℤ → ℕ
reference_units base = unsigned 32 (div_trunc base 256) % 2 ^ 24

-- `twcc_to_deltas`: the deltas, and the reference time.
unfoldable pub twcc_to_deltas : List TwccStatus → List TwccStatus × ℕ
unfolding first_tick deltas_from unsigned div_trunc
twcc_to_deltas statuses =
    let ref_time = reference_units (first_tick statuses) in
    (deltas_from (pos (ref_time * 256)) statuses, ref_time)

abbrev pub end_batch : RecvFeedback → RecvFeedback
end_batch rx = record rx { tw_len = 0; tw_init = false }

-- `Shard::flush_twcc`: the packet to protect and send, if any.
unfoldable pub flush_twcc : ℕ → RecvFeedback → Option Bytes × RecvFeedback
unfolding twcc_to_deltas build_twcc
flush_twcc now rx =
    if rx.tw_len == 0
    then (none, rx)
    else let (conv, ref_time) = twcc_to_deltas (take rx.tw_len rx.tw_statuses) in
      let (result, pkt) =
        build_twcc (replicate 2048 0) 1 rx.tw_media_ssrc rx.tw_base_seq ref_time rx.tw_fb_count
          conv in
      elim result [
        | err e ↦ (none, end_batch rx)
        | ok n ↦ (
          some (take n pkt),
          record (end_batch rx) { tw_fb_count = (rx.tw_fb_count + 1) % 2 ^ 8; tw_last_flush = now },
        )
      ]

-- What `on_datagram` does with a decrypted media packet: a full window is flushed, and the packet taken again.
unfoldable pub on_media : Bytes → ℕ → ℕ → RecvFeedback → Option Bytes × RecvFeedback
unfolding on_rtp flush_twcc
on_media plain t0 now rx =
    let (flush, recorded) = on_rtp plain t0 rx in
    let (packet, flushed) = flush_twcc now recorded in
    if flush then (packet, (on_rtp plain t0 flushed).1) else (none, recorded)
