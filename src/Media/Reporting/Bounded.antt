-- ===== src/Media/Reporting/Bounded.antt =====
-- The feedback of a leg stays within its arrays, whatever the peer sends.
use wroom.Common.{
  ℕ, suc, ◌-◌, ◌^◌, ◌<◌, ◌≤◌, ◌≡◌, refl, ap, ◌∙◌, arith, Bool, true, false, ltb, leb, Bool-cases,
  inl, inr, Option-cases, length, take, replicate, ◌==◌, nat_eq, length-set, get_or,
}
use wroom.Common.Bytes.{Bytes}
use wroom.Common.Results.{Result-cases}
use wroom.Rtcp.Twcc.{not_received, received}
use wroom.Rtp.Packet.{RtpPacket, parse, twcc_seq, ssrc}
use wroom.Rtcp.Twcc.Building.{build_twcc}
use wroom.Media.Feedback.{ahead}
use wroom.Media.Receiving.{
  RecvFeedback, slot_of, claim, count_rr, extend, mark_arrival, open_window, record_twcc,
  leg_extmap, twcc_to_deltas, epoch_ticks, is_not_received, on_rtp, end_batch, flush_twcc, on_media,
}
use wroom.Media.Receiving.Window.{first, older, beyond, within, length-clear}

-- Four slots, of which those in use are among them, 512 statuses, and a window that has begun exactly when
-- there is something in it.
abbrev pub IsSized : RecvFeedback → Type 0
IsSized rx =
    (length rx.rr ≡ 4)
    × (rx.rr_len ≤ 4)
    × (length rx.tw_statuses ≡ 512)
    × (rx.tw_init ≡ ltb 0 rx.tw_len)

claim_len :
    (source : ℕ) (rx : RecvFeedback) → length rx.rr ≡ 4 → rx.rr_len ≤ 4 → (claim source rx).1 ≤ 4
unfolding claim
claim_len source rx slots used = elim (Option-cases (slot_of source (take rx.rr_len rx.rr) 0)) [
  | inl e ↦ rw (e, claim) (ground (arith, slots, used))
  | inr (i, e) ↦ rw (e, claim) used
]

count_rr-IsSized :
    (h : RtpPacket) (now : ℕ) (rx : RecvFeedback) → IsSized rx → IsSized (count_rr h now rx)
unfolding count_rr
count_rr-IsSized h now rx (slots, used, statuses, begun) =
    (length-set rx.rr _ _ ∙ slots, claim_len (ssrc h) rx slots used, statuses, begun)

count_rr_window :
    (h : RtpPacket) (now : ℕ) (rx : RecvFeedback) → (count_rr h now rx).tw_len ≡ rx.tw_len
unfolding count_rr
count_rr_window h now rx = refl

open_window-IsSized :
    (seq now : ℕ) (rx : RecvFeedback) → IsSized rx → IsSized (open_window seq now rx)
unfolding open_window
open_window-IsSized seq now rx (slots, used, statuses, begun) = (
  slots,
  used,
  length-set rx.tw_statuses 0 (received (epoch_ticks rx now)) ∙ statuses,
  ground arith,
)

extend-IsSized :
    (d : ℕ) (rx : RecvFeedback) → IsSized rx → rx.tw_init ≡ true → IsSized (extend d rx)
unfolding extend
extend-IsSized d rx (slots, used, statuses, begun) on = elim (Bool-cases (leb rx.tw_len d)) [
  | inl grows ↦ rw grows (
    slots,
    used,
    length-clear rx.tw_len (suc d - rx.tw_len) rx.tw_statuses ∙ statuses,
    ground (arith, on),
  )
  | inr inside ↦ rw inside (slots, used, statuses, begun)
]

mark_arrival-IsSized :
    (d now : ℕ) (rx : RecvFeedback) → IsSized rx → IsSized (mark_arrival d now rx)
unfolding mark_arrival
mark_arrival-IsSized d now rx (slots, used, statuses, begun) =
    elim (Bool-cases (is_not_received (get_or rx.tw_statuses d not_received))) [
      | inl e ↦ rw e (
        slots,
        used,
        length-set rx.tw_statuses d (received (epoch_ticks rx now)) ∙ statuses,
        begun,
      )
      | inr e ↦ rw e (slots, used, statuses, begun)
    ]

record_twcc-IsSized :
    (seq now : ℕ) (rx : RecvFeedback) → IsSized rx → IsSized (record_twcc seq now rx).1
record_twcc-IsSized seq now rx sized =
    let d = ahead seq rx.tw_base_seq in
    elim (Bool-cases rx.tw_init) [
      | inr off ↦ rw (first seq now rx off) (open_window-IsSized seq now rx sized)
      | inl on ↦ elim (Bool-cases (leb (2 ^ 15) d)) [
        | inl old ↦ rw (older seq now rx on old) sized
        | inr new ↦ elim (Bool-cases (leb (length rx.tw_statuses) d)) [
          | inl far ↦ rw (beyond seq now rx on new far) sized
          | inr near ↦
              rw (within seq now rx on new near)
                (mark_arrival-IsSized d now (extend d rx) (extend-IsSized d rx sized on))
        ]
      ]
    ]

record_twcc_few :
    (seq now : ℕ) (rx : RecvFeedback)
    → rx.tw_len < 400
    → (record_twcc seq now rx).0 ≡ false
    → (record_twcc seq now rx).1.tw_len < 400
unfolding record_twcc open_window extend mark_arrival
record_twcc_few seq now rx few stays = ground (arith, few, stays)

on_rtp-IsSized :
    (plain : Bytes) (now : ℕ) (rx : RecvFeedback)
    → IsSized rx
    → IsSized (on_rtp plain now rx).1
      × (rx.tw_len < 400 → (on_rtp plain now rx).0 ≡ false → (on_rtp plain now rx).1.tw_len < 400)
      × (rx.tw_init ≡ false → (on_rtp plain now rx).0 ≡ false)
unfolding on_rtp
on_rtp-IsSized plain now rx sized = elim (Result-cases (parse plain)) [
  | inl (e, bad) ↦
      let outcome : on_rtp plain now rx ≡ (false, rx) = rw (bad, on_rtp) refl in
      rw outcome (sized, λ few stays. few, λ off. refl)
  | inr (h, good) ↦
      let rx' = count_rr h now rx in
      let counted = count_rr-IsSized h now rx sized in
      let window = count_rr_window h now rx in
      elim (Option-cases (twcc_seq h leg_extmap)) [
        | inl plainly ↦
            let outcome : on_rtp plain now rx ≡ (false, rx') = rw (good, plainly, on_rtp) refl in
            rw outcome (counted, λ few stays. rw window few, λ off. refl)
        | inr (seq, marked) ↦
            let about = record rx' { tw_media_ssrc = ssrc h } in
            let outcome : on_rtp plain now rx ≡ record_twcc seq now about =
              rw (good, marked, on_rtp) refl in
            rw outcome (
              record_twcc-IsSized seq now about counted,
              λ few stays. record_twcc_few seq now about (rw window few) stays,
              λ off.
                  ap (λ (r : Bool × RecvFeedback). r.0)
                    (first seq now about (unfold count_rr in off)),
            )
      ]
]

end_batch-IsSized : (rx : RecvFeedback) → IsSized rx → IsSized (end_batch rx)
end_batch-IsSized rx (slots, used, statuses, begun) = (slots, used, statuses, ground arith)

-- A window that is flushed is empty.
pub flush_twcc-IsSized :
    (now : ℕ) (rx : RecvFeedback)
    → IsSized rx
    → IsSized (flush_twcc now rx).1 × ((flush_twcc now rx).1.tw_len ≡ 0)
unfolding flush_twcc
flush_twcc-IsSized now rx sized = elim (Bool-cases (rx.tw_len == 0)) [
  | inl none_yet ↦ rw none_yet (sized, ground (arith, none_yet))
  | inr some_yet ↦
      let conv = twcc_to_deltas (take rx.tw_len rx.tw_statuses) in
      let ended = end_batch-IsSized rx sized in
      elim (Result-cases
        (build_twcc (replicate 2048 0) 1 rx.tw_media_ssrc rx.tw_base_seq conv.1 rx.tw_fb_count
          conv.0).0) [
            | inl (e, failed) ↦ rw (some_yet, failed) (ended, refl)
            | inr (n, built) ↦ rw (some_yet, built) (ended, refl)
          ]
]

pub on_media-IsSized :
    (plain : Bytes) (t0 now : ℕ) (rx : RecvFeedback)
    → IsSized rx × (rx.tw_len < 400)
    → IsSized (on_media plain t0 now rx).1 × ((on_media plain t0 now rx).1.tw_len < 400)
unfolding on_media on_rtp
on_media-IsSized plain t0 now rx (sized, few) =
    let (recorded, stays, _) = on_rtp-IsSized plain t0 rx sized in
    elim (Bool-cases (on_rtp plain t0 rx).0) [
      | inl flush ↦
          let rx' = (flush_twcc now (on_rtp plain t0 rx).1).1 in
          let (flushed, void) = flush_twcc-IsSized now (on_rtp plain t0 rx).1 recorded in
          let (anew, few', begins) = on_rtp-IsSized plain t0 rx' flushed in
          let off : rx'.tw_init ≡ false = flushed.3 ∙ ground (arith, void) in
          let outcome : (on_media plain t0 now rx).1 ≡ (on_rtp plain t0 rx').1 =
            rw (flush, on_media) refl in
          rw outcome (anew, few' (omega (arith, void)) (begins off))
      | inr keep ↦
          let outcome : (on_media plain t0 now rx).1 ≡ (on_rtp plain t0 rx).1 =
            rw (keep, on_media) refl in
          rw outcome (recorded, stays few keep)
    ]
