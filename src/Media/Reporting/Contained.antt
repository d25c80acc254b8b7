-- ===== src/Media/Reporting/Contained.antt =====
-- The feedback of a leg over everything that reaches it.
use wroom.Common.{
  ℕ, zero, suc, ◌<◌, ◌≡◌, refl, ap, ◌∙◌, arith, Bool-cases, inl, inr, List, [], ◌∷◌, length,
  length-replicate, nat_eq,
}
use wroom.Common.Bytes.{Bytes}
use wroom.Common.Results.{Result, ok, err}
use wroom.Rtcp.Block.{RtcpError, Block}
use wroom.Rtcp.Twcc.{not_received}
use wroom.Rtcp.Compound.{RtcpPacket, RtcpKind, sender_report, packets, collect}
use wroom.Media.Feedback.{RrSlot, slot_new}
use wroom.Media.Receiving.{RecvFeedback, feedback_new, flush_twcc, on_media}
use wroom.Media.Reporting.{
  note_report, note_kind, note_each, on_rtcp, report_each, rr_due, twcc_due, send_rr, on_leg_tick,
}
use wroom.Media.Reporting.Bounded.{IsSized, on_media-IsSized, flush_twcc-IsSized}

-- What reaches a publisher leg: a decrypted media packet, a decrypted control datagram, or a tick.
pub data Input : Type 0 where
  media : Bytes → ℕ → ℕ → Input
  control : Bytes → ℕ → Input
  tick : ℕ → ℕ → Input

abbrev pub take_input : (ℕ → ℕ) → Input → RecvFeedback → RecvFeedback
take_input dlsr (media plain t0 now) rx = (on_media plain t0 now rx).1
take_input dlsr (control plain now) rx = on_rtcp plain now rx
take_input dlsr (tick now later) rx = (on_leg_tick dlsr now later rx).2

abbrev pub take_inputs : (ℕ → ℕ) → List Input → RecvFeedback → RecvFeedback
take_inputs dlsr [] rx = rx
take_inputs dlsr (i ∷ is) rx = take_inputs dlsr is (take_input dlsr i rx)

-- Within the arrays, and with fewer statuses than the bound at which a window is flushed.
abbrev pub IsContained : RecvFeedback → Type 0
IsContained rx = IsSized rx × (rx.tw_len < 400)

length-note_report :
    (sr : Block) (now n : ℕ) (slots : List RrSlot)
    → length (note_report sr now n slots) ≡ length slots
unfolding note_report
length-note_report sr now zero slots = refl
length-note_report sr now (suc n) [] = refl
length-note_report sr now (suc n) (s ∷ slots) = ground (arith, length-note_report sr now n slots)

note_kind-IsContained :
    (k : RtcpKind) (now : ℕ) (rx : RecvFeedback) → IsContained rx → IsContained (note_kind k now rx)
unfolding note_kind
note_kind-IsContained (sender_report sr) now rx ((slots, used, statuses, begun), few) =
    ((length-note_report sr now rx.rr_len rx.rr ∙ slots, used, statuses, begun), few)
note_kind-IsContained _ now rx held = held

note_each-IsContained :
    (now : ℕ) (items : List (Result RtcpError RtcpPacket)) (rx : RecvFeedback)
    → IsContained rx
    → IsContained (note_each now items rx)
unfolding note_each
note_each-IsContained now [] rx held = held
note_each-IsContained now (err e ∷ items) rx held = held
note_each-IsContained now (ok p ∷ items) rx held =
    note_each-IsContained now items (note_kind p.kind now rx)
      (note_kind-IsContained p.kind now rx held)

slots_reported :
    (dlsr : ℕ → ℕ) (now n : ℕ) (slots : List RrSlot)
    → length (report_each dlsr now n slots).1 ≡ length slots
unfolding report_each
slots_reported dlsr now zero slots = refl
slots_reported dlsr now (suc n) [] = refl
slots_reported dlsr now (suc n) (s ∷ slots) = ap suc (slots_reported dlsr now n slots)

send_rr-IsContained :
    (dlsr : ℕ → ℕ) (now : ℕ) (rx : RecvFeedback)
    → IsContained rx
    → IsContained (send_rr dlsr now rx).1
unfolding send_rr
send_rr-IsContained dlsr now rx held = elim (Bool-cases (rr_due now rx)) [
  | inl due ↦
      rw due
        ((slots_reported dlsr now rx.rr_len rx.rr ∙ held.0.0, held.0.1, held.0.2, held.0.3), held.1)
  | inr early ↦ rw early held
]

on_leg_tick-IsContained :
    (dlsr : ℕ → ℕ) (now later : ℕ) (rx : RecvFeedback)
    → IsContained rx
    → IsContained (on_leg_tick dlsr now later rx).2
unfolding on_leg_tick
on_leg_tick-IsContained dlsr now later rx held = elim (Bool-cases (twcc_due now rx)) [
  | inl due ↦
      let (sized, void) = flush_twcc-IsSized later rx held.0 in
      rw due (send_rr-IsContained dlsr now (flush_twcc later rx).1 (sized, omega (arith, void)))
  | inr early ↦ rw early (send_rr-IsContained dlsr now rx held)
]

take_inputs-IsContained :
    (dlsr : ℕ → ℕ) (is : List Input) (rx : RecvFeedback)
    → IsContained rx
    → IsContained (take_inputs dlsr is rx)
unfolding on_rtcp
take_inputs-IsContained dlsr [] rx held = held
take_inputs-IsContained dlsr (media plain t0 now ∷ is) rx held =
    take_inputs-IsContained dlsr is (on_media plain t0 now rx).1
      (on_media-IsSized plain t0 now rx held)
take_inputs-IsContained dlsr (control plain now ∷ is) rx held =
    take_inputs-IsContained dlsr is (on_rtcp plain now rx)
      (note_each-IsContained now (collect (suc (length plain)) (packets plain)).0 rx held)
take_inputs-IsContained dlsr (tick now later ∷ is) rx held =
    take_inputs-IsContained dlsr is (on_leg_tick dlsr now later rx).2
      (on_leg_tick-IsContained dlsr now later rx held)

-- From the start, under any media packets, control datagrams and ticks: a leg keeps its four slots and 512
-- statuses, uses at most four slots, has a window of fewer than 400 statuses, and this has begun exactly
-- when it is not empty.
pub take_inputs-feedback_new :
    (dlsr : ℕ → ℕ) (now : ℕ) (is : List Input)
    → IsContained (take_inputs dlsr is (feedback_new now))
unfolding feedback_new
take_inputs-feedback_new dlsr now is = take_inputs-IsContained dlsr is (feedback_new now) (
  (length-replicate 4 (slot_new 0 0 now), omega arith, length-replicate 512 not_received, refl),
  omega arith,
)
