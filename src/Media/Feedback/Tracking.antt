-- ===== src/Media/Feedback/Tracking.antt =====
-- What a packet does to the counters of a source that has been heard before.
use wroom.Common.{
  ℕ, ◌+◌, ◌-◌, ◌%◌, ◌^◌, ◌<◌, ◌≡◌, refl, ◌∙◌, arith, Bool, true, ltb, leb, if◌then◌else◌, ◌||◌,
}
use wroom.Common.Integers.{ℤ, pos, ◌-ℤ◌}
use wroom.Media.Feedback.{RrSlot, ahead, move_mark, jitter_with, record_slot, ext_max}

module _ (seq : ℕ) (rtp_ts : ℕ) (arrival : ℤ) (now : ℕ) (s : RrSlot) (heard : s.init ≡ true)
    (seq_small : seq < 2 ^ 16) (max_small : s.max_seq < 2 ^ 16) where
  abbrev distance : ℕ
  distance = ahead seq s.max_seq

  abbrev is_next : Bool
  is_next = ltb distance 3000

  abbrev is_misordered : Bool
  is_misordered = leb distance (2 ^ 16 - 100)

  move_mark_lem :
      (t : ℤ)
      → (ext_max (move_mark seq t s) ≡ (
          if is_next
          then (ext_max s + distance) % 2 ^ 32
          else if is_misordered
          then ext_max s
          else seq))
        × (((move_mark seq t s).base_seq ≡ (if is_next || is_misordered then s.base_seq else seq))
            × ((move_mark seq t s).received ≡ (if is_next || is_misordered then s.received else 0)))
  unfolding move_mark ext_max
  move_mark_lem t = ground (arith, seq_small, max_small)

  abbrev recorded : RrSlot
  recorded = record_slot seq rtp_ts arrival now s

  abbrev tracked : RrSlot
  tracked = move_mark seq (arrival -ℤ pos rtp_ts) s

  recorded-tracked :
      (ext_max recorded ≡ ext_max tracked)
      × ((recorded.base_seq ≡ tracked.base_seq)
          × (recorded.received ≡ (tracked.received + 1) % 2 ^ 32))
  unfolding record_slot jitter_with ext_max
  recorded-tracked = rw heard (refl, (refl, refl))

  -- For a source heard before, and 16-bit sequence numbers: a packet less than 3000 ahead of the
  -- highest sequence number moves the extended highest one by that distance, over a wrap of the 16
  -- bits too, and any other up to 2^16 - 100 ahead leaves it; both add one to the packets received.
  -- A packet further ahead, which is from 1 to 99 behind, makes its own number the base and the
  -- highest, and itself the one packet received.
  pub record_slot-ext_max :
      (ext_max recorded ≡ (
        if is_next
        then (ext_max s + distance) % 2 ^ 32
        else if is_misordered
        then ext_max s
        else seq))
      × ((recorded.base_seq ≡ (if is_next || is_misordered then s.base_seq else seq))
          × (recorded.received
              ≡ (if is_next || is_misordered then (s.received + 1) % 2 ^ 32 else 1)))
  record_slot-ext_max =
      let same = recorded-tracked in
      let moved = move_mark_lem (arrival -ℤ pos rtp_ts) in
      (same.0 ∙ moved.0, (same.1.0 ∙ moved.1.0, same.1.1 ∙ ground (arith, moved.1.1)))
