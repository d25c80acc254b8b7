-- ===== src/Media/Receiving/Window.antt =====
-- The window of arrival times as a function of the sequence number: what is left in the slots beyond the
-- window from earlier ones does not show.
use wroom.Common.{
  ℕ, zero, suc, ◌+◌, ◌-◌, ◌^◌, ◌<◌, ◌≡◌, refl, ap, ◌∙◌, arith, true, false, ◌&&◌, ◌||◌, List, [],
  ◌∷◌, length, get_or, set, ltb, leb, if◌then◌else◌, ◌==◌, nat_eq, Bool-cases, inl, inr,
}
use wroom.Rtcp.Twcc.{TwccStatus, not_received, received}
use wroom.Media.Feedback.{ahead}
use wroom.Media.Receiving.{
  RecvFeedback, clear, extend, mark_arrival, is_not_received, epoch_ticks, open_window, record_twcc,
}

get_or-set :
    (xs : List TwccStatus) (i j : ℕ) (v : TwccStatus)
    → i < length xs
    → get_or (set xs i v) j not_received ≡ (if i == j then v else get_or xs j not_received)
get_or-set [] i j v h = absurd (omega (arith, h))
get_or-set (x ∷ xs) zero zero v h = ground arith
get_or-set (x ∷ xs) zero (suc j) v h = ground arith
get_or-set (x ∷ xs) (suc i) zero v h = ground arith
get_or-set (x ∷ xs) (suc i) (suc j) v h = ground (arith, get_or-set xs i j v (omega (arith, h)))

get_or-clear :
    (n k e : ℕ) (xs : List TwccStatus)
    → get_or (clear n k xs) e not_received
      ≡ (if leb n e && ltb e (n + k) then not_received else get_or xs e not_received)
unfolding clear
get_or-clear n k e [] = ground arith
get_or-clear zero zero e (x ∷ xs) = ground arith
get_or-clear zero (suc k) zero (x ∷ xs) = ground arith
get_or-clear zero (suc k) (suc e) (x ∷ xs) = ground (arith, get_or-clear zero k e xs)
get_or-clear (suc n) k zero (x ∷ xs) = ground arith
get_or-clear (suc n) k (suc e) (x ∷ xs) = ground (arith, get_or-clear n k e xs)

pub length-clear : (n k : ℕ) (xs : List TwccStatus) → length (clear n k xs) ≡ length xs
unfolding clear
length-clear n k [] = refl
length-clear zero zero (x ∷ xs) = refl
length-clear zero (suc k) (x ∷ xs) = ap suc (length-clear zero k xs)
length-clear (suc n) k (x ∷ xs) = ap suc (length-clear n k xs)

-- The status of the packet at a distance from the base of the window.
abbrev pub status : RecvFeedback → ℕ → TwccStatus
status rx e = if ltb e rx.tw_len then get_or rx.tw_statuses e not_received else not_received

extend-status : (d e : ℕ) (rx : RecvFeedback) → status (extend d rx) e ≡ status rx e
unfolding extend
extend-status d e rx = elim (Bool-cases (leb rx.tw_len d)) [
  | inl grows ↦
      rw grows (ground (arith, grows, get_or-clear rx.tw_len (suc d - rx.tw_len) e rx.tw_statuses))
  | inr inside ↦ rw inside refl
]

extend_size :
    (d : ℕ) (rx : RecvFeedback)
    → (length (extend d rx).tw_statuses ≡ length rx.tw_statuses) × (d < (extend d rx).tw_len)
unfolding extend
extend_size d rx = elim (Bool-cases (leb rx.tw_len d)) [
  | inl grows ↦ rw grows (length-clear rx.tw_len (suc d - rx.tw_len) rx.tw_statuses, omega arith)
  | inr inside ↦ rw inside (refl, ground (arith, inside))
]

mark_arrival-status :
    (d e now : ℕ) (rx : RecvFeedback)
    → d < length rx.tw_statuses
    → d < rx.tw_len
    → status (mark_arrival d now rx) e ≡ (
        if (d == e) && is_not_received (status rx d)
        then received (epoch_ticks rx now)
        else status rx e)
unfolding mark_arrival
mark_arrival-status d e now rx h h' =
    ground (arith, h, h', get_or-set rx.tw_statuses d e (received (epoch_ticks rx now)) h)

-- The arrival of a packet within the window.
abbrev arrived : ℕ → ℕ → RecvFeedback → RecvFeedback
arrived d now rx = mark_arrival d now (extend d rx)

epoch_ticks-extend :
    (d now : ℕ) (rx : RecvFeedback) → epoch_ticks (extend d rx) now ≡ epoch_ticks rx now
unfolding extend epoch_ticks
epoch_ticks-extend d now rx = elim (Bool-cases (leb rx.tw_len d)) [
  | inl grows ↦ rw grows refl
  | inr inside ↦ rw inside refl
]

arrived-status :
    (d e now : ℕ) (rx : RecvFeedback)
    → d < length rx.tw_statuses
    → status (arrived d now rx) e ≡ (
        if (d == e) && is_not_received (status rx d)
        then received (epoch_ticks rx now)
        else status rx e)
arrived-status d e now rx h =
    let size = extend_size d rx in
    mark_arrival-status d e now (extend d rx) (omega (arith, size.0, h)) size.1
    ∙ ground (arith, extend-status d e rx, extend-status d d rx, epoch_ticks-extend d now rx)

arrived_len :
    (d now : ℕ) (rx : RecvFeedback)
    → leb 400 (arrived d now rx).tw_len ≡ (leb 399 d || leb 400 rx.tw_len)
unfolding mark_arrival extend
arrived_len d now rx = ground arith

pub first :
    (seq now : ℕ) (rx : RecvFeedback)
    → rx.tw_init ≡ false
    → record_twcc seq now rx ≡ (false, open_window seq now rx)
unfolding record_twcc
first seq now rx off = ground (arith, off)

module _ (seq now : ℕ) (rx : RecvFeedback) (begun : rx.tw_init ≡ true) where
  abbrev distance : ℕ
  distance = ahead seq rx.tw_base_seq

  pub older : leb (2 ^ 15) distance ≡ true → record_twcc seq now rx ≡ (false, rx)
  unfolding record_twcc
  older e = ground (arith, begun, e)

  pub beyond :
      leb (2 ^ 15) distance ≡ false
      → leb (length rx.tw_statuses) distance ≡ true
      → record_twcc seq now rx ≡ (true, rx)
  unfolding record_twcc
  beyond e e' = ground (arith, begun, e, e')

  pub within :
      leb (2 ^ 15) distance ≡ false
      → leb (length rx.tw_statuses) distance ≡ false
      → record_twcc seq now rx ≡ (leb 400 (arrived distance now rx).tw_len, arrived distance now rx)
  unfolding record_twcc
  within e e' = ground (arith, begun, e, e')

  -- In a window that has begun, the arrival of a packet changes one status and no other: that of its own
  -- sequence number, if this lies ahead of the base and within the slots and had not been received before. A
  -- flush is asked for exactly when the packet lies ahead of the base and beyond the slots, or is ahead and
  -- then at least 400 statuses are in the window.
  pub record_twcc-status :
      (e : ℕ)
      → (status (record_twcc seq now rx).1 e ≡ (
          if (ltb distance (2 ^ 15) && ltb distance (length rx.tw_statuses))
            && ((distance == e) && is_not_received (status rx distance))
          then received (epoch_ticks rx now)
          else status rx e))
        × ((record_twcc seq now rx).0 ≡ (
            ltb distance (2 ^ 15)
            && (leb (length rx.tw_statuses) distance || (leb 399 distance || leb 400 rx.tw_len))))
  record_twcc-status e = elim (Bool-cases (leb (2 ^ 15) distance)) [
    | inl old ↦ rw (older old) (ground (arith, old), ground (arith, old))
    | inr new ↦ elim (Bool-cases (leb (length rx.tw_statuses) distance)) [
      | inl far ↦ rw (beyond new far) (ground (arith, far), ground (arith, new, far))
      | inr near ↦ rw (within new near) (
        ground (arith, new, near, arrived-status distance e now rx (ground (arith, near))),
        ground (arith, new, near, arrived_len distance now rx),
      )
    ]
  ]
