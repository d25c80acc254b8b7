-- ===== src/Media/Receiving/Deltas.antt =====
-- The deltas that `twcc_to_deltas` makes give the arrival times back.
use wroom.Common.{ℕ, ◌*◌, ◌/◌, ◌%◌, ◌^◌, ◌<◌, ◌≡◌, refl, ap, arith, List, [], ◌∷◌}
use wroom.Common.Integers.{
  ℤ, pos, negsuc, ◌+ℤ◌, ◌-ℤ◌, clamp, FitsSigned, add-sub_cancel, unsigned, div_trunc,
}
use wroom.Rtcp.Twcc.{TwccStatus, not_received, received}
use wroom.Media.Receiving.{first_tick, deltas_from, reference_units, twcc_to_deltas}

-- What a reader of the feedback makes of the deltas: each is added to the arrival before it.
abbrev pub undeltas : ℤ → List TwccStatus → List TwccStatus
undeltas prev [] = []
undeltas prev (not_received ∷ statuses) = not_received ∷ undeltas prev statuses
undeltas prev (received d ∷ statuses) = received (prev +ℤ d) ∷ undeltas (prev +ℤ d) statuses

-- Each arrival lies less than 2^15 ticks from the one before it in the window.
abbrev pub AreNear : ℤ → List TwccStatus → Type 0
AreNear prev [] = Unit
AreNear prev (not_received ∷ statuses) = AreNear prev statuses
AreNear prev (received at ∷ statuses) = FitsSigned 16 (at -ℤ prev) × AreNear at statuses

-- The first arrival is a number of ticks below 2^31, and the others are near.
abbrev pub IsSteady : List TwccStatus → Type 0
IsSteady [] = Unit
IsSteady (not_received ∷ statuses) = IsSteady statuses
IsSteady (received (pos n) ∷ statuses) = (n < 2 ^ 31) × AreNear (pos n) statuses
IsSteady (received (negsuc n) ∷ statuses) = ⊥

clamp_fits : (d : ℤ) → FitsSigned 16 d → clamp (negsuc 32_767) (pos 32_767) d ≡ d
unfolding clamp
clamp_fits (pos n) h = ground (arith, h)
clamp_fits (negsuc n) h = ground (arith, h)

undeltas-deltas_from :
    (prev : ℤ) (statuses : List TwccStatus)
    → AreNear prev statuses
    → undeltas prev (deltas_from prev statuses) ≡ statuses
unfolding deltas_from
undeltas-deltas_from prev [] near = refl
undeltas-deltas_from prev (not_received ∷ statuses) near =
    ap (λ (rest : List TwccStatus). not_received ∷ rest) (undeltas-deltas_from prev statuses near)
undeltas-deltas_from prev (received at ∷ statuses) near =
    rw (clamp_fits (at -ℤ prev) near.0, add-sub_cancel prev at)
      (ap (λ (rest : List TwccStatus). received at ∷ rest)
        (undeltas-deltas_from at statuses near.1))

-- The reference time is the first arrival in units of 256 ticks.
reference_units_small : (n : ℕ) → n < 2 ^ 31 → reference_units (pos n) ≡ n / 256
unfolding unsigned div_trunc
reference_units_small n h = omega (arith, h)

first_near : (n : ℕ) → FitsSigned 16 (pos n -ℤ pos (n / 256 * 256))
unfolding ◌-ℤ◌
first_near n =
    let rest : pos n -ℤ pos (n / 256 * 256) ≡ pos (n % 256) = ground arith in rw rest (omega arith)

IsSteady-AreNear :
    (statuses : List TwccStatus)
    → IsSteady statuses
    → AreNear (pos (reference_units (first_tick statuses) * 256)) statuses
unfolding first_tick
IsSteady-AreNear [] steady = tt
IsSteady-AreNear (not_received ∷ statuses) steady = IsSteady-AreNear statuses steady
IsSteady-AreNear (received (pos n) ∷ statuses) steady =
    rw (reference_units_small n steady.0) (first_near n, steady.1)
IsSteady-AreNear (received (negsuc n) ∷ statuses) steady = absurd steady

-- For a window whose first arrival is below 2^31 ticks and whose arrivals lie less than 2^15 ticks from one
-- another in turn, a reader that adds up the deltas from the reference time gets the arrival times back.
pub undeltas-twcc_to_deltas :
    (statuses : List TwccStatus)
    → IsSteady statuses
    → undeltas (pos ((twcc_to_deltas statuses).1 * 256)) (twcc_to_deltas statuses).0 ≡ statuses
unfolding twcc_to_deltas
undeltas-twcc_to_deltas statuses steady =
    undeltas-deltas_from (pos (reference_units (first_tick statuses) * 256)) statuses
      (IsSteady-AreNear statuses steady)
