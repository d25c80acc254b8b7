-- ===== src/Ice/Agent/Timeouts.antt =====
-- The timer of the agent: when it is due and what it purges.
use wroom.Common.{
  ℕ, ◌+◌, ◌≤◌, ◌<◌, List, [], ◌∷◌, Option, none, some, ◌≡◌, refl, arith, inl, inr, Option-cases, ap,
}
use wroom.Ice.Addresses.{SocketAddr}
use wroom.Ice.Agent.{
  IceLiteAgent, Pair, pair_ttl, pair_count, first_deadline, is_stale, purged, earlier, poll_timeout,
  handle_timeout,
}

module _ (selected : Option SocketAddr) (now : ℕ) where
  pair_count-purged :
      (ps : List (Option Pair)) → pair_count (purged selected now ps) ≤ pair_count ps
  unfolding pair_count purged
  pair_count-purged [] = omega arith
  pair_count-purged (none ∷ ps) = pair_count-purged ps
  pair_count-purged (some p ∷ ps) = ground (arith, pair_count-purged ps)

  -- Once the first deadline is over a pair goes.
  purged-progress :
      (ps : List (Option Pair)) (d : ℕ)
      → first_deadline selected ps ≡ some d
      → d < now
      → pair_count (purged selected now ps) < pair_count ps
  unfolding first_deadline purged pair_count is_stale earlier
  purged-progress [] d h over = absurd (ground (arith, h))
  purged-progress (none ∷ ps) d h over = purged-progress ps d h over
  purged-progress (some p ∷ ps) d h over = elim (Option-cases (first_deadline selected ps)) [
    | inl e ↦ ground (arith, e, h, over, pair_count-purged ps)
    | inr (d', e) ↦ ground (arith, e, h, over, pair_count-purged ps, purged-progress ps d' e)
  ]

  -- What is left is due later.
  purged-later :
      (ps : List (Option Pair)) (d : ℕ)
      → first_deadline selected (purged selected now ps) ≡ some d
      → now ≤ d
  unfolding first_deadline purged is_stale earlier
  purged-later [] d h = absurd (ground (arith, h))
  purged-later (none ∷ ps) d h = purged-later ps d h
  purged-later (some p ∷ ps) d h =
      elim (Option-cases (first_deadline selected (purged selected now ps))) [
        | inl e ↦ ground (arith, e, h)
        | inr (d', e) ↦ ground (arith, e, h, purged-later ps d' e)
      ]

  -- Up to the first deadline nothing goes.
  purged-early :
      (ps : List (Option Pair))
      → ((d : ℕ) → first_deadline selected ps ≡ some d → now ≤ d)
      → purged selected now ps ≡ ps
  unfolding first_deadline purged is_stale earlier
  purged-early [] h = refl
  purged-early (none ∷ ps) h = ap (λ t. none ∷ t) (purged-early ps h)
  purged-early (some p ∷ ps) h =
      let due = p.last_seen + pair_ttl in
      let rest = purged-early ps (λ d e. ground (arith, e, h d, h due)) in
      elim (Option-cases (first_deadline selected ps)) [
        | inl e ↦ ground (arith, e, h due, rest)
        | inr (d, e) ↦ ground (arith, e, h d, h due, rest)
      ]

-- At the deadline that `poll_timeout` gives, `handle_timeout` purges nothing, so that the deadline stays;
-- at any later instant it purges a pair or more, and the next deadline is not before that instant.
pub handle_timeout-progress :
    (a : IceLiteAgent) (d : ℕ)
    → poll_timeout a ≡ some d
    → ((handle_timeout d a).pairs ≡ a.pairs)
      × ((now : ℕ)
          → d < now
          → (pair_count (handle_timeout now a).pairs < pair_count a.pairs)
            × ((d' : ℕ) → poll_timeout (handle_timeout now a) ≡ some d' → now ≤ d'))
unfolding poll_timeout handle_timeout
handle_timeout-progress a d h = (
  purged-early a.selected d a.pairs (λ d' e. ground (arith, e, h)),
  λ now over. (
    purged-progress a.selected now a.pairs d h over,
    λ d' e. purged-later a.selected now a.pairs d' e,
  ),
)
