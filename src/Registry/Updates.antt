-- ===== src/Registry/Updates.antt =====
-- What `update_subscriptions`, `publish`, `set_muted` and `leave` change, and that an error changes
-- nothing.
use wroom.Common.{
  ℕ, ◌≤◌, ◌<◌, List, [], ◌∷◌, Option, none, some, ◌≡◌, refl, ◌⊎◌, inl, inr, ◌↔◌, arith, length,
  Option-cases, Bool-cases, nat_eq, list_eq, if◌then◌else◌, ◌==◌, leb,
}
use wroom.Common.Maps.{
  Map, lookup, insert, remove, HasDistinctKeys, lookup-insert, lookup-remove,
  remove-HasDistinctKeys,
}
use wroom.Common.Sets.{contains}
use wroom.Registry.Types.{
  TrackRef, Subscription, Participant, ok, err, stale_revision, too_many_subscriptions,
  max_subscriptions_per_participant, track_ref_eq, RegistryError,
}
use wroom.Registry.Subscriptions.{apply_subscriptions, remove_all, upsert_all}
use wroom.Registry.Projection.{projected_size-eq-length}

-- The last upsert of a track in a batch.
unfoldable pub last_upsert : TrackRef → List Subscription → Option Subscription
last_upsert t [] = none
last_upsert t (s ∷ ss) = elim (last_upsert t ss) [
  | some later ↦ some later
  | none ↦ if s.track == t then some s else none
]

-- What the batch means for one track: an upsert wins over a removal, and the last upsert counts.
abbrev pub updated :
    Map TrackRef Subscription → List Subscription → List TrackRef → TrackRef → Option Subscription
updated subs upsert removed t = elim (last_upsert t upsert) [
  | some s ↦ some s
  | none ↦ if contains t removed then none else lookup t subs
]

lookup-upsert_all :
    (t : TrackRef) (subs : Map TrackRef Subscription) (ss : List Subscription)
    → lookup t (upsert_all subs ss)
      ≡ elim (last_upsert t ss) [ some s ↦ some s | none ↦ lookup t subs ]
unfolding upsert_all last_upsert
lookup-upsert_all t subs [] = refl
lookup-upsert_all t subs (s ∷ ss) =
    ground (arith, lookup-upsert_all t (insert s.track s subs) ss, lookup-insert s.track t s subs)

lookup-remove_all :
    (t : TrackRef) (subs : Map TrackRef Subscription) (ts : List TrackRef)
    → HasDistinctKeys subs
    → lookup t (remove_all subs ts) ≡ (if contains t ts then none else lookup t subs)
unfolding remove_all contains
lookup-remove_all t subs [] d = refl
lookup-remove_all t subs (k ∷ ts) d = ground (
  arith,
  lookup-remove_all t (remove k subs) ts (remove-HasDistinctKeys k subs d),
  lookup-remove k t subs d,
)

-- The revision is newer than the one applied before, if there is one.
abbrev pub IsNewer : ℕ → Option ℕ → Type 0
IsNewer revision none = Unit
IsNewer revision (some applied) = applied < revision

module _ (upsert : List Subscription) (removed : List TrackRef) (revision : ℕ)
    (p : Participant) where
  abbrev pub size_after : ℕ
  size_after = length (upsert_all (remove_all p.subscriptions removed) upsert)

  -- For subscriptions without a key twice: a batch is applied exactly when its revision is newer than
  -- the one applied before and the table that it leads to fits 2048 entries.
  pub apply_subscriptions_ok_iff :
      HasDistinctKeys p.subscriptions
      → ((apply_subscriptions upsert removed revision p).0 ≡ ok revision) ↔ (
          IsNewer revision p.applied_subscription_revision
          × (size_after ≤ max_subscriptions_per_participant))
  unfolding apply_subscriptions
  apply_subscriptions_ok_iff d = elim (Option-cases p.applied_subscription_revision) [
    | inl e ↦
        rw (e, apply_subscriptions)
          (ground (arith, projected_size-eq-length p.subscriptions upsert removed d))
    | inr (applied, e) ↦
        rw (e, apply_subscriptions)
          (ground (arith, projected_size-eq-length p.subscriptions upsert removed d))
  ]

  -- For subscriptions without a key twice: after a batch that is applied, each track's subscription is
  -- what the batch says of it, the revision is stored, and the published tracks are as before.
  pub lookup-apply_subscriptions :
      (t : TrackRef)
      → HasDistinctKeys p.subscriptions
      → (apply_subscriptions upsert removed revision p).0 ≡ ok revision
      → (lookup t (apply_subscriptions upsert removed revision p).1.subscriptions
          ≡ updated p.subscriptions upsert removed t)
        × ((apply_subscriptions upsert removed revision p).1.applied_subscription_revision
            ≡ some revision)
        × ((apply_subscriptions upsert removed revision p).1.tracks ≡ p.tracks)
  unfolding apply_subscriptions
  lookup-apply_subscriptions t d h = ground (
    arith,
    lookup-upsert_all t (remove_all p.subscriptions removed) upsert,
    lookup-remove_all t p.subscriptions removed d,
  )

  -- For subscriptions without a key twice: a batch that is refused changes nothing, and the error says
  -- why: the revision applied before, which is not older, or a table over the cap.
  pub apply_subscriptions_err :
      (e : RegistryError)
      → HasDistinctKeys p.subscriptions
      → (apply_subscriptions upsert removed revision p).0 ≡ err e
      → ((apply_subscriptions upsert removed revision p).1 ≡ p)
        × (((applied : ℕ) × (e ≡ stale_revision applied)
              × (p.applied_subscription_revision ≡ some applied)
              × (revision ≤ applied))
            ⊎ ((e ≡ too_many_subscriptions) × (max_subscriptions_per_participant < size_after)))
  unfolding apply_subscriptions
  apply_subscriptions_err e d h = elim (Option-cases p.applied_subscription_revision) [
    | inl n ↦ (
      ground arith,
      inr (ground (arith, projected_size-eq-length p.subscriptions upsert removed d)),
    )
    | inr (applied, s) ↦ elim (Bool-cases (leb revision applied)) [
      | inl stale ↦ (ground arith, inl (applied, ground (arith, h), ground arith, ground arith))
      | inr newer ↦ (
        ground arith,
        inr (ground (arith, projected_size-eq-length p.subscriptions upsert removed d)),
      )
    ]
  ]
