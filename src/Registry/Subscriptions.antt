-- ===== src/Registry/Subscriptions.antt =====
-- The part of `update_subscriptions` of crates/wroom-core/src/room.rs that acts on one participant.
use wroom.Common.{
  ℕ, ◌+◌, ◌-◌, List, [], ◌∷◌, map, Option, none, some, not, ◌&&◌, ltb, leb, if◌then◌else◌, length,
}
use wroom.Common.Maps.{Map, contains_key, insert, remove}
use wroom.Common.Sets.{contains, to_set}
use wroom.Registry.Types.{
  TrackRef, Subscription, Participant, Result, ok, err, too_many_subscriptions, stale_revision,
  max_subscriptions_per_participant, track_ref_eq,
}

-- The first counting loop: a key counts as removed if it is held and not upserted again.
unfoldable pub less_removed : Map TrackRef Subscription → List TrackRef → List TrackRef → ℕ → ℕ
less_removed subs upsert_keys [] projected = projected
less_removed subs upsert_keys (t ∷ ts) projected =
    less_removed subs upsert_keys ts
      (if contains_key t subs && not (contains t upsert_keys) then projected - 1 else projected)

-- The second: an upserted key counts as added if it is not held.
unfoldable pub plus_added : Map TrackRef Subscription → List TrackRef → ℕ → ℕ
plus_added subs [] projected = projected
plus_added subs (t ∷ ts) projected =
    plus_added subs ts (if contains_key t subs then projected else projected + 1)

unfoldable pub projected_size : Map TrackRef Subscription → List Subscription → List TrackRef → ℕ
unfolding less_removed plus_added
projected_size subs upsert removed =
    let upsert_keys = to_set (map (λ (s : Subscription). s.track) upsert) in
    let remove_keys = to_set removed in
    plus_added subs upsert_keys (less_removed subs upsert_keys remove_keys (length subs))

unfoldable pub remove_all : Map TrackRef Subscription → List TrackRef → Map TrackRef Subscription
remove_all subs [] = subs
remove_all subs (t ∷ ts) = remove_all (remove t subs) ts

unfoldable pub upsert_all :
    Map TrackRef Subscription → List Subscription → Map TrackRef Subscription
upsert_all subs [] = subs
upsert_all subs (s ∷ ss) = upsert_all (insert s.track s subs) ss

-- `if let Some(applied) = .. && revision <= applied`.
abbrev pub stale_against : Option ℕ → ℕ → Option ℕ
stale_against none revision = none
stale_against (some applied) revision = if leb revision applied then some applied else none

unfoldable pub apply_subscriptions :
    List Subscription → List TrackRef → ℕ → Participant → Result ℕ × Participant
unfolding projected_size remove_all upsert_all
apply_subscriptions upsert removed revision p =
    elim (stale_against p.applied_subscription_revision revision) [
      | some applied ↦ (err (stale_revision applied), p)
      | none ↦
          if ltb max_subscriptions_per_participant (projected_size p.subscriptions upsert removed)
          then (err too_many_subscriptions, p)
          else (
            ok revision,
            record p {
              subscriptions = upsert_all (remove_all p.subscriptions removed) upsert;
              applied_subscription_revision = some revision;
            },
          )
    ]
