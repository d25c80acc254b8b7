-- ===== src/Registry/Projection.antt =====
-- The cap check of `update_subscriptions` projects the size of the table before it changes it. The
-- projection is exact: repeated keys, keys that are not held, and keys both removed and upserted
-- included.
use wroom.Common.{ℕ, ◌+◌, ◌-◌, List, [], ◌∷◌, map, not, ◌&&◌, ◌≡◌, arith, length, ◌==◌}
use wroom.Common.Maps.{
  Map, contains_key, insert, remove, HasDistinctKeys, contains_key-insert, contains_key-remove,
  insert-HasDistinctKeys, remove-HasDistinctKeys, length-insert, length-remove,
}
use wroom.Common.Sets.{
  count, contains, to_set, count_split, count_congr, contains-to_set, to_set-HasNoRepeats,
  count_without, count_swap,
}
use wroom.Registry.Types.{TrackRef, Subscription, track_ref_eq}
use wroom.Registry.Subscriptions.{less_removed, plus_added, projected_size, remove_all, upsert_all}

abbrev Table : Type 0
Table = Map TrackRef Subscription

abbrev pub keys_of : List Subscription → List TrackRef
keys_of = map (λ (s : Subscription). s.track)

less_removed-count :
    (subs : Table) (keys ts : List TrackRef) (n : ℕ)
    → less_removed subs keys ts n ≡ n - count (λ t. contains_key t subs && not (contains t keys)) ts
unfolding less_removed count
less_removed-count subs keys [] n = omega arith
less_removed-count subs keys (t ∷ ts) n =
    ground (arith, less_removed-count subs keys ts n, less_removed-count subs keys ts (n - 1))

plus_added-count :
    (subs : Table) (ts : List TrackRef) (n : ℕ)
    → plus_added subs ts n ≡ n + count (λ t. not (contains_key t subs)) ts
unfolding plus_added count
plus_added-count subs [] n = omega arith
plus_added-count subs (t ∷ ts) n =
    ground (arith, plus_added-count subs ts n, plus_added-count subs ts (n + 1))

pub remove_all-HasDistinctKeys :
    (subs : Table) (ts : List TrackRef)
    → HasDistinctKeys subs
    → HasDistinctKeys (remove_all subs ts)
unfolding remove_all
remove_all-HasDistinctKeys subs [] d = d
remove_all-HasDistinctKeys subs (t ∷ ts) d =
    remove_all-HasDistinctKeys (remove t subs) ts (remove-HasDistinctKeys t subs d)

pub upsert_all-HasDistinctKeys :
    (subs : Table) (ss : List Subscription)
    → HasDistinctKeys subs
    → HasDistinctKeys (upsert_all subs ss)
unfolding upsert_all
upsert_all-HasDistinctKeys subs [] d = d
upsert_all-HasDistinctKeys subs (s ∷ ss) d =
    upsert_all-HasDistinctKeys (insert s.track s subs) ss (insert-HasDistinctKeys s.track s subs d)

pub contains_key-remove_all :
    (k : TrackRef) (subs : Table) (ts : List TrackRef)
    → HasDistinctKeys subs
    → contains_key k (remove_all subs ts) ≡ (not (contains k ts) && contains_key k subs)
unfolding remove_all contains
contains_key-remove_all k subs [] d = ground arith
contains_key-remove_all k subs (t ∷ ts) d = ground (
  arith,
  contains_key-remove_all k (remove t subs) ts (remove-HasDistinctKeys t subs d),
  contains_key-remove t k subs d,
)

-- Each removed key that was held takes one off the size.
length-remove_all :
    (subs : Table) (ts : List TrackRef)
    → HasDistinctKeys subs
    → length (remove_all subs ts) + count (λ t. contains_key t subs) (to_set ts) ≡ length subs
unfolding remove_all to_set count
length-remove_all subs [] d = omega arith
length-remove_all subs (t ∷ ts) d = ground (
  arith,
  length-remove_all (remove t subs) ts (remove-HasDistinctKeys t subs d),
  length-remove t subs,
  count_without t (λ k. contains_key k subs) (to_set ts) (to_set-HasNoRepeats ts),
  count_congr (λ k. contains_key k (remove t subs)) (λ k. not (t == k) && contains_key k subs)
      (to_set ts) (λ k. contains_key-remove t k subs d),
)

-- Each upserted key that was not held adds one.
length-upsert_all :
    (subs : Table) (ss : List Subscription)
    → length (upsert_all subs ss)
      ≡ length subs + count (λ t. not (contains_key t subs)) (to_set (keys_of ss))
unfolding upsert_all to_set count
length-upsert_all subs [] = omega arith
length-upsert_all subs (s ∷ ss) = ground (
  arith,
  length-upsert_all (insert s.track s subs) ss,
  length-insert s.track s subs,
  count_without s.track (λ k. not (contains_key k subs)) (to_set (keys_of ss))
      (to_set-HasNoRepeats (keys_of ss)),
  count_congr (λ k. not (contains_key k (insert s.track s subs)))
      (λ k. not (s.track == k) && not (contains_key k subs)) (to_set (keys_of ss))
      (λ k. ground (arith, contains_key-insert s.track k s subs)),
)

-- For a table without a key twice, the projected size is the size that the table has after the
-- removals and the upserts.
pub projected_size-eq-length :
    (subs : Table) (upsert : List Subscription) (removed : List TrackRef)
    → HasDistinctKeys subs
    → projected_size subs upsert removed ≡ length (upsert_all (remove_all subs removed) upsert)
unfolding projected_size
projected_size-eq-length subs upsert removed d =
    let u = to_set (keys_of upsert) in
    let r = to_set removed in
    ground (
      arith,
      less_removed-count subs u r (length subs),
      plus_added-count subs u (less_removed subs u r (length subs)),
      length-remove_all subs removed d,
      length-upsert_all (remove_all subs removed) upsert,
      count_split (λ t. contains_key t subs) (λ t. contains t u) r,
      count_swap (λ t. contains_key t subs) r u (to_set-HasNoRepeats removed)
          (to_set-HasNoRepeats (keys_of upsert)),
      count_split (λ t. not (contains_key t (remove_all subs removed))) (λ t. contains_key t subs)
          u,
      count_congr (λ t. not (contains_key t (remove_all subs removed)) && contains_key t subs)
          (λ t. contains_key t subs && contains t r) u
          (λ t.
            ground (arith, contains_key-remove_all t subs removed d, contains-to_set t removed)),
      count_congr (λ t. not (contains_key t (remove_all subs removed)) && not (contains_key t subs))
          (λ t. not (contains_key t subs)) u
          (λ t. ground (arith, contains_key-remove_all t subs removed d)),
    )
