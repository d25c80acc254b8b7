-- ===== src/Common/Maps.antt =====
-- `BTreeMap` and `BTreeSet`, as association lists with distinct keys. Only the laws of lookup and
-- size are used: the order of entries is not modelled.
use Prim.Native.Nat.{suc}
use mathlib.Core.Path.{◌≡◌, refl}
use mathlib.Core.Logic.{inl, inr}
use mathlib.Core.Bool.{Bool, true, false, not, ◌&&◌, ◌||◌}
use mathlib.Core.List.{List, [], ◌∷◌}
use mathlib.Core.Option.{Option, none, some}
use native.Mathlib.Omega.{arith}
use wroom.Common.Tests.{if◌then◌else◌, Bool-cases}
use wroom.Common.Equality.{Eq, ◌==◌}
use wroom.Common.Lists.{length, All}

abbrev pub Map {ℓ κ} : Type ℓ → Type κ → Type (ℓ ⊔ κ)
Map K V = List (K × V)

unfoldable pub values {ℓ κ} : {K : Type ℓ} {V : Type κ} → Map K V → List V
values [] = []
values ((k, x) ∷ entries) = x ∷ values entries

module _ {ℓ κ} {K : Type ℓ} {V : Type κ} ⦃e : Eq K⦄ where
  unfoldable pub lookup : K → Map K V → Option V
  lookup k [] = none
  lookup k ((j, v) ∷ entries) = if j == k then some v else lookup k entries

  unfoldable pub contains_key : K → Map K V → Bool
  contains_key k [] = false
  contains_key k ((j, v) ∷ entries) = (j == k) || contains_key k entries

  -- `insert`: an old value under the key is replaced.
  unfoldable pub insert : K → V → Map K V → Map K V
  insert k v [] = (k, v) ∷ []
  insert k v ((j, old) ∷ entries) =
      if j == k then (k, v) ∷ entries else (j, old) ∷ insert k v entries

  unfoldable pub remove : K → Map K V → Map K V
  remove k [] = []
  remove k ((j, old) ∷ entries) = if j == k then entries else (j, old) ∷ remove k entries

  -- No key stands twice.
  abbrev pub HasDistinctKeys : Map K V → Type 0
  HasDistinctKeys [] = Unit
  HasDistinctKeys ((j, old) ∷ entries) = (contains_key j entries ≡ false) × HasDistinctKeys entries

module _ {ℓ κ} {K : Type ℓ} {V : Type κ} ⦃e : Eq K⦄ where
  pub lookup-insert :
      (k j : K) (v : V) (entries : Map K V)
      → lookup j (insert k v entries) ≡ (if k == j then some v else lookup j entries)
  unfolding lookup insert
  lookup-insert k j v [] = refl
  lookup-insert k j v ((i, old) ∷ entries) =
      ground (arith, e.decides k j, e.decides i k, e.decides i j, lookup-insert k j v entries)

  pub contains_key-insert :
      (k j : K) (v : V) (entries : Map K V)
      → contains_key j (insert k v entries) ≡ ((k == j) || contains_key j entries)
  unfolding contains_key insert
  contains_key-insert k j v [] = refl
  contains_key-insert k j v ((i, old) ∷ entries) =
      ground (arith, e.decides k j, e.decides i k, e.decides i j, contains_key-insert k j v entries)

  pub contains_key-remove :
      (k j : K) (entries : Map K V)
      → HasDistinctKeys entries
      → contains_key j (remove k entries) ≡ (not (k == j) && contains_key j entries)
  unfolding contains_key remove
  contains_key-remove k j [] d = ground arith
  contains_key-remove k j ((i, old) ∷ entries) d =
      ground
        (arith, e.decides k j, e.decides i k, e.decides i j, contains_key-remove k j entries d.1)

  pub lookup_absent :
      (k : K) (entries : Map K V) → contains_key k entries ≡ false → lookup k entries ≡ none
  unfolding lookup contains_key
  lookup_absent k [] h = refl
  lookup_absent k ((i, old) ∷ entries) h = ground (arith, lookup_absent k entries)

  pub contains_key-lookup :
      (k : K) (entries : Map K V) (v : V)
      → lookup k entries ≡ some v
      → contains_key k entries ≡ true
  unfolding lookup contains_key
  contains_key-lookup k [] v h = ground arith
  contains_key-lookup k ((i, old) ∷ entries) v h = ground (arith, contains_key-lookup k entries v)

  pub contains_key-none :
      (k : K) (entries : Map K V) → lookup k entries ≡ none → contains_key k entries ≡ false
  unfolding lookup contains_key
  contains_key-none k [] h = refl
  contains_key-none k ((i, old) ∷ entries) h = ground (arith, contains_key-none k entries)

  pub lookup-remove :
      (k j : K) (entries : Map K V)
      → HasDistinctKeys entries
      → lookup j (remove k entries) ≡ (if k == j then none else lookup j entries)
  unfolding lookup remove
  lookup-remove k j [] d = ground arith
  lookup-remove k j ((i, old) ∷ entries) d = ground (
    arith,
    e.decides k j,
    e.decides i k,
    e.decides i j,
    lookup-remove k j entries d.1,
    lookup_absent j entries,
  )

  pub insert-HasDistinctKeys :
      (k : K) (v : V) (entries : Map K V)
      → HasDistinctKeys entries
      → HasDistinctKeys (insert k v entries)
  unfolding insert contains_key
  insert-HasDistinctKeys k v [] d = ground arith
  insert-HasDistinctKeys k v ((i, old) ∷ entries) d = ground (
    arith,
    e.decides i k,
    e.decides k i,
    insert-HasDistinctKeys k v entries d.1,
    contains_key-insert k i v entries,
  )

  pub insert-insert :
      (k : K) (v old : V) (entries : Map K V)
      → insert k v (insert k old entries) ≡ insert k v entries
  unfolding insert
  insert-insert k v old [] = ground (arith, e.decides k k)
  insert-insert k v old ((i, x) ∷ entries) =
      ground (arith, e.decides k k, insert-insert k v old entries)

  pub lookup-insert_self :
      (k : K) (v : V) (entries : Map K V) → lookup k (insert k v entries) ≡ some v
  lookup-insert_self k v entries = ground (arith, lookup-insert k k v entries, e.decides k k)

  pub remove-HasDistinctKeys :
      (k : K) (entries : Map K V) → HasDistinctKeys entries → HasDistinctKeys (remove k entries)
  unfolding remove
  remove-HasDistinctKeys k [] d = tt
  remove-HasDistinctKeys k ((i, old) ∷ entries) d =
      ground (arith, remove-HasDistinctKeys k entries d.1, contains_key-remove k i entries d.1)

  pub remove_absent :
      (k : K) (entries : Map K V) → contains_key k entries ≡ false → remove k entries ≡ entries
  unfolding remove contains_key
  remove_absent k [] h = refl
  remove_absent k ((i, old) ∷ entries) h = ground (arith, remove_absent k entries)

  pub length-insert :
      (k : K) (v : V) (entries : Map K V)
      → length (insert k v entries)
        ≡ (if contains_key k entries then length entries else suc (length entries))
  unfolding insert contains_key
  length-insert k v [] = refl
  length-insert k v ((i, old) ∷ entries) = ground (arith, length-insert k v entries)

  pub length-remove :
      (k : K) (entries : Map K V)
      → (if contains_key k entries
          then suc (length (remove k entries))
          else length (remove k entries))
        ≡ length entries
  unfolding remove contains_key
  length-remove k [] = refl
  length-remove k ((i, old) ∷ entries) = ground (arith, length-remove k entries)

  -- A property of every entry.
  pub insert-All {μ} :
      (P : K × V → Type μ) (k : K) (v : V) (entries : Map K V)
      → All P entries
      → P (k, v)
      → All P (insert k v entries)
  unfolding insert
  insert-All P k v [] a p = (p, tt)
  insert-All P k v ((i, old) ∷ entries) a p = ground (arith, insert-All P k v entries a.1 p)

  pub remove-All {μ} :
      (P : K × V → Type μ) (k : K) (entries : Map K V) → All P entries → All P (remove k entries)
  unfolding remove
  remove-All P k [] a = tt
  remove-All P k ((i, old) ∷ entries) a = ground (arith, remove-All P k entries a.1)

  pub lookup-All {μ} :
      (P : K × V → Type μ) (k : K) (entries : Map K V) {v : V}
      → All P entries
      → lookup k entries ≡ some v
      → P (k, v)
  unfolding lookup
  lookup-All P k [] a h = ground arith
  lookup-All P k ((i, old) ∷ entries) {v} a h = elim (Bool-cases (i == k)) [
    | inl hit ↦
        let key : i ≡ k = (e.decides i k).0 hit in
        let val : old ≡ v = ground arith in rw (← key, ← val) a.0
    | inr miss ↦ lookup-All P k entries a.1 (ground arith)
  ]
