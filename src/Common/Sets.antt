-- ===== src/Common/Sets.antt =====
-- `BTreeSet` as a list without repetition, and counting the elements that pass a test.
use Prim.Native.Nat.{ℕ, suc, ◌+◌}
use mathlib.Core.Path.{◌≡◌, refl, sym}
use mathlib.Core.Bool.{Bool, false, not, ◌&&◌, ◌||◌}
use mathlib.Core.List.{List, [], ◌∷◌}
use native.Mathlib.Omega.{arith}
use wroom.Common.Tests.{if◌then◌else◌}
use wroom.Common.Equality.{Eq, ◌==◌}

module _ {ℓ} {A : Type ℓ} where
  -- How many elements pass the test.
  unfoldable pub count : (A → Bool) → List A → ℕ
  count p [] = 0
  count p (x ∷ xs) = if p x then suc (count p xs) else count p xs

  pub count_split :
      (p q : A → Bool) (xs : List A)
      → count p xs ≡ count (λ x. p x && q x) xs + count (λ x. p x && not (q x)) xs
  unfolding count
  count_split p q [] = refl
  count_split p q (x ∷ xs) = ground (arith, count_split p q xs)

  pub count_congr : (p q : A → Bool) (xs : List A) → ((a : A) → p a ≡ q a) → count p xs ≡ count q xs
  unfolding count
  count_congr p q [] h = refl
  count_congr p q (x ∷ xs) h = ground (arith, h x, count_congr p q xs h)

  pub count_none : (p : A → Bool) (xs : List A) → ((a : A) → p a ≡ false) → count p xs ≡ 0
  unfolding count
  count_none p [] h = refl
  count_none p (x ∷ xs) h = ground (arith, h x, count_none p xs h)

module _ {ℓ} {A : Type ℓ} ⦃e : Eq A⦄ where
  unfoldable pub contains : A → List A → Bool
  contains a [] = false
  contains a (x ∷ xs) = (x == a) || contains a xs

  -- `iter().collect::<BTreeSet<_>>()`.
  unfoldable pub to_set : List A → List A
  to_set [] = []
  to_set (x ∷ xs) = let rest = to_set xs in if contains x rest then rest else x ∷ rest

  abbrev pub HasNoRepeats : List A → Type 0
  HasNoRepeats [] = Unit
  HasNoRepeats (x ∷ xs) = (contains x xs ≡ false) × HasNoRepeats xs

module _ {ℓ} {A : Type ℓ} ⦃e : Eq A⦄ where
  pub contains-to_set : (a : A) (xs : List A) → contains a (to_set xs) ≡ contains a xs
  unfolding contains to_set
  contains-to_set a [] = refl
  contains-to_set a (x ∷ xs) =
      ground (arith, e.decides x a, contains-to_set a xs, contains-to_set x xs)

  pub to_set-HasNoRepeats : (xs : List A) → HasNoRepeats (to_set xs)
  unfolding to_set
  to_set-HasNoRepeats [] = tt
  to_set-HasNoRepeats (x ∷ xs) = ground (arith, to_set-HasNoRepeats xs)

  pub count_absent :
      (a : A) (p : A → Bool) (xs : List A)
      → contains a xs ≡ false
      → count (λ x. not (a == x) && p x) xs ≡ count p xs
  unfolding count contains
  count_absent a p [] h = refl
  count_absent a p (x ∷ xs) h = ground (arith, e.decides x a, e.decides a x, count_absent a p xs)

  -- Leaving one element out of the count takes one off, if it was there and passed.
  pub count_without :
      (a : A) (p : A → Bool) (xs : List A)
      → HasNoRepeats xs
      → count p xs ≡ count (λ x. not (a == x) && p x) xs + (if contains a xs && p a then 1 else 0)
  unfolding count contains
  count_without a p [] d = refl
  count_without a p (x ∷ xs) d =
      ground (arith, e.decides x a, e.decides a x, count_without a p xs d.1, count_absent a p xs)

  -- The common elements can be counted in either list.
  pub count_swap :
      (p : A → Bool) (xs ys : List A)
      → HasNoRepeats xs
      → HasNoRepeats ys
      → count (λ x. p x && contains x ys) xs ≡ count (λ y. p y && contains y xs) ys
  unfolding count contains
  count_swap p [] ys dx dy = sym (count_none (λ y. p y && contains y []) ys (λ y. ground arith))
  count_swap p (x ∷ xs) ys dx dy = ground (
    arith,
    count_swap p xs ys dx.1 dy,
    count_without x (λ y. p y && contains y (x ∷ xs)) ys dy,
    count_without x (λ y. p y && contains y xs) ys dy,
    count_congr (λ y. not (x == y) && (p y && contains y (x ∷ xs)))
        (λ y. not (x == y) && (p y && contains y xs)) ys (λ y. ground arith),
    e.decides x x,
  )
