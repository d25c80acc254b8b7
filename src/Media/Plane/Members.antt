-- ===== src/Media/Plane/Members.antt =====
-- The ids of a room's members: how they change with the table of members, and that they stay distinct.
use wroom.Common.{
  ℕ, ◌<◌, ◌≡◌, refl, arith, true, false, [], ◌∷◌, some, ◌==◌, nat_eq, list_eq, All, Bool-cases, inl,
  inr,
}
use wroom.Common.Bytes.{Bytes}
use wroom.Common.Maps.{Map, lookup, insert, remove, contains_key, values}
use wroom.Common.Sets.{contains, HasNoRepeats}
use wroom.Media.Rooms.{MemberCtl}

abbrev pub pids_of : Map Bytes MemberCtl → Map Bytes ℕ
pids_of [] = []
pids_of ((name, m) ∷ members) = (name, m.pid) ∷ pids_of members

pub pids_of-insert :
    (name : Bytes) (m : MemberCtl) (members : Map Bytes MemberCtl)
    → pids_of (insert name m members) ≡ insert name m.pid (pids_of members)
unfolding insert
pids_of-insert name m [] = refl
pids_of-insert name m ((key, old) ∷ members) = ground (arith, pids_of-insert name m members)

pub pids_of-remove :
    (name : Bytes) (members : Map Bytes MemberCtl)
    → pids_of (remove name members) ≡ remove name (pids_of members)
unfolding remove
pids_of-remove name [] = refl
pids_of-remove name ((key, old) ∷ members) = ground (arith, pids_of-remove name members)

pub contains_key-pids_of :
    (name : Bytes) (members : Map Bytes MemberCtl)
    → contains_key name (pids_of members) ≡ contains_key name members
unfolding contains_key
contains_key-pids_of name [] = refl
contains_key-pids_of name ((key, m) ∷ members) = ground (arith, contains_key-pids_of name members)

-- A change of a member that leaves its id leaves all ids.
pub pids_of-insert_same :
    (name : Bytes) (m old : MemberCtl) (members : Map Bytes MemberCtl)
    → lookup name members ≡ some old
    → m.pid ≡ old.pid
    → pids_of (insert name m members) ≡ pids_of members
unfolding insert lookup
pids_of-insert_same name m old [] found same = ground (arith, found)
pids_of-insert_same name m old ((key, x) ∷ members) found same =
    ground (
      arith,
      found,
      same,
      (list_eq {A = ℕ}).decides key name,
      pids_of-insert_same name m old members,
    )

pub contains-pids_of :
    (name : Bytes) (m : MemberCtl) (members : Map Bytes MemberCtl)
    → lookup name members ≡ some m
    → contains m.pid (values (pids_of members)) ≡ true
unfolding lookup values contains
contains-pids_of name m [] found = ground (arith, found)
contains-pids_of name m ((key, x) ∷ members) found =
    ground (arith, found, nat_eq.decides x.pid m.pid, contains-pids_of name m members)

module _ (P : ℕ → Type 0) where
  pub insert-All-values :
      (name : Bytes) (pid : ℕ) (pids : Map Bytes ℕ)
      → All P (values pids)
      → P pid
      → All P (values (insert name pid pids))
  unfolding insert values
  insert-All-values name pid [] all h = (h, tt)
  insert-All-values name pid ((key, x) ∷ pids) all h = elim (Bool-cases (key == name)) [
    | inl hit ↦ rw hit (h, all.1)
    | inr miss ↦ rw miss (all.0, insert-All-values name pid pids all.1 h)
  ]

  pub remove-All-values :
      (name : Bytes) (pids : Map Bytes ℕ) → All P (values pids) → All P (values (remove name pids))
  unfolding remove values
  remove-All-values name [] all = tt
  remove-All-values name ((key, x) ∷ pids) all = elim (Bool-cases (key == name)) [
    | inl hit ↦ rw hit all.1
    | inr miss ↦ rw miss (all.0, remove-All-values name pids all.1)
  ]

  pub All-values_mono :
      (Q : ℕ → Type 0) (pids : Map Bytes ℕ)
      → ((p : ℕ) → P p → Q p)
      → All P (values pids)
      → All Q (values pids)
  unfolding values
  All-values_mono Q [] f all = tt
  All-values_mono Q ((key, x) ∷ pids) f all = (f x all.0, All-values_mono Q pids f all.1)

contains-values-insert :
    (p : ℕ) (name : Bytes) (pid : ℕ) (pids : Map Bytes ℕ)
    → contains p (values pids) ≡ false
    → (pid == p) ≡ false
    → contains p (values (insert name pid pids)) ≡ false
unfolding insert values contains
contains-values-insert p name pid [] h ne = ground (arith, ne)
contains-values-insert p name pid ((key, x) ∷ pids) h ne =
    ground (arith, h, ne, contains-values-insert p name pid pids)

contains-values-remove :
    (p : ℕ) (name : Bytes) (pids : Map Bytes ℕ)
    → contains p (values pids) ≡ false
    → contains p (values (remove name pids)) ≡ false
unfolding remove values contains
contains-values-remove p name [] h = h
contains-values-remove p name ((key, x) ∷ pids) h =
    ground (arith, h, contains-values-remove p name pids)

pub insert-HasNoRepeats :
    (name : Bytes) (pid : ℕ) (pids : Map Bytes ℕ)
    → HasNoRepeats (values pids)
    → contains pid (values pids) ≡ false
    → HasNoRepeats (values (insert name pid pids))
unfolding insert values contains
insert-HasNoRepeats name pid [] d h = (refl, tt)
insert-HasNoRepeats name pid ((key, x) ∷ pids) d h = elim (Bool-cases (key == name)) [
  | inl hit ↦ rw hit (ground (arith, h), d.1)
  | inr miss ↦ rw miss (
    contains-values-insert x name pid pids d.0
        (ground (arith, h, nat_eq.decides x pid, nat_eq.decides pid x)),
    insert-HasNoRepeats name pid pids d.1 (ground (arith, h)),
  )
]

pub remove-HasNoRepeats :
    (name : Bytes) (pids : Map Bytes ℕ)
    → HasNoRepeats (values pids)
    → HasNoRepeats (values (remove name pids))
unfolding remove values
remove-HasNoRepeats name [] d = tt
remove-HasNoRepeats name ((key, x) ∷ pids) d = elim (Bool-cases (key == name)) [
  | inl hit ↦ rw hit d.1
  | inr miss ↦ rw miss (contains-values-remove x name pids d.0, remove-HasNoRepeats name pids d.1)
]

-- An id at the bound is new.
pub below-fresh :
    (b : ℕ) (pids : Map Bytes ℕ) → All (λ p. p < b) (values pids) → contains b (values pids) ≡ false
unfolding values contains
below-fresh b [] all = refl
below-fresh b ((key, x) ∷ pids) all =
    ground (arith, all.0, nat_eq.decides x b, below-fresh b pids all.1)
