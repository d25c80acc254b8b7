-- ===== src/Media/Plane/Following.antt =====
-- One room at the router and at a shard: which tables of the shard follow the router's, and that a join, a
-- departure and a table of wants keep it so.
use wroom.Common.{
  ℕ, suc, ◌%◌, ◌<◌, ◌≡◌, refl, sym, ap, ◌∙◌, arith, Bool, true, false, [], ◌∷◌, Option, none, some,
  if◌then◌else◌, ◌==◌, nat_eq, list_eq, All, Bool-cases, Option-cases, inl, inr, subst,
}
use wroom.Common.Bytes.{Bytes}
use wroom.Common.Equality.{list_beq_iff}
use wroom.Common.Maps.{
  Map, lookup, insert, remove, contains_key, values, HasDistinctKeys, lookup-insert, lookup-remove,
  contains_key-insert, lookup-insert_self, contains_key-remove, insert-HasDistinctKeys,
  remove-HasDistinctKeys, contains_key-none, lookup_absent,
}
use wroom.Common.Sets.{contains, HasNoRepeats}
use wroom.Common.Results.{ok}
use wroom.Media.Messages.{WantSet, WantsTable}
use wroom.Media.Rooms.{MemberCtl, RoomCtl, resolve_wants, wants_of_members, resolved_wants}
use wroom.Media.Router.{admit}
use wroom.Media.Fanout.{MemberShard, RoomShard, rebuild_fanout}
use wroom.Media.Fanout.Rebuilt.{Kept, IsBuilt, rebuild_fanout-IsBuilt}
use wroom.Media.Shards.{add_local, add_member, drop_member, insert_all, set_wants}
use wroom.Media.Plane.Members.{
  pids_of, pids_of-insert, pids_of-remove, contains_key-pids_of, insert-All-values,
  remove-All-values, All-values_mono, insert-HasNoRepeats, remove-HasNoRepeats, below-fresh,
}

-- The members of a room have names and ids of their own, and the ids are below the next one.
pub record IsSound (r : RoomCtl) : Type 0 where
  pub keys : HasDistinctKeys r.members
  pub fresh : HasNoRepeats (values (pids_of r.members))
  pub below : All (λ p. p < r.next_pid) (values (pids_of r.members))

-- Whether an id has shard `i` as its home.
abbrev pub is_home : ℕ → ℕ → Option ℕ → Bool
is_home i n none = false
is_home i n (some pid) = pid % n == i

pub record Follows (i n : ℕ) (room : Bytes) (r : RoomCtl) (q : RoomShard) : Type 0 where
  pub named : q.name ≡ room
  pub same_pids : q.pids ≡ pids_of r.members
  pub bound : q.max_pid ≡ r.next_pid
  pub distinct : HasDistinctKeys q.locals
  pub homes :
      (name : Bytes) → contains_key name q.locals ≡ is_home i n (lookup name (pids_of r.members))

pids_of-HasDistinctKeys :
    (members : Map Bytes MemberCtl) → HasDistinctKeys members → HasDistinctKeys (pids_of members)
pids_of-HasDistinctKeys [] d = tt
pids_of-HasDistinctKeys ((name, m) ∷ members) d =
    (contains_key-pids_of name members ∙ d.0, pids_of-HasDistinctKeys members d.1)

pub admit-IsSound : (n : ℕ) (name : Bytes) (r : RoomCtl) → IsSound r → IsSound (admit n name r)
unfolding admit
admit-IsSound n name r sound = record {
  keys = insert-HasDistinctKeys name _ r.members sound.keys;
  fresh = rw (pids_of-insert name _ r.members) (
      insert-HasNoRepeats name r.next_pid (pids_of r.members) sound.fresh
        (below-fresh r.next_pid (pids_of r.members) sound.below));
  below = rw (pids_of-insert name _ r.members) (
      insert-All-values (λ p. p < suc r.next_pid) name r.next_pid (pids_of r.members)
        (All-values_mono (λ p. p < r.next_pid) (λ p. p < suc r.next_pid) (pids_of r.members)
          (λ p h. omega (arith, h)) sound.below)
        (omega arith));
}

pub remove-IsSound :
    (name : Bytes) (r : RoomCtl)
    → IsSound r
    → IsSound (record r { members = remove name r.members })
remove-IsSound name r sound = record {
  keys = remove-HasDistinctKeys name r.members sound.keys;
  fresh =
      rw (pids_of-remove name r.members) (remove-HasNoRepeats name (pids_of r.members) sound.fresh);
  below =
      rw (pids_of-remove name r.members)
        (remove-All-values (λ p. p < r.next_pid) name (pids_of r.members) sound.below);
}

module _ (i n : ℕ) (room : Bytes) where
  Follows-Kept :
      (r : RoomCtl) (q after : RoomShard)
      → Follows i n room r q
      → Kept q after
      → Follows i n room r after
  Follows-Kept r q after f (name, pids, locals, wants, max) = record {
    named = name ∙ f.named;
    same_pids = pids ∙ f.same_pids;
    bound = max ∙ f.bound;
    distinct = subst (λ (m : Map Bytes MemberShard). HasDistinctKeys m) (sym locals) f.distinct;
    homes = λ key. ap (λ (m : Map Bytes MemberShard). contains_key key m) locals ∙ f.homes key;
  }

  -- The rebuild succeeds, and keeps what follows.
  pub Follows-IsBuilt :
      (r : RoomCtl) (q : RoomShard)
      → IsSound r
      → Follows i n room r q
      → (after : RoomShard) × (rebuild_fanout n q ≡ ok after)
        × Follows i n room r after
        × IsBuilt n after
        × (after.wants ≡ q.wants)
  Follows-IsBuilt r q sound f =
      let fresh =
        subst (λ (m : Map Bytes ℕ). HasNoRepeats (values m)) (sym f.same_pids) sound.fresh in
      let below =
        subst (λ (b : ℕ). All (λ p. p < b) (values q.pids)) (sym f.bound)
          (subst (λ (m : Map Bytes ℕ). All (λ p. p < r.next_pid) (values m)) (sym f.same_pids)
            sound.below) in
      let (after, e, kept, built) = rebuild_fanout-IsBuilt n q fresh below in
      (after, e, Follows-Kept r q after f kept, built, kept.3)

  add_local-distinct :
      (name : Bytes) (pid : ℕ) (reply : Option ℕ) (locals : Map Bytes MemberShard)
      → HasDistinctKeys locals
      → HasDistinctKeys (add_local name pid reply locals)
  unfolding add_local
  add_local-distinct name pid none locals d = d
  add_local-distinct name pid (some reply) locals d = insert-HasDistinctKeys name _ locals d

  -- A new member's leg has a place where its channel is given.
  add_local-homes :
      (name key : Bytes) (pid reply : ℕ) (pids : Map Bytes ℕ) (locals : Map Bytes MemberShard)
      → contains_key name pids ≡ false
      → ((key : Bytes) → contains_key key locals ≡ is_home i n (lookup key pids))
      → contains_key key (add_local name pid (if i == pid % n then some reply else none) locals)
        ≡ is_home i n (lookup key (insert name pid pids))
  unfolding add_local
  add_local-homes name key pid reply pids locals absent homes =
      let away : contains_key name locals ≡ false =
        homes name ∙ ap (is_home i n) (lookup_absent name pids absent) in
      rw (lookup-insert name key pid pids) (elim (Bool-cases (i == pid % n)) [
        | inl near ↦
            rw (near, contains_key-insert name key (record { pid = pid; reply = reply }) locals)
              (ground (arith, homes key, near))
        | inr far ↦ rw far (ground (arith, homes key, far, away, list_beq_iff name key))
      ])

  pub admit-Follows :
      (name : Bytes) (reply : ℕ) (r : RoomCtl) (q : RoomShard)
      → contains_key name r.members ≡ false
      → Follows i n room r q
      → Follows i n room
          (admit n name r)
          (add_member name r.next_pid (if i == r.next_pid % n then some reply else none) q)
  unfolding admit add_member
  admit-Follows name reply r q absent f = record {
    named = f.named;
    same_pids = ap (insert name r.next_pid) f.same_pids ∙ sym (pids_of-insert name _ r.members);
    bound = ground (arith, f.bound);
    distinct = add_local-distinct name r.next_pid _ q.locals f.distinct;
    homes = λ key. rw (pids_of-insert name _ r.members) (
        add_local-homes name key r.next_pid reply (pids_of r.members) q.locals
          (contains_key-pids_of name r.members ∙ absent) f.homes);
  }

  drop-homes :
      (name key : Bytes) (pids : Map Bytes ℕ) (locals : Map Bytes MemberShard)
      → HasDistinctKeys pids
      → HasDistinctKeys locals
      → contains_key key locals ≡ is_home i n (lookup key pids)
      → contains_key key (remove name locals) ≡ is_home i n (lookup key (remove name pids))
  drop-homes name key pids locals d d' home =
      rw (contains_key-remove name key locals d', lookup-remove name key pids d)
        (ground (arith, home))

  drop_member-eq :
      (name : Bytes) (pid : ℕ) (q : RoomShard)
      → lookup name q.pids ≡ some pid
      → drop_member name q ≡ (record q {
        pids = remove name q.pids;
        locals = remove name q.locals;
        wants = remove pid q.wants;
      })
  unfolding drop_member
  drop_member-eq name pid q e = rw (e, drop_member) refl

  pub drop-Follows :
      (name : Bytes) (r : RoomCtl) (q : RoomShard)
      → IsSound r
      → contains_key name r.members ≡ true
      → Follows i n room r q
      → Follows i n room (record r { members = remove name r.members }) (drop_member name q)
  drop-Follows name r q sound here f = elim (Option-cases (lookup name q.pids)) [
    | inl none_there ↦ absurd (
        ground (
          arith,
          here,
          contains_key-pids_of name r.members,
          contains_key-none name q.pids none_there,
          ap (contains_key name) f.same_pids,
        ))
    | inr (pid, e) ↦ rw (drop_member-eq name pid q e) (record {
      named = f.named;
      same_pids = ap (remove name) f.same_pids ∙ sym (pids_of-remove name r.members);
      bound = f.bound;
      distinct = remove-HasDistinctKeys name q.locals f.distinct;
      homes = λ key. rw (pids_of-remove name r.members) (
          drop-homes name key (pids_of r.members) q.locals
            (pids_of-HasDistinctKeys r.members sound.keys) f.distinct (f.homes key));
    })
  ]

-- The wants of every member are those that the router resolves.
abbrev pub HasWants : RoomCtl → RoomShard → Type 0
HasWants r q =
    (name : Bytes) (m : MemberCtl)
    → lookup name r.members ≡ some m
    → lookup m.pid q.wants ≡ some (resolve_wants r.members m.wants)

insert_all_other :
    (all members : Map Bytes MemberCtl) (pid : ℕ) (wants : Map ℕ WantSet)
    → contains pid (values (pids_of members)) ≡ false
    → lookup pid (insert_all (wants_of_members all members) wants) ≡ lookup pid wants
unfolding insert_all wants_of_members contains values
insert_all_other all [] pid wants absent = refl
insert_all_other all ((name, m) ∷ members) pid wants absent = ground (
  arith,
  absent,
  insert_all_other all members pid (insert m.pid (resolve_wants all m.wants) wants),
  lookup-insert m.pid pid (resolve_wants all m.wants) wants,
)

insert_all-lookup :
    (all members : Map Bytes MemberCtl) (name : Bytes) (m : MemberCtl) (wants : Map ℕ WantSet)
    → HasNoRepeats (values (pids_of members))
    → lookup name members ≡ some m
    → lookup m.pid (insert_all (wants_of_members all members) wants)
      ≡ some (resolve_wants all m.wants)
unfolding insert_all wants_of_members contains values lookup
insert_all-lookup all [] name m wants fresh found = absurd (ground (arith, found))
insert_all-lookup all ((key, x) ∷ members) name m wants fresh found =
    elim (Bool-cases (key == name)) [
      | inl hit ↦
          let same : x ≡ m = ground (arith, found, hit) in
          let rest = insert x.pid (resolve_wants all x.wants) wants in
          subst
            (λ (y : MemberCtl).
              lookup y.pid (insert_all (wants_of_members all members) rest)
              ≡ some (resolve_wants all y.wants))
            same
            (insert_all_other all members x.pid rest fresh.0
              ∙ lookup-insert_self x.pid (resolve_wants all x.wants) wants)
      | inr miss ↦
          insert_all-lookup all members name m (insert x.pid (resolve_wants all x.wants) wants)
            fresh.1 (ground (arith, found, miss))
    ]

pub set_wants-HasWants :
    (r : RoomCtl) (q : RoomShard) → IsSound r → HasWants r (set_wants (resolved_wants r) q)
unfolding set_wants resolved_wants
set_wants-HasWants r q sound name m found =
    insert_all-lookup r.members r.members name m q.wants sound.fresh found

pub set_wants-Follows :
    (i n : ℕ) (room : Bytes) (r : RoomCtl) (q : RoomShard) (table : WantsTable)
    → Follows i n room r q
    → Follows i n room r (set_wants table q)
unfolding set_wants
set_wants-Follows i n room r q table f = record {
  named = f.named;
  same_pids = f.same_pids;
  bound = f.bound;
  distinct = f.distinct;
  homes = f.homes;
}
