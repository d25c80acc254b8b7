-- ===== src/Media/Plane/Joining.antt =====
-- A join keeps the router and a shard in agreement.
use wroom.Common.{
  ℕ, suc, ◌%◌, ◌≤◌, ◌<◌, ◌≡◌, refl, sym, ap, ◌∙◌, arith, Bool, true, false, List, [], ◌∷◌, ◌++◌,
  Option, none, some, if◌then◌else◌, ◌==◌, nat_eq, list_eq, pair_eq, Option-cases, inl, inr, subst,
}
use wroom.Common.Bytes.{Bytes}
use wroom.Common.Maps.{
  Map, lookup, insert, contains_key, HasDistinctKeys, lookup-insert_self, insert-insert,
  contains_key-none,
}
use wroom.Common.Results.{Result, ok}
use wroom.Media.Messages.{room_up}
use wroom.Media.Rooms.{RoomCtl}
use wroom.Media.Router.{
  Router, Sent, to_all, admit, announce, push_wants, mark_dirty, ensure_room, empty_room, on_joined,
}
use wroom.Media.Fanout.{Panic, RoomShard}
use wroom.Media.Shards.{Shard, open_room, room_new, on_shard_control}
use wroom.Media.Plane.{deliver}
use wroom.Media.Plane.Following.{IsSound, Follows}
use wroom.Media.Plane.Delivery.{put, deliver_all, announce-Delivered}
use wroom.Media.Plane.Agreement.{Agrees, Agrees-put, Agrees-open, opened, shard_opened}

-- What the plane does with a call of the router, in agreement afterwards.
abbrev pub Settles : ℕ → ℕ → Router × List Sent → Shard → Type 0
Settles i n (t, sent) s = (after : Shard) × (deliver i sent s ≡ ok after) × Agrees i n t after

empty_room-IsSound : (id : ℕ) → IsSound (empty_room id)
unfolding wroom.Common.Maps.values
empty_room-IsSound id = record { keys = tt; fresh = tt; below = tt }

room_new-Follows : (i n id : ℕ) (room : Bytes) → Follows i n room (empty_room id) (room_new room)
unfolding contains_key lookup
room_new-Follows i n id room = record {
  named = refl;
  same_pids = refl;
  bound = refl;
  distinct = tt;
  homes = λ key. refl;
}

joined_old :
    (room name : Bytes) (reply : ℕ) (t : Router) (r : RoomCtl)
    → lookup room t.rooms ≡ some r
    → on_joined room name reply t ≡ (
      record t {
        rooms = insert room (admit t.n_shards name r) t.rooms;
        dirty_offers = mark_dirty r.id name t.dirty_offers;
      },
      announce t.n_shards name r reply ∷ push_wants (admit t.n_shards name r) ∷ [],
    )
unfolding on_joined
joined_old room name reply t r e = rw (e, ensure_room) refl

joined_new :
    (room name : Bytes) (reply : ℕ) (t : Router)
    → lookup room t.rooms ≡ none
    → on_joined room name reply t ≡ (
      opened t room
          (admit t.n_shards name (empty_room t.next_room_id))
          (mark_dirty t.next_room_id name t.dirty_offers),
      to_all (λ shard. room_up t.next_room_id room)
          ∷ announce t.n_shards name (empty_room t.next_room_id) reply
          ∷ push_wants (admit t.n_shards name (empty_room t.next_room_id))
          ∷ [],
    )
unfolding on_joined
joined_new room name reply t e =
    rw (e, ensure_room)
      (ap
        (λ (rooms : Map Bytes RoomCtl). (
          record t {
            rooms = rooms;
            next_room_id = suc t.next_room_id;
            dirty_offers = mark_dirty t.next_room_id name t.dirty_offers;
          },
          to_all (λ shard. room_up t.next_room_id room)
              ∷ announce t.n_shards name (empty_room t.next_room_id) reply
              ∷ push_wants (admit t.n_shards name (empty_room t.next_room_id))
              ∷ [],
        ))
        (insert-insert room (admit t.n_shards name (empty_room t.next_room_id))
          (empty_room t.next_room_id) t.rooms))

open_room_fresh :
    (id : ℕ) (room : Bytes) (s : Shard)
    → lookup id s.rooms ≡ none
    → open_room id room s ≡ shard_opened s room id (room_new room)
unfolding open_room
open_room_fresh id room s e = rw (contains_key-none id s.rooms e) refl

on_room_up :
    (id : ℕ) (room : Bytes) (s : Shard)
    → on_shard_control (room_up id room) s ≡ ok (open_room id room s)
unfolding on_shard_control
on_room_up id room s = refl

empty_room-absent : (id : ℕ) (name : Bytes) → contains_key name (empty_room id).members ≡ false
unfolding contains_key
empty_room-absent id name = refl

admit-id : (n : ℕ) (name : Bytes) (r : RoomCtl) → (admit n name r).id ≡ r.id
unfolding admit
admit-id n name r = refl

abbrev pub done : Shard → Result Panic Shard
done s = ok s

pub settle :
    (i n : ℕ) (p q : Router × List Sent) (s : Shard) → p ≡ q → Settles i n q s → Settles i n p s
settle i n p q s e h = subst (λ (x : Router × List Sent). Settles i n x s) (sym e) h

module _ (i : ℕ) (t : Router) (s : Shard) (agrees : Agrees i t.n_shards t s) where
  rejoin :
      (room name : Bytes) (reply : ℕ) (r : RoomCtl)
      → lookup room t.rooms ≡ some r
      → contains_key name r.members ≡ false
      → Settles i t.n_shards (on_joined room name reply t) s
  rejoin room name reply r here absent =
      let (id, (q, at, agree)) = agrees.rooms room r here in
      let (after, e, agree') =
        announce-Delivered i t.n_shards room name reply r q s agrees.shard_count at agree.sound
          absent agree.follows in
      settle i t.n_shards (on_joined room name reply t) _ s (joined_old room name reply t r here) (
        put r.id after s,
        e,
        Agrees-put i t.n_shards t s agrees room r (admit t.n_shards name r) after
            (mark_dirty r.id name t.dirty_offers) here (admit-id t.n_shards name r) agree',
      )

  first_join :
      (room name : Bytes) (reply : ℕ)
      → lookup room t.rooms ≡ none
      → Settles i t.n_shards (on_joined room name reply t) s
  unfolding admit
  first_join room name reply none_yet =
      let id = t.next_room_id in
      let r = empty_room id in
      let s' = shard_opened s room id (room_new room) in
      let (after, e, agree) =
        announce-Delivered i t.n_shards room name reply r (room_new room) s' agrees.shard_count
          (lookup-insert_self id (room_new room) s.rooms) (empty_room-IsSound id)
          (empty_room-absent id name) (room_new-Follows i t.n_shards id room) in
      let ready =
        on_room_up id room s
        ∙ ap done (open_room_fresh id room s (agrees.unused id (omega arith))) in
      let final : put id after s' ≡ shard_opened s room id after =
        ap
          (λ (rooms : Map ℕ RoomShard). record s {
            room_ids = insert room id s.room_ids;
            rooms = rooms;
          })
          (insert-insert id after (room_new room) s.rooms) in
      settle i t.n_shards (on_joined room name reply t) _ s (joined_new room name reply t none_yet)
        (
          shard_opened s room id after,
          deliver_all i (λ shard. room_up id room) _ s s' ready ∙ e ∙ ap done final,
          Agrees-open i t.n_shards t s agrees room (admit t.n_shards name r) after
              (mark_dirty id name t.dirty_offers) (admit-id t.n_shards name r) agree,
        )

  -- A participant that is not in the room joins it.
  pub on_joined-Settles :
      (room name : Bytes) (reply : ℕ)
      → ((r : RoomCtl) → lookup room t.rooms ≡ some r → contains_key name r.members ≡ false)
      → Settles i t.n_shards (on_joined room name reply t) s
  on_joined-Settles room name reply absent = elim (Option-cases (lookup room t.rooms)) [
    | inl none_yet ↦ first_join room name reply none_yet
    | inr (r, here) ↦ rejoin room name reply r here (absent r here)
  ]
