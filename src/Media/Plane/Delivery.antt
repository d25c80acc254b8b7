-- ===== src/Media/Plane/Delivery.antt =====
-- One room at a shard under the messages of a join, a departure and a change of wants.
use wroom.Common.{
  ℕ, ◌%◌, ◌≡◌, refl, ap, ◌∙◌, true, false, List, [], ◌∷◌, none, some, if◌then◌else◌, ◌==◌, nat_eq,
  list_eq,
}
use wroom.Common.Bytes.{Bytes}
use wroom.Common.Maps.{Map, lookup, insert, remove, contains_key, lookup-insert_self, insert-insert}
use wroom.Common.Results.{Result, ok}
use wroom.Media.Messages.{ShardCtl, wants_all, member_up, member_gone}
use wroom.Media.Rooms.{RoomCtl, resolved_wants}
use wroom.Media.Router.{Sent, to_all, push_wants, announce, admit}
use wroom.Media.Fanout.{Panic, RoomShard, rebuild_fanout}
use wroom.Media.Fanout.Rebuilt.{IsBuilt}
use wroom.Media.Shards.{Shard, change_room, on_shard_control, add_member, drop_member, set_wants}
use wroom.Media.Plane.{deliver}
use wroom.Media.Plane.Following.{
  IsSound, Follows, Follows-IsBuilt, HasWants, admit-IsSound, remove-IsSound, admit-Follows,
  drop-Follows, set_wants-HasWants, set_wants-Follows,
}

-- A room of the router and its tables at a shard agree.
pub record RoomAgrees (i n : ℕ) (room : Bytes) (r : RoomCtl) (q : RoomShard) : Type 0 where
  pub sound : IsSound r
  pub follows : Follows i n room r q
  pub built : IsBuilt n q
  pub wanted : HasWants r q

abbrev pub put : ℕ → RoomShard → Shard → Shard
put id q s = record s { rooms = insert id q s.rooms }

change_room-from :
    (id : ℕ) (change : RoomShard → RoomShard) (s : Shard) (q after : RoomShard)
    → lookup id s.rooms ≡ some q
    → rebuild_fanout s.n_shards (change q) ≡ ok after
    → change_room id change s ≡ ok (put id after s)
unfolding change_room
change_room-from id change s q after here e = rw (here, change_room) (rw e refl)

pub deliver_all :
    (i : ℕ) (message : ℕ → ShardCtl) (sent : List Sent) (s after : Shard)
    → on_shard_control (message i) s ≡ ok after
    → deliver i (to_all message ∷ sent) s ≡ deliver i sent after
unfolding deliver
deliver_all i message sent s after e = rw e refl

pub deliver_none : (i : ℕ) (s : Shard) → deliver i [] s ≡ ok s
unfolding deliver
deliver_none i s = refl

put-put : (id : ℕ) (q old : RoomShard) (s : Shard) → put id q (put id old s) ≡ put id q s
put-put id q old s =
    ap (λ (rooms : Map ℕ RoomShard). record s { rooms = rooms }) (insert-insert id q old s.rooms)

abbrev done : Shard → Result Panic Shard
done s = ok s

ok-put :
    (id : ℕ) (q old : RoomShard) (s : Shard) → done (put id q (put id old s)) ≡ done (put id q s)
ok-put id q old s = ap done (put-put id q old s)

abbrev pub without : Bytes → RoomCtl → RoomCtl
without name r = record r { members = remove name r.members }

module _ (i n : ℕ) (room : Bytes) where
  abbrev Changed : ℕ → (RoomShard → RoomShard) → RoomCtl → RoomShard → Shard → Type 0
  Changed id change r q s =
      (after : RoomShard) × (change_room id change s ≡ ok (put id after s))
      × Follows i n room r after
      × IsBuilt n after
      × (after.wants ≡ (change q).wants)

  change_room-Changed :
      (id : ℕ) (change : RoomShard → RoomShard) (r : RoomCtl) (q : RoomShard) (s : Shard)
      → s.n_shards ≡ n
      → lookup id s.rooms ≡ some q
      → IsSound r
      → Follows i n room r (change q)
      → Changed id change r q s
  change_room-Changed id change r q s count here sound f =
      let (after, e, follows, built, wants) = Follows-IsBuilt i n room r (change q) sound f in
      (
        after,
        change_room-from id change s q after here
            (ap (λ (m : ℕ). rebuild_fanout m (change q)) count ∙ e),
        follows,
        built,
        wants,
      )

  abbrev pub Delivered : List Sent → RoomCtl → ℕ → Shard → Type 0
  Delivered sent r id s =
      (after : RoomShard) × (deliver i sent s ≡ ok (put id after s)) × RoomAgrees i n room r after

  on_wants :
      (r : RoomCtl) (s : Shard)
      → on_shard_control (wants_all r.id (resolved_wants r)) s
        ≡ change_room r.id (set_wants (resolved_wants r)) s
  unfolding on_shard_control
  on_wants r s = refl

  -- The table of wants brings the room to agree.
  pub push_wants-Delivered :
      (r : RoomCtl) (q : RoomShard) (s : Shard)
      → s.n_shards ≡ n
      → lookup r.id s.rooms ≡ some q
      → IsSound r
      → Follows i n room r q
      → Delivered (push_wants r ∷ []) r r.id s
  unfolding push_wants
  push_wants-Delivered r q s count here sound f =
      let table = resolved_wants r in
      let (after, e, follows, built, wants) =
        change_room-Changed r.id (set_wants table) r q s count here sound
          (set_wants-Follows i n room r q table f) in
      (
        after,
        deliver_all i (λ shard. wants_all r.id table) [] s (put r.id after s) (on_wants r s ∙ e)
            ∙ deliver_none i (put r.id after s),
        record {
          sound = sound;
          follows = follows;
          built = built;
          wanted =
              λ name m found. ap (lookup m.pid) wants ∙ set_wants-HasWants r q sound name m found;
        },
      )

  -- The same after a change that the room follows.
  change-Delivered :
      (message : ℕ → ShardCtl) (change : RoomShard → RoomShard) (r : RoomCtl) (q : RoomShard)
      (s : Shard)
      → on_shard_control (message i) s ≡ change_room r.id change s
      → s.n_shards ≡ n
      → lookup r.id s.rooms ≡ some q
      → IsSound r
      → Follows i n room r (change q)
      → Delivered (to_all message ∷ push_wants r ∷ []) r r.id s
  change-Delivered message change r q s meant count here sound f =
      let (mid, e, follows, built, wants) =
        change_room-Changed r.id change r q s count here sound f in
      let (after, e', agrees) =
        push_wants-Delivered r mid (put r.id mid s) count (lookup-insert_self r.id mid s.rooms)
          sound follows in
      (
        after,
        deliver_all i message (push_wants r ∷ []) s (put r.id mid s) (meant ∙ e)
            ∙ e'
            ∙ ok-put r.id after mid s,
        agrees,
      )

  abbrev message_up : Bytes → RoomCtl → ℕ → ℕ → ShardCtl
  message_up name r reply shard =
      member_up r.id name r.next_pid (if shard == r.next_pid % n then some reply else none)

  on_up :
      (name : Bytes) (r : RoomCtl) (reply : ℕ) (s : Shard)
      → on_shard_control (message_up name r reply i) s
        ≡ change_room
            (admit n name r).id
            (add_member name r.next_pid (if i == r.next_pid % n then some reply else none))
            s
  unfolding on_shard_control admit
  on_up name r reply s = refl

  admit-id : (name : Bytes) (r : RoomCtl) → (admit n name r).id ≡ r.id
  unfolding admit
  admit-id name r = refl

  pub announce-Delivered :
      (name : Bytes) (reply : ℕ) (r : RoomCtl) (q : RoomShard) (s : Shard)
      → s.n_shards ≡ n
      → lookup r.id s.rooms ≡ some q
      → IsSound r
      → contains_key name r.members ≡ false
      → Follows i n room r q
      → Delivered
          (announce n name r reply ∷ push_wants (admit n name r) ∷ [])
          (admit n name r)
          r.id
          s
  unfolding announce admit
  announce-Delivered name reply r q s count here sound absent f =
      change-Delivered (message_up name r reply)
        (add_member name r.next_pid (if i == r.next_pid % n then some reply else none))
        (admit n name r) q s (on_up name r reply s) count here (admit-IsSound n name r sound)
        (admit-Follows i n room name reply r q absent f)

  on_gone :
      (name : Bytes) (r : RoomCtl) (s : Shard)
      → on_shard_control (member_gone r.id name) s ≡ change_room r.id (drop_member name) s
  unfolding on_shard_control
  on_gone name r s = refl

  pub gone-Delivered :
      (name : Bytes) (r : RoomCtl) (q : RoomShard) (s : Shard)
      → s.n_shards ≡ n
      → lookup r.id s.rooms ≡ some q
      → IsSound r
      → contains_key name r.members ≡ true
      → Follows i n room r q
      → Delivered
          (to_all (λ shard. member_gone r.id name) ∷ push_wants (without name r) ∷ [])
          (without name r)
          r.id
          s
  gone-Delivered name r q s count here sound member f =
      change-Delivered (λ shard. member_gone r.id name) (drop_member name) (without name r) q s
        (on_gone name r s) count here (remove-IsSound name r sound)
        (drop-Follows i n room name r q sound member f)

  -- The last member's departure alone.
  pub gone_last :
      (name : Bytes) (r : RoomCtl) (q : RoomShard) (s : Shard)
      → s.n_shards ≡ n
      → lookup r.id s.rooms ≡ some q
      → IsSound r
      → contains_key name r.members ≡ true
      → Follows i n room r q
      → (after : RoomShard) × (deliver i (to_all (λ shard. member_gone r.id name) ∷ []) s
          ≡ ok (put r.id after s))
  gone_last name r q s count here sound member f =
      let (after, e, follows, built, wants) =
        change_room-Changed r.id (drop_member name) (without name r) q s count here
          (remove-IsSound name r sound) (drop-Follows i n room name r q sound member f) in
      (
        after,
        deliver_all i (λ shard. member_gone r.id name) [] s (put r.id after s)
              (on_gone name r s ∙ e)
            ∙ deliver_none i (put r.id after s),
      )
