-- ===== src/Media/Shards.antt =====
-- The room tables of a shard of crates/wroomd/src/media.rs, and how control messages act on them. The legs of
-- a shard, with the offers and answers that set them up, are not modelled: those messages leave the tables.
use wroom.Common.{ℕ, suc, [], ◌∷◌, Option, none, some, if◌then◌else◌, ltb, nat_eq, list_eq}
use wroom.Common.Bytes.{Bytes}
use wroom.Common.Maps.{Map, lookup, insert, remove, contains_key}
use wroom.Common.Results.{Result, ok, ◌>>=◌}
use wroom.Media.Messages.{
  WantSet, WantsTable, ShardCtl, shutdown, room_up, member_up, member_gone, wants_all, pub_offer,
  sub_answer, offer_sub,
}
use wroom.Media.Fanout.{Panic, MemberShard, RoomShard, rebuild_fanout}

pub record Shard : Type 0 where
  pub n_shards : ℕ
  pub room_ids : Map Bytes ℕ
  pub rooms : Map ℕ RoomShard

unfoldable pub shard_new : ℕ → Shard
shard_new n = record { n_shards = n; room_ids = []; rooms = [] }

abbrev pub room_new : Bytes → RoomShard
room_new name = record {
  name = name;
  pids = [];
  locals = [];
  wants = [];
  demand = [];
  fanout_v = [];
  fanout_a = [];
  fanout_any = [];
  max_pid = 0;
}

-- `entry(id).or_insert_with(..)`.
unfoldable pub open_room : ℕ → Bytes → Shard → Shard
unfolding insert contains_key
open_room id name s = record s {
  room_ids = insert name id s.room_ids;
  rooms = if contains_key id s.rooms then s.rooms else insert id (room_new name) s.rooms;
}

unfoldable pub add_local : Bytes → ℕ → Option ℕ → Map Bytes MemberShard → Map Bytes MemberShard
unfolding insert
add_local name pid none locals = locals
add_local name pid (some reply) locals = insert name (record { pid = pid; reply = reply }) locals

unfoldable pub add_member : Bytes → ℕ → Option ℕ → RoomShard → RoomShard
unfolding add_local insert
add_member name pid reply r = record r {
  pids = insert name pid r.pids;
  wants = insert pid none r.wants;
  max_pid = if ltb r.max_pid (suc pid) then suc pid else r.max_pid;
  locals = add_local name pid reply r.locals;
}

unfoldable pub drop_member : Bytes → RoomShard → RoomShard
unfolding lookup remove
drop_member name r = elim (lookup name r.pids) [
  | none ↦ r
  | some pid ↦ record r {
    pids = remove name r.pids;
    locals = remove name r.locals;
    wants = remove pid r.wants;
  }
]

unfoldable pub insert_all : WantsTable → Map ℕ WantSet → Map ℕ WantSet
unfolding insert
insert_all [] wants = wants
insert_all ((pid, w) ∷ table) wants = insert_all table (insert pid w wants)

unfoldable pub set_wants : WantsTable → RoomShard → RoomShard
unfolding insert_all
set_wants table r = record r { wants = insert_all table r.wants }

-- A change of the room's tables, then the rebuild; nothing without such a room.
unfoldable pub change_room : ℕ → (RoomShard → RoomShard) → Shard → Result Panic Shard
unfolding lookup insert
change_room id change s = elim (lookup id s.rooms) [
  | none ↦ ok s
  | some r ↦ rebuild_fanout s.n_shards (change r) >>= λ built.
      ok (record s { rooms = insert id built s.rooms })
]

-- `Shard::on_control`, without the result that stops the loop.
unfoldable pub on_shard_control : ShardCtl → Shard → Result Panic Shard
unfolding open_room change_room add_member drop_member set_wants
on_shard_control (room_up id name) s = ok (open_room id name s)
on_shard_control (member_up id name pid reply) s = change_room id (add_member name pid reply) s
on_shard_control (member_gone id name) s = change_room id (drop_member name) s
on_shard_control (wants_all id table) s = change_room id (set_wants table) s
on_shard_control (pub_offer id name sdp) s = ok s
on_shard_control (sub_answer id name sdp) s = ok s
on_shard_control (offer_sub id name tracks) s = ok s
on_shard_control shutdown s = ok s
