-- ===== src/Media/Router.antt =====
-- `Router` of crates/wroomd/src/media.rs: the rooms and what it sends to the shards. Active speakers, whose
-- levels are floating-point, are left out; ids do not reach 2^32.
use wroom.Common.{
  ℕ, suc, ◌%◌, Bool, true, false, List, [], ◌∷◌, ◌++◌, Option, none, some, map, if◌then◌else◌, ◌==◌,
  nat_eq, list_eq, pair_eq,
}
use wroom.Common.Bytes.{Bytes}
use wroom.Common.Maps.{Map, lookup, insert, remove, contains_key}
use wroom.Common.Sets.{contains}
use wroom.Session.Messages.{Track}
use wroom.Media.Rooms.{
  MemberCtl, RoomCtl, resolved_wants, wanted_tracks, update_member, add_published, covered,
}
use wroom.Media.Messages.{
  MediaControl, ShardCtl, joined, publisher_offer, subscriber_answer, tracks_published,
  subscriptions_changed, left, room_up, member_up, member_gone, wants_all, pub_offer, sub_answer,
  offer_sub,
}

pub record Router : Type 0 where
  pub rooms : Map Bytes RoomCtl
  pub next_room_id : ℕ
  pub n_shards : ℕ
  pub dirty_offers : List (ℕ × Bytes)

-- A message to every shard, which may depend on the shard, or to one.
pub data Sent : Type 0 where
  to_all : (ℕ → ShardCtl) → Sent
  to_shard : ℕ → ShardCtl → Sent

unfoldable pub router_new : ℕ → Router
router_new n = record { rooms = []; next_room_id = 0; n_shards = n; dirty_offers = [] }

unfoldable pub mark_dirty : ℕ → Bytes → List (ℕ × Bytes) → List (ℕ × Bytes)
mark_dirty id name dirty = if contains (id, name) dirty then dirty else (id, name) ∷ dirty

unfoldable pub mark_all_dirty : ℕ → List Bytes → List (ℕ × Bytes) → List (ℕ × Bytes)
unfolding mark_dirty
mark_all_dirty id [] dirty = dirty
mark_all_dirty id (name ∷ names) dirty = mark_all_dirty id names (mark_dirty id name dirty)

unfoldable pub push_wants : RoomCtl → Sent
unfolding resolved_wants
push_wants r = to_all (λ shard. wants_all r.id (resolved_wants r))

abbrev pub empty_room : ℕ → RoomCtl
empty_room id = record { id = id; members = []; next_pid = 0 }

unfoldable pub ensure_room : Bytes → Router → RoomCtl × (Router × List Sent)
unfolding lookup insert
ensure_room room t = elim (lookup room t.rooms) [
  | some r ↦ (r, (t, []))
  | none ↦
      let r = empty_room t.next_room_id in
      (
        r,
        (
          record t { rooms = insert room r t.rooms; next_room_id = suc t.next_room_id },
          to_all (λ shard. room_up r.id room) ∷ [],
        ),
      )
]

unfoldable pub admit : ℕ → Bytes → RoomCtl → RoomCtl
unfolding insert
admit n name r =
    let m : MemberCtl = record {
      pid = r.next_pid;
      shard = r.next_pid % n;
      published = [];
      wants = none;
    } in
    record r { next_pid = suc r.next_pid; members = insert name m r.members }

unfoldable pub announce : ℕ → Bytes → RoomCtl → ℕ → Sent
announce n name r reply =
    to_all (λ shard.
      member_up r.id name r.next_pid (if shard == r.next_pid % n then some reply else none))

unfoldable pub on_joined : Bytes → Bytes → ℕ → Router → Router × List Sent
unfolding ensure_room admit announce push_wants mark_dirty
on_joined room name reply t =
    let (r, (u, sent)) = ensure_room room t in
    let r' = admit t.n_shards name r in
    (
      record u {
        rooms = insert room r' u.rooms;
        dirty_offers = mark_dirty r.id name u.dirty_offers;
      },
      sent ++ (announce t.n_shards name r reply ∷ push_wants r' ∷ []),
    )

-- A message to the home of a member.
unfoldable pub to_member : Bytes → Bytes → (ℕ → ShardCtl) → Router → List Sent
unfolding lookup
to_member room name message t = elim (lookup room t.rooms) [
  | none ↦ []
  | some r ↦ elim (lookup name r.members) [
    | none ↦ []
    | some m ↦ to_shard (m.shard % t.n_shards) (message r.id) ∷ []
  ]
]

unfoldable pub on_tracks_published : Bytes → Bytes → List Track → Router → Router × List Sent
unfolding update_member add_published covered mark_all_dirty push_wants lookup insert
on_tracks_published room name tracks t = elim (lookup room t.rooms) [
  | none ↦ (t, [])
  | some r ↦
      let r' =
        update_member name (λ m. record m { published = add_published tracks m.published }) r in
      let dirty = covered name (map (λ (track : Track). track.id) tracks) r'.members in
      (
        record t {
          rooms = insert room r' t.rooms;
          dirty_offers = mark_all_dirty r.id dirty t.dirty_offers;
        },
        push_wants r' ∷ [],
      )
]

unfoldable pub on_subscriptions_changed :
    Bytes → Bytes → List (Bytes × Bytes) → Router → Router × List Sent
unfolding update_member mark_dirty push_wants lookup insert
on_subscriptions_changed room name wants t = elim (lookup room t.rooms) [
  | none ↦ (t, [])
  | some r ↦
      let r' = update_member name (λ m. record m { wants = some wants }) r in
      (
        record t {
          rooms = insert room r' t.rooms;
          dirty_offers = mark_dirty r.id name t.dirty_offers;
        },
        push_wants r' ∷ [],
      )
]

unfoldable pub without_offer : (ℕ × Bytes) → List (ℕ × Bytes) → List (ℕ × Bytes)
without_offer offer [] = []
without_offer offer (d ∷ dirty) =
    let rest = without_offer offer dirty in if d == offer then rest else d ∷ rest

abbrev pub is_empty {ℓ} : {A : Type ℓ} → List A → Bool
is_empty [] = true
is_empty (x ∷ xs) = false

unfoldable pub remove_member : Bytes → Bytes → RoomCtl → Router → Router × List Sent
unfolding without_offer push_wants insert remove
remove_member room name r t =
    let r' = record r { members = remove name r.members } in
    let gone = to_all (λ shard. member_gone r.id name) in
    let dirty = without_offer (r.id, name) t.dirty_offers in
    let emptied = record t { rooms = remove room t.rooms; dirty_offers = dirty } in
    let kept = record t { rooms = insert room r' t.rooms; dirty_offers = dirty } in
    if is_empty r'.members then (emptied, gone ∷ []) else (kept, gone ∷ push_wants r' ∷ [])

unfoldable pub on_left : Bytes → Bytes → Router → Router × List Sent
unfolding remove_member lookup contains_key
on_left room name t = elim (lookup room t.rooms) [
  | none ↦ (t, [])
  | some r ↦ if contains_key name r.members then remove_member room name r t else (t, [])
]

unfoldable pub on_control : MediaControl → Router → Router × List Sent
unfolding on_joined to_member on_tracks_published on_subscriptions_changed on_left
on_control (joined room name reply) t = on_joined room name reply t
on_control (publisher_offer room name sdp) t =
    (t, to_member room name (λ id. pub_offer id name sdp) t)
on_control (subscriber_answer room name sdp) t =
    (t, to_member room name (λ id. sub_answer id name sdp) t)
on_control (tracks_published room name tracks) t = on_tracks_published room name tracks t
on_control (subscriptions_changed room name wants) t = on_subscriptions_changed room name wants t
on_control (left room name) t = on_left room name t

unfoldable pub find_room : ℕ → Map Bytes RoomCtl → Option RoomCtl
find_room id [] = none
find_room id ((name, r) ∷ rooms) = if r.id == id then some r else find_room id rooms

-- The offer to one dirty member, if there is anything to offer.
unfoldable pub offer_to : Router → ℕ → Bytes → List Sent
unfolding find_room wanted_tracks lookup
offer_to t id name = elim (find_room id t.rooms) [
  | none ↦ []
  | some r ↦ elim (lookup name r.members) [
    | none ↦ []
    | some m ↦
        let tracks = wanted_tracks r name in
        if is_empty tracks
        then []
        else to_shard (m.shard % t.n_shards) (offer_sub id name tracks) ∷ []
  ]
]

unfoldable pub offers_to : Router → List (ℕ × Bytes) → List Sent
unfolding offer_to
offers_to t [] = []
offers_to t ((id, name) ∷ dirty) = offer_to t id name ++ offers_to t dirty

unfoldable pub flush_offers : Router → Router × List Sent
unfolding offers_to
flush_offers t = (record t { dirty_offers = [] }, offers_to t t.dirty_offers)
