-- ===== src/Media/Fanout.antt =====
-- `RoomShard` of crates/wroomd/src/media.rs, the slice of a room that one shard owns, and the rebuild of its
-- fan-out tables. An index out of range panics.
pub mod Rows
pub mod Targets
pub mod Demand
pub mod Rebuilt
use wroom.Common.{
  ℕ, ◌%◌, ◌^◌, Bool, true, false, ◌||◌, not, List, [], ◌∷◌, ◌++◌, none, some, length, set, get_or,
  replicate, ltb, if◌then◌else◌, ◌==◌, nat_eq, list_eq, pair_eq,
}
use Prim.Native.Nat.{bit_or}
use wroom.Common.Bytes.{Bytes}
use wroom.Common.Maps.{Map, lookup, insert, contains_key, values}
use wroom.Common.Sets.{contains}
use wroom.Common.Results.{Result, ok, err, ◌>>=◌}
use wroom.Media.Messages.{TransportKey, WantSet, subscriber, kind_u8, audio, video}

pub data Panic : Type 0 where
  index_out_of_range : Panic

-- Of a member, the id and the channel.
pub record MemberShard : Type 0 where
  pub pid : ℕ
  pub reply : ℕ

abbrev pub Rows : Type 0
Rows = List (List TransportKey)

pub record RoomShard : Type 0 where
  pub name : Bytes
  pub pids : Map Bytes ℕ
  pub locals : Map Bytes MemberShard
  pub wants : Map ℕ WantSet
  pub demand : Map ℕ (ℕ × ℕ)
  pub fanout_v : Rows
  pub fanout_a : Rows
  pub fanout_any : Rows
  pub max_pid : ℕ

-- `get(tpid).and_then(|o| o.clone())`.
unfoldable pub wants_of : ℕ → Map ℕ WantSet → WantSet
unfolding lookup
wants_of pid wants = elim (lookup pid wants) [ none ↦ none | some w ↦ w ]

unfoldable pub wants_kind : WantSet → ℕ → ℕ → Bool
wants_kind none pid kind = true
wants_kind (some w) pid kind = contains (pid, kind) w

abbrev pub sub_key : Bytes → Bytes → TransportKey
sub_key room name = record { room = room; participant = name; leg = subscriber }

unfoldable pub push_at : ℕ → TransportKey → Rows → Result Panic Rows
push_at i key rows =
    if ltb i (length rows)
    then ok (set rows i (get_or rows i [] ++ (key ∷ [])))
    else err index_out_of_range

unfoldable pub push_if : Bool → ℕ → TransportKey → Rows → Result Panic Rows
unfolding push_at
push_if true i key rows = push_at i key rows
push_if false i key rows = ok rows

-- `mask |= 1 << shard`, if so.
unfoldable pub mark_if : Bool → ℕ → ℕ → ℕ
mark_if true shard mask = bit_or mask (2 ^ shard)
mark_if false shard mask = mask

unfoldable pub demand_of : ℕ → Map ℕ (ℕ × ℕ) → ℕ × ℕ
unfolding lookup
demand_of pid demand = elim (lookup pid demand) [ none ↦ (0, 0) | some masks ↦ masks ]

-- What the loops of the rebuild change.
pub record Tables : Type 0 where
  pub demand : Map ℕ (ℕ × ℕ)
  pub v : Rows
  pub a : Rows
  pub any : Rows

-- A target, as the outer loop sees it.
pub record Target : Type 0 where
  pub key : TransportKey
  pub pid : ℕ
  pub wants : WantSet
  pub local : Bool
  pub shard : ℕ

unfoldable pub push_target : Target → ℕ → Bool → Bool → Tables → Result Panic Tables
unfolding push_if push_at
push_target t p v a f = push_if v p t.key f.v >>= λ rows_v. push_if a p t.key f.a >>= λ rows_a.
    push_at p t.key f.any >>= λ rows_any. ok (record f { v = rows_v; a = rows_a; any = rows_any })

unfoldable pub mark_demand : Target → ℕ → Bool → Bool → Tables → Tables
unfolding demand_of mark_if
mark_demand t p v a f =
    let masks = demand_of p f.demand in
    record f { demand = insert p (mark_if v t.shard masks.0, mark_if a t.shard masks.1) f.demand }

unfoldable pub wants_video : Target → ℕ → Bool
unfolding wants_kind kind_u8
wants_video t p = wants_kind t.wants p (kind_u8 video)

unfoldable pub wants_audio : Target → ℕ → Bool
unfolding wants_kind kind_u8
wants_audio t p = wants_kind t.wants p (kind_u8 audio)

-- The body of the inner loop: one publisher for one target.
unfoldable pub visit : Target → Tables → ℕ → Result Panic Tables
unfolding wants_video wants_audio push_target mark_demand
visit t f p =
    let v = wants_video t p in
    let a = wants_audio t p in
    if (p == t.pid) || not (v || a)
    then ok f
    else let marked = mark_demand t p v a f in
      if t.local then push_target t p v a marked else ok marked

unfoldable pub visit_publishers : Target → List ℕ → Tables → Result Panic Tables
unfolding visit
visit_publishers t [] f = ok f
visit_publishers t (p ∷ ps) f = visit t f p >>= visit_publishers t ps

unfoldable pub target_of : ℕ → RoomShard → Bytes → ℕ → Target
unfolding wants_of contains_key
target_of n s name pid = record {
  key = sub_key s.name name;
  pid = pid;
  wants = wants_of pid s.wants;
  local = contains_key name s.locals;
  shard = pid % n;
}

unfoldable pub visit_targets : ℕ → RoomShard → Map Bytes ℕ → Tables → Result Panic Tables
unfolding visit_publishers target_of values
visit_targets n s [] f = ok f
visit_targets n s ((name, pid) ∷ targets) f =
    visit_publishers (target_of n s name pid) (values s.pids) f >>= visit_targets n s targets

unfoldable pub with_tables : RoomShard → Tables → RoomShard
with_tables s f = record s { demand = f.demand; fanout_v = f.v; fanout_a = f.a; fanout_any = f.any }

unfoldable pub no_tables : ℕ → Tables
no_tables n = record { demand = []; v = replicate n []; a = replicate n []; any = replicate n [] }

-- `RoomShard::rebuild_fanout`.
unfoldable pub rebuild_fanout : ℕ → RoomShard → Result Panic RoomShard
unfolding visit_targets with_tables no_tables
rebuild_fanout n s = visit_targets n s s.pids (no_tables s.max_pid) >>= λ f. ok (with_tables s f)
