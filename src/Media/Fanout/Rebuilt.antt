-- ===== src/Media/Fanout/Rebuilt.antt =====
-- What a rebuild of the fan-out tables gives, by a description that reads only the tables of members,
-- channels and wants.
use wroom.Common.{
  ℕ, zero, suc, ◌<◌, ◌%◌, ◌≡◌, refl, sym, ap, ◌∙◌, arith, Bool, true, false, ◌||◌, ◌&&◌, not, List,
  [], ◌∷◌, none, some, pair_eq, ◌++◌, replicate, length-replicate, if◌then◌else◌, ◌==◌, nat_eq,
  list_eq, All, get_or,
}
use wroom.Common.Bytes.{Bytes}
use wroom.Common.Maps.{Map, contains_key, values}
use wroom.Common.Sets.{contains, HasNoRepeats}
use wroom.Common.Results.{ok}
use wroom.Media.Messages.{TransportKey, WantSet}
use wroom.Media.Fanout.{
  demand_of, Rows, RoomShard, Tables, rebuild_fanout, visit_targets, with_tables, no_tables,
  target_of, sub_key, wants_of, wants_kind, wants_video, wants_audio,
}
use wroom.Media.Fanout.Rows.{Which, video_rows, audio_rows, any_rows, row, rows_of, Sized}
use wroom.Media.Fanout.Targets.{placed_in, demand_of_targets, visit_targets-Builds}
use wroom.Media.Fanout.Demand.{masked, any_asks, masked_none, masked-demand_of_targets}

-- Whether a want-set has a kind of media of a publisher: a member that never sent one wants everything.
abbrev pub asked : WantSet → ℕ → ℕ → Bool
asked none p kind = true
asked (some w) p kind = contains (p, kind) w

-- Whether a want-set covers the video, the audio or either of a publisher.
abbrev pub covers : Which → WantSet → ℕ → Bool
covers video_rows w p = asked w p 2
covers audio_rows w p = asked w p 1
covers any_rows w p = asked w p 2 || asked w p 1

-- A member that is not the publisher and wants it.
abbrev pub subscribes : Which → RoomShard → ℕ → ℕ → Bool
subscribes k s p pid = not (p == pid) && covers k (wants_of pid s.wants) p

-- The legs of the members on this shard that subscribe, in the order of the table of members.
abbrev pub subscribers : Which → RoomShard → ℕ → Map Bytes ℕ → List TransportKey
subscribers k s p [] = []
subscribers k s p ((name, pid) ∷ members) =
    if contains_key name s.locals && subscribes k s p pid
    then sub_key s.name name ∷ subscribers k s p members
    else subscribers k s p members

-- Whether a member whose home is shard `j` subscribes.
abbrev pub subscribed_at : Which → ℕ → RoomShard → ℕ → ℕ → Map Bytes ℕ → Bool
subscribed_at k n s p j [] = false
subscribed_at k n s p j ((name, pid) ∷ members) =
    (subscribes k s p pid && (pid % n == j)) || subscribed_at k n s p j members

abbrev pub fanout_rows : Which → RoomShard → Rows
fanout_rows video_rows s = s.fanout_v
fanout_rows audio_rows s = s.fanout_a
fanout_rows any_rows s = s.fanout_any

wants_kind-asked : (w : WantSet) (p kind : ℕ) → wants_kind w p kind ≡ asked w p kind
unfolding wants_kind
wants_kind-asked none p kind = refl
wants_kind-asked (some w) p kind = refl

placed_in-subscribers :
    (k : Which) (n : ℕ) (s : RoomShard) (p : ℕ) (members : Map Bytes ℕ)
    → contains p (values s.pids) ≡ true
    → placed_in n s members k p ≡ subscribers k s p members
unfolding target_of wants_video wants_audio
placed_in-subscribers k n s p [] h = refl
placed_in-subscribers video_rows n s p ((name, pid) ∷ members) h = ground (
  arith,
  h,
  wants_kind-asked (wants_of pid s.wants) p 2,
  placed_in-subscribers video_rows n s p members h,
)
placed_in-subscribers audio_rows n s p ((name, pid) ∷ members) h = ground (
  arith,
  h,
  wants_kind-asked (wants_of pid s.wants) p 1,
  placed_in-subscribers audio_rows n s p members h,
)
placed_in-subscribers any_rows n s p ((name, pid) ∷ members) h = ground (
  arith,
  h,
  wants_kind-asked (wants_of pid s.wants) p 2,
  wants_kind-asked (wants_of pid s.wants) p 1,
  placed_in-subscribers any_rows n s p members h,
)

any_asks-subscribed_at :
    (k : Which) (n : ℕ) (s : RoomShard) (p j : ℕ) (members : Map Bytes ℕ)
    → any_asks k n s j p members ≡ subscribed_at k n s p j members
unfolding target_of wants_video wants_audio
any_asks-subscribed_at k n s p j [] = refl
any_asks-subscribed_at video_rows n s p j ((name, pid) ∷ members) = ground (
  arith,
  wants_kind-asked (wants_of pid s.wants) p 2,
  any_asks-subscribed_at video_rows n s p j members,
)
any_asks-subscribed_at audio_rows n s p j ((name, pid) ∷ members) = ground (
  arith,
  wants_kind-asked (wants_of pid s.wants) p 1,
  any_asks-subscribed_at audio_rows n s p j members,
)
any_asks-subscribed_at any_rows n s p j ((name, pid) ∷ members) = ground (
  arith,
  wants_kind-asked (wants_of pid s.wants) p 2,
  wants_kind-asked (wants_of pid s.wants) p 1,
  any_asks-subscribed_at any_rows n s p j members,
)

no_tables-Sized : (n : ℕ) → Sized n (no_tables n)
unfolding no_tables
no_tables-Sized n video_rows = length-replicate n []
no_tables-Sized n audio_rows = length-replicate n []
no_tables-Sized n any_rows = length-replicate n []

row-replicate : (n p : ℕ) → row (replicate n []) p ≡ []
row-replicate zero p = refl
row-replicate (suc n) zero = refl
row-replicate (suc n) (suc p) = row-replicate n p

row-no_tables : (k : Which) (n p : ℕ) → row (rows_of k (no_tables n)) p ≡ []
unfolding no_tables
row-no_tables video_rows n p = row-replicate n p
row-no_tables audio_rows n p = row-replicate n p
row-no_tables any_rows n p = row-replicate n p

abbrev pub Kept : RoomShard → RoomShard → Type 0
Kept s after =
    (after.name ≡ s.name)
    × (after.pids ≡ s.pids)
    × (after.locals ≡ s.locals)
    × (after.wants ≡ s.wants)
    × (after.max_pid ≡ s.max_pid)

-- The tables that the rebuild reads stay, and those that it writes are as described.
abbrev pub Rebuilt : ℕ → RoomShard → RoomShard → Type 0
Rebuilt n s after =
    Kept s after
    × ((k : Which) (p : ℕ)
        → contains p (values s.pids) ≡ true
        → get_or (fanout_rows k after) p [] ≡ subscribers k s p s.pids)
    × ((k : Which) (p j : ℕ)
        → contains p (values s.pids) ≡ true
        → masked k (demand_of p after.demand) j ≡ subscribed_at k n s p j s.pids)

row_of_after :
    (k : Which) (s : RoomShard) (f : Tables) (p : ℕ)
    → get_or (fanout_rows k (with_tables s f)) p [] ≡ row (rows_of k f) p
unfolding with_tables
row_of_after video_rows s f p = refl
row_of_after audio_rows s f p = refl
row_of_after any_rows s f p = refl

with_tables-Kept : (s : RoomShard) (f : Tables) → Kept s (with_tables s f)
unfolding with_tables
with_tables-Kept s f = (refl, refl, refl, refl, refl)

with_tables-demand : (s : RoomShard) (f : Tables) → (with_tables s f).demand ≡ f.demand
unfolding with_tables
with_tables-demand s f = refl

rebuild_fanout-from :
    (n : ℕ) (s : RoomShard) (f : Tables)
    → visit_targets n s s.pids (no_tables s.max_pid) ≡ ok f
    → rebuild_fanout n s ≡ ok (with_tables s f)
unfolding rebuild_fanout
rebuild_fanout-from n s f e = rw e refl

no_tables-demand : (n : ℕ) → (no_tables n).demand ≡ []
unfolding no_tables
no_tables-demand n = refl

Rebuilt-tables :
    (n : ℕ) (s : RoomShard)
    → HasNoRepeats (values s.pids)
    → All (λ p. p < s.max_pid) (values s.pids)
    → (f : Tables) × (rebuild_fanout n s ≡ ok (with_tables s f)) × Rebuilt n s (with_tables s f)
Rebuilt-tables n s fresh below =
    let (f, e, d, rows) =
      visit_targets-Builds n s s.max_pid s.pids (no_tables s.max_pid) (no_tables-Sized s.max_pid)
        fresh below in
    (
      f,
      rebuild_fanout-from n s f e,
      (
        with_tables-Kept s f,
        λ k p member.
            row_of_after k s f p
            ∙ (rows k).1 p
            ∙ ap (λ (ks : List TransportKey). ks ++ placed_in n s s.pids k p)
                (row-no_tables k s.max_pid p)
            ∙ placed_in-subscribers k n s p s.pids member,
        λ k p j member.
            let start = ap (demand_of_targets n s s.pids) (no_tables-demand s.max_pid) in
            ap (λ (m : Map ℕ (ℕ × ℕ)). masked k (demand_of p m) j)
              (with_tables-demand s f ∙ d ∙ start)
            ∙ ground (
              arith,
              masked-demand_of_targets k n s p j s.pids [] member,
              masked_none k p j,
              any_asks-subscribed_at k n s p j s.pids,
            ),
      ),
    )

-- Where the members have ids of their own, below the bound of the tables, the rebuild does not panic. It
-- leaves the tables that it reads as they were. Then the video, audio and joint fan-out rows of a member
-- hold the legs of the other members on this shard that want its video, its audio or either, in the order of the table, and bit `j` of its demand masks tells whether such a member has shard `j` as
-- its home.
pub rebuild_fanout-Rebuilt :
    (n : ℕ) (s : RoomShard)
    → HasNoRepeats (values s.pids)
    → All (λ p. p < s.max_pid) (values s.pids)
    → (after : RoomShard) × (rebuild_fanout n s ≡ ok after) × Rebuilt n s after
rebuild_fanout-Rebuilt n s fresh below =
    let (f, e, rebuilt) = Rebuilt-tables n s fresh below in (with_tables s f, e, rebuilt)

-- The fan-out tables fit the other tables of the same room.
abbrev pub IsBuilt : ℕ → RoomShard → Type 0
IsBuilt n s =
    ((k : Which) (p : ℕ)
      → contains p (values s.pids) ≡ true
      → get_or (fanout_rows k s) p [] ≡ subscribers k s p s.pids)
    × ((k : Which) (p j : ℕ)
        → contains p (values s.pids) ≡ true
        → masked k (demand_of p s.demand) j ≡ subscribed_at k n s p j s.pids)

subscribers-with_tables :
    (k : Which) (s : RoomShard) (f : Tables) (p : ℕ) (members : Map Bytes ℕ)
    → subscribers k (with_tables s f) p members ≡ subscribers k s p members
unfolding with_tables
subscribers-with_tables k s f p members = refl

subscribed_at-with_tables :
    (k : Which) (n : ℕ) (s : RoomShard) (f : Tables) (p j : ℕ) (members : Map Bytes ℕ)
    → subscribed_at k n (with_tables s f) p j members ≡ subscribed_at k n s p j members
unfolding with_tables
subscribed_at-with_tables k n s f p j members = refl

pub rebuild_fanout-IsBuilt :
    (n : ℕ) (s : RoomShard)
    → HasNoRepeats (values s.pids)
    → All (λ p. p < s.max_pid) (values s.pids)
    → (after : RoomShard) × (rebuild_fanout n s ≡ ok after) × Kept s after × IsBuilt n after
unfolding with_tables
rebuild_fanout-IsBuilt n s fresh below =
    let (f, e, (kept, rows, masks)) = Rebuilt-tables n s fresh below in
    (
      with_tables s f,
      e,
      kept,
      (
        λ k p member. rows k p member ∙ sym (subscribers-with_tables k s f p s.pids),
        λ k p j member. masks k p j member ∙ sym (subscribed_at-with_tables k n s f p j s.pids),
      ),
    )
