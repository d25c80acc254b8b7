-- ===== src/Media/Plane/Routing.antt =====
-- The demand masks of one shard and the fan-out rows of another fit together.
use wroom.Common.{
  ℕ, ◌%◌, ◌≡◌, refl, sym, ap, ◌∙◌, arith, true, false, not, List, [], ◌∷◌, some, ◌==◌, nat_eq,
  list_eq, All, get_or,
}
use wroom.Common.Bytes.{Bytes}
use wroom.Common.Equality.{list_beq_iff}
use wroom.Common.Maps.{Map, lookup, contains_key, values, HasDistinctKeys}
use wroom.Common.Sets.{contains}
use wroom.Common.Results.{ok}
use wroom.Media.Messages.{MediaControl, WantSet, TransportKey}
use wroom.Media.Rooms.{MemberCtl, RoomCtl, resolve_wants}
use wroom.Media.Router.{Router, router_new, is_empty}
use wroom.Media.Fanout.{RoomShard, demand_of, wants_of}
use wroom.Media.Fanout.Rows.{Which, video_rows, audio_rows, any_rows}
use wroom.Media.Fanout.Demand.{masked}
use wroom.Media.Fanout.Rebuilt.{fanout_rows, subscribers, subscribed_at}
use wroom.Media.Shards.{Shard, shard_new}
use wroom.Media.Plane.{plane_run}
use wroom.Media.Plane.Members.{pids_of}
use wroom.Media.Plane.Following.{is_home}
use wroom.Media.Plane.Delivery.{RoomAgrees}
use wroom.Media.Plane.Running.{are_admissible, router_run, plane_run-Agrees}

-- What two shards have to share about a member, the second being shard `j`.
abbrev Shared : ℕ → ℕ → RoomShard → RoomShard → Bytes × MemberCtl → Type 0
Shared j n q q' (name, m) =
    (contains_key name q'.locals ≡ (m.pid % n == j))
    × (wants_of m.pid q.wants ≡ wants_of m.pid q'.wants)

subscribed-subscribers :
    (k : Which) (j n p : ℕ) (q q' : RoomShard) (members : Map Bytes MemberCtl)
    → All (Shared j n q q') members
    → subscribed_at k n q p j (pids_of members)
      ≡ not (is_empty (subscribers k q' p (pids_of members)))
subscribed-subscribers k j n p q q' [] all = refl
subscribed-subscribers video_rows j n p q q' ((name, m) ∷ members) all =
    ground (arith, all.0, subscribed-subscribers video_rows j n p q q' members all.1)
subscribed-subscribers audio_rows j n p q q' ((name, m) ∷ members) all =
    ground (arith, all.0, subscribed-subscribers audio_rows j n p q q' members all.1)
subscribed-subscribers any_rows j n p q q' ((name, m) ∷ members) all =
    ground (arith, all.0, subscribed-subscribers any_rows j n p q q' members all.1)

-- Every entry of a table is what a lookup of its key finds.
abbrev Finds : Map Bytes MemberCtl → Bytes × MemberCtl → Type 0
Finds table (name, m) = lookup name table ≡ some m

entries_found_in_cons :
    (key : Bytes) (old : MemberCtl) (table entries : Map Bytes MemberCtl)
    → contains_key key entries ≡ false
    → All (Finds table) entries
    → All (Finds ((key, old) ∷ table)) entries
unfolding contains_key lookup
entries_found_in_cons key old table [] absent all = tt
entries_found_in_cons key old table ((name, m) ∷ entries) absent all = (
  ground (arith, all.0, absent, list_beq_iff key name, list_beq_iff name key),
  entries_found_in_cons key old table entries (ground (arith, absent)) all.1,
)

entries_found : (table : Map Bytes MemberCtl) → HasDistinctKeys table → All (Finds table) table
unfolding lookup
entries_found [] d = tt
entries_found ((name, m) ∷ table) d = (
  ground (arith, (list_eq {A = ℕ}).decides name name),
  entries_found_in_cons name m table table d.0 (entries_found table d.1),
)

lookup-pids_of :
    (name : Bytes) (m : MemberCtl) (members : Map Bytes MemberCtl)
    → lookup name members ≡ some m
    → lookup name (pids_of members) ≡ some m.pid
unfolding lookup
lookup-pids_of name m [] found = absurd (ground (arith, found))
lookup-pids_of name m ((key, x) ∷ members) found =
    ground (arith, found, lookup-pids_of name m members)

wants_of-found :
    (pid : ℕ) (q q' : RoomShard) (w : WantSet)
    → lookup pid q.wants ≡ some w
    → lookup pid q'.wants ≡ some w
    → wants_of pid q.wants ≡ wants_of pid q'.wants
unfolding wants_of
wants_of-found pid q q' w here there = rw (here, wants_of) (rw (there, wants_of) refl)

module _ (i j n : ℕ) (room : Bytes) (r : RoomCtl) (q q' : RoomShard)
    (here : RoomAgrees i n room r q) (there : RoomAgrees j n room r q') where
  share :
      (name : Bytes) (m : MemberCtl) → lookup name r.members ≡ some m → Shared j n q q' (name, m)
  share name m found = (
    there.follows.homes name ∙ ap (is_home j n) (lookup-pids_of name m r.members found),
    wants_of-found m.pid q q' (resolve_wants r.members m.wants) (here.wanted name m found)
        (there.wanted name m found),
  )

  share_each :
      (entries : Map Bytes MemberCtl)
      → All (Finds r.members) entries
      → All (Shared j n q q') entries
  share_each [] all = tt
  share_each ((name, m) ∷ entries) all = (share name m all.0, share_each entries all.1)

  -- A bit of the mask tells whether the other shard has somebody to send to.
  masked-rows :
      (k : Which) (p : ℕ)
      → contains p (values (pids_of r.members)) ≡ true
      → masked k (demand_of p q.demand) j ≡ not (is_empty (get_or (fanout_rows k q') p []))
  masked-rows k p member =
      let at : contains p (values q.pids) ≡ true =
        ap (λ (m : Map Bytes ℕ). contains p (values m)) here.follows.same_pids ∙ member in
      let at' : contains p (values q'.pids) ≡ true =
        ap (λ (m : Map Bytes ℕ). contains p (values m)) there.follows.same_pids ∙ member in
      here.built.1 k p j at
      ∙ ap (subscribed_at k n q p j) here.follows.same_pids
      ∙ subscribed-subscribers k j n p q q' r.members
          (share_each r.members (entries_found r.members here.sound.keys))
      ∙ sym (
          ap (λ (row : List TransportKey). not (is_empty row))
            (there.built.0 k p at' ∙ ap (subscribers k q' p) there.follows.same_pids))

-- What shard `j` holds for a room, by the demand that shard `i` holds for it.
abbrev pub Routed : ℕ → RoomCtl → Shard → Shard → Type 0
Routed j r s s' =
    (q : RoomShard) × ((q' : RoomShard) × ((lookup r.id s.rooms ≡ some q)
        × (lookup r.id s'.rooms ≡ some q')
        × ((k : Which) (p : ℕ)
            → contains p (values (pids_of r.members)) ≡ true
            → masked k (demand_of p q.demand) j ≡ not (is_empty (get_or (fanout_rows k q') p [])))))

abbrev pub Routes : ℕ → ℕ → ℕ → List MediaControl → Router → Type 0
Routes i j n messages t =
    (s : Shard) × ((s' : Shard) × ((plane_run i messages t (shard_new n)
          ≡ ok (router_run messages t, s))
        × (plane_run j messages t (shard_new n) ≡ ok (router_run messages t, s'))
        × ((room : Bytes) (r : RoomCtl)
            → lookup room (router_run messages t).rooms ≡ some r
            → Routed j r s s')))

-- After control messages in which nobody joins a room that it is in, for every member of every room and any
-- two shards: bit `j` of the demand masks of the member at shard `i` is set exactly when shard `j` has a leg
-- to send the member's video, its audio or either to.
pub demand-fanout :
    (i j n : ℕ) (messages : List MediaControl)
    → are_admissible messages (router_new n) ≡ true
    → Routes i j n messages (router_new n)
demand-fanout i j n messages fair =
    let (s, e, agrees) = plane_run-Agrees i n messages fair in
    let (s', e', agrees') = plane_run-Agrees j n messages fair in
    (
      s,
      (
        s',
        (
          e,
          e',
          λ room r found.
              let (id, (q, at, agree)) = agrees.rooms room r found in
              let (id', (q', at', agree')) = agrees'.rooms room r found in
              (
                q,
                (
                  q',
                  (at, at', λ k p member. masked-rows i j n room r q q' agree agree' k p member),
                ),
              ),
        ),
      ),
    )
