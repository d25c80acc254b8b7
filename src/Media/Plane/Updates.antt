-- ===== src/Media/Plane/Updates.antt =====
-- Published tracks, changed subscriptions, offers and answers keep the router and a shard in agreement.
use wroom.Common.{
  ℕ, ◌≡◌, refl, sym, ap, ◌∙◌, List, [], ◌∷◌, none, some, ◌%◌, ◌<◌, All, ◌==◌, nat_eq, list_eq,
  pair_eq, Option-cases, Bool-cases, inl, inr, subst, map,
}
use wroom.Common.Bytes.{Bytes}
use wroom.Common.Maps.{Map, lookup, insert, values, insert-HasDistinctKeys, HasDistinctKeys}
use wroom.Common.Sets.{HasNoRepeats}
use wroom.Common.Results.{ok}
use wroom.Session.Messages.{Track}
use wroom.Media.Messages.{ShardCtl}
use wroom.Media.Rooms.{MemberCtl, RoomCtl, update_member, add_published, covered}
use wroom.Media.Router.{
  Router, Sent, to_shard, push_wants, mark_dirty, mark_all_dirty, to_member, on_tracks_published,
  on_subscriptions_changed,
}
use wroom.Media.Fanout.{RoomShard}
use wroom.Media.Shards.{Shard, on_shard_control}
use wroom.Media.Plane.{deliver}
use wroom.Media.Plane.Members.{pids_of, pids_of-insert_same}
use wroom.Media.Plane.Following.{IsSound, Follows, is_home}
use wroom.Media.Plane.Delivery.{put, deliver_none, push_wants-Delivered}
use wroom.Media.Plane.Agreement.{Agrees, Agrees-put}
use wroom.Media.Plane.Joining.{Settles, settle, done}

-- A change of one member that leaves its id.
module _ (name : Bytes) (change : MemberCtl → MemberCtl)
    (same : (m : MemberCtl) → (change m).pid ≡ m.pid) where
  update_member-pids :
      (r : RoomCtl)
      → (pids_of (update_member name change r).members ≡ pids_of r.members)
        × ((update_member name change r).id ≡ r.id)
        × ((update_member name change r).next_pid ≡ r.next_pid)
  unfolding update_member
  update_member-pids r = elim (Option-cases (lookup name r.members)) [
    | inl missing ↦ rw (missing, update_member) (refl, refl, refl)
    | inr (m, found) ↦
        rw (found, update_member)
          (pids_of-insert_same name (change m) m r.members found (same m), refl, refl)
  ]

  update_member-keys :
      (r : RoomCtl)
      → HasDistinctKeys r.members
      → HasDistinctKeys (update_member name change r).members
  unfolding update_member
  update_member-keys r d = elim (Option-cases (lookup name r.members)) [
    | inl missing ↦ rw (missing, update_member) d
    | inr (m, found) ↦
        rw (found, update_member) (insert-HasDistinctKeys name (change m) r.members d)
  ]

  update_member-IsSound : (r : RoomCtl) → IsSound r → IsSound (update_member name change r)
  update_member-IsSound r sound =
      let (pids, id, next) = update_member-pids r in
      record {
        keys = update_member-keys r sound.keys;
        fresh = subst (λ (m : Map Bytes ℕ). HasNoRepeats (values m)) (sym pids) sound.fresh;
        below =
            subst
              (λ (b : ℕ). All (λ p. p < b) (values (pids_of (update_member name change r).members)))
              (sym next)
              (subst (λ (m : Map Bytes ℕ). All (λ p. p < r.next_pid) (values m)) (sym pids)
                sound.below);
      }

  update_member-Follows :
      (i n : ℕ) (room : Bytes) (r : RoomCtl) (q : RoomShard)
      → Follows i n room r q
      → Follows i n room (update_member name change r) q
  update_member-Follows i n room r q f =
      let (pids, id, next) = update_member-pids r in
      record {
        named = f.named;
        same_pids = f.same_pids ∙ sym pids;
        bound = f.bound ∙ sym next;
        distinct = f.distinct;
        homes =
            λ key. f.homes key ∙ ap (λ (m : Map Bytes ℕ). is_home i n (lookup key m)) (sym pids);
      }

deliver_same :
    (i : ℕ) (j : ℕ) (message : ShardCtl) (s : Shard)
    → on_shard_control message s ≡ ok s
    → deliver i (to_shard j message ∷ []) s ≡ ok s
unfolding deliver
deliver_same i j message s e = elim (Bool-cases (j == i)) [
  | inl hit ↦ rw (hit, e) refl
  | inr miss ↦ rw miss refl
]

-- Messages that leave the tables.
pub to_member-same :
    (i : ℕ) (room name : Bytes) (message : ℕ → ShardCtl) (t : Router) (s : Shard)
    → ((id : ℕ) → on_shard_control (message id) s ≡ ok s)
    → deliver i (to_member room name message t) s ≡ ok s
unfolding to_member
to_member-same i room name message t s same = elim (Option-cases (lookup room t.rooms)) [
  | inl none_there ↦ rw (none_there, to_member) (deliver_none i s)
  | inr (r, here) ↦ elim (Option-cases (lookup name r.members)) [
    | inl missing ↦ rw (here, to_member) (rw missing (deliver_none i s))
    | inr (m, found) ↦
        rw (here, to_member)
          (rw found (deliver_same i (m.shard % t.n_shards) (message r.id) s (same r.id)))
  ]
]

module _ (i n : ℕ) (t : Router) (s : Shard) (agrees : Agrees i n t s) where
  pub settled_same : (sent : List Sent) → deliver i sent s ≡ ok s → Settles i n (t, sent) s
  settled_same sent e = (s, e, agrees)

  -- A change of one member, and the table of wants after it.
  update-Settles :
      (room name : Bytes) (change : MemberCtl → MemberCtl) (r : RoomCtl) (dirty : List (ℕ × Bytes))
      → ((m : MemberCtl) → (change m).pid ≡ m.pid)
      → lookup room t.rooms ≡ some r
      → Settles i n
          (
            record t {
              rooms = insert room (update_member name change r) t.rooms;
              dirty_offers = dirty;
            },
            push_wants (update_member name change r) ∷ [],
          )
          s
  update-Settles room name change r dirty same here =
      let r' = update_member name change r in
      let (id, (q, at, agree)) = agrees.rooms room r here in
      let id' = (update_member-pids name change same r).1 in
      let (after, e, agree') =
        push_wants-Delivered i n room r' q s agrees.shard_count
          (ap (λ (m : ℕ). lookup m s.rooms) id' ∙ at)
          (update_member-IsSound name change same r agree.sound)
          (update_member-Follows name change same i n room r q agree.follows) in
      (
        put r.id after s,
        e ∙ ap (λ (m : ℕ). done (put m after s)) id',
        Agrees-put i n t s agrees room r r' after dirty here id' agree',
      )

  published-eq :
      (room name : Bytes) (tracks : List Track) (r : RoomCtl)
      → lookup room t.rooms ≡ some r
      → on_tracks_published room name tracks t ≡ (
        record t {
          rooms =
              insert room
                (update_member name
                  (λ m. record m { published = add_published tracks m.published })
                  r)
                t.rooms;
          dirty_offers =
              mark_all_dirty r.id
                (covered name
                  (map (λ (track : Track). track.id) tracks)
                  (update_member name
                    (λ m. record m { published = add_published tracks m.published })
                    r).members)
                t.dirty_offers;
        },
        push_wants (
              update_member name (λ m. record m { published = add_published tracks m.published }) r)
            ∷ [],
      )
  unfolding on_tracks_published
  published-eq room name tracks r here = rw (here, on_tracks_published) refl

  published_missing :
      (room name : Bytes) (tracks : List Track)
      → lookup room t.rooms ≡ none
      → on_tracks_published room name tracks t ≡ (t, [])
  unfolding on_tracks_published
  published_missing room name tracks e = rw (e, on_tracks_published) refl

  pub on_tracks_published-Settles :
      (room name : Bytes) (tracks : List Track)
      → Settles i n (on_tracks_published room name tracks t) s
  on_tracks_published-Settles room name tracks = elim (Option-cases (lookup room t.rooms)) [
    | inl missing ↦
        settle i n (on_tracks_published room name tracks t) (t, []) s
          (published_missing room name tracks missing) (settled_same [] (deliver_none i s))
    | inr (r, here) ↦
        settle i n (on_tracks_published room name tracks t) _ s
          (published-eq room name tracks r here)
          (update-Settles room name (λ m. record m { published = add_published tracks m.published })
            r _ (λ m. refl) here)
  ]

  changed-eq :
      (room name : Bytes) (wants : List (Bytes × Bytes)) (r : RoomCtl)
      → lookup room t.rooms ≡ some r
      → on_subscriptions_changed room name wants t ≡ (
        record t {
          rooms = insert room (update_member name (λ m. record m { wants = some wants }) r) t.rooms;
          dirty_offers = mark_dirty r.id name t.dirty_offers;
        },
        push_wants (update_member name (λ m. record m { wants = some wants }) r) ∷ [],
      )
  unfolding on_subscriptions_changed
  changed-eq room name wants r here = rw (here, on_subscriptions_changed) refl

  changed_missing :
      (room name : Bytes) (wants : List (Bytes × Bytes))
      → lookup room t.rooms ≡ none
      → on_subscriptions_changed room name wants t ≡ (t, [])
  unfolding on_subscriptions_changed
  changed_missing room name wants e = rw (e, on_subscriptions_changed) refl

  pub on_subscriptions_changed-Settles :
      (room name : Bytes) (wants : List (Bytes × Bytes))
      → Settles i n (on_subscriptions_changed room name wants t) s
  on_subscriptions_changed-Settles room name wants = elim (Option-cases (lookup room t.rooms)) [
    | inl missing ↦
        settle i n (on_subscriptions_changed room name wants t) (t, []) s
          (changed_missing room name wants missing) (settled_same [] (deliver_none i s))
    | inr (r, here) ↦
        settle i n (on_subscriptions_changed room name wants t) _ s
          (changed-eq room name wants r here)
          (update-Settles room name (λ m. record m { wants = some wants }) r _ (λ m. refl) here)
  ]
