-- ===== src/Media/Plane/Running.antt =====
-- Every control message, and so every run of them, keeps the router and a shard in agreement.
use wroom.Common.{
  ℕ, ◌≡◌, refl, sym, ◌∙◌, arith, Bool, true, false, not, ◌&&◌, List, [], ◌∷◌, none, some, nat_eq,
  list_eq, pair_eq, Option-cases, Bool-cases, inl, inr, subst,
}
use wroom.Common.Bytes.{Bytes}
use wroom.Common.Maps.{lookup, insert, remove, contains_key}
use wroom.Common.Results.{ok}
use wroom.Media.Messages.{
  MediaControl, joined, publisher_offer, subscriber_answer, tracks_published, subscriptions_changed,
  left, pub_offer, sub_answer, member_gone,
}
use wroom.Media.Rooms.{RoomCtl}
use wroom.Media.Router.{
  Router, to_all, push_wants, without_offer, is_empty, remove_member, on_left, on_control,
  router_new,
}
use wroom.Media.Shards.{Shard, on_shard_control, shard_new}
use wroom.Media.Plane.{deliver, plane_step, plane_run}
use wroom.Media.Plane.Delivery.{put, deliver_none, without, gone-Delivered, gone_last}
use wroom.Media.Plane.Agreement.{Agrees, Agrees-put, Agrees-drop}
use wroom.Media.Plane.Joining.{Settles, settle, on_joined-Settles}
use wroom.Media.Plane.Updates.{
  settled_same, to_member-same, on_tracks_published-Settles, on_subscriptions_changed-Settles,
}

left_missing :
    (room name : Bytes) (t : Router) → lookup room t.rooms ≡ none → on_left room name t ≡ (t, [])
unfolding on_left
left_missing room name t e = rw (e, on_left) refl

left_stranger :
    (room name : Bytes) (t : Router) (r : RoomCtl)
    → lookup room t.rooms ≡ some r
    → contains_key name r.members ≡ false
    → on_left room name t ≡ (t, [])
unfolding on_left
left_stranger room name t r here e = rw (here, on_left) (rw e refl)

left_member :
    (room name : Bytes) (t : Router) (r : RoomCtl)
    → lookup room t.rooms ≡ some r
    → contains_key name r.members ≡ true
    → on_left room name t ≡ remove_member room name r t
unfolding on_left
left_member room name t r here e = rw (here, on_left) (rw e refl)

module _ (room name : Bytes) (r : RoomCtl) (t : Router) where
  removed_last :
      is_empty (remove name r.members) ≡ true
      → remove_member room name r t ≡ (
        record t {
          rooms = remove room t.rooms;
          dirty_offers = without_offer (r.id, name) t.dirty_offers;
        },
        to_all (λ shard. member_gone r.id name) ∷ [],
      )
  unfolding remove_member
  removed_last e = rw e refl

  removed_one :
      is_empty (remove name r.members) ≡ false
      → remove_member room name r t ≡ (
        record t {
          rooms = insert room (without name r) t.rooms;
          dirty_offers = without_offer (r.id, name) t.dirty_offers;
        },
        to_all (λ shard. member_gone r.id name) ∷ push_wants (without name r) ∷ [],
      )
  unfolding remove_member
  removed_one e = rw e refl

module _ (i n : ℕ) (t : Router) (s : Shard) (agrees : Agrees i n t s) where
  remove_member-Settles :
      (room name : Bytes) (r : RoomCtl)
      → lookup room t.rooms ≡ some r
      → contains_key name r.members ≡ true
      → Settles i n (remove_member room name r t) s
  remove_member-Settles room name r here member =
      let (id, (q, at, agree)) = agrees.rooms room r here in
      let dirty = without_offer (r.id, name) t.dirty_offers in
      elim (Bool-cases (is_empty (remove name r.members))) [
        | inl last ↦
            let (after, e) =
              gone_last i n room name r q s agrees.shard_count at agree.sound member
                agree.follows in
            settle i n (remove_member room name r t) _ s (removed_last room name r t last)
              (put r.id after s, e, Agrees-drop i n t s agrees room r after dirty here)
        | inr more ↦
            let (after, e, agree') =
              gone-Delivered i n room name r q s agrees.shard_count at agree.sound member
                agree.follows in
            settle i n (remove_member room name r t) _ s (removed_one room name r t more) (
              put r.id after s,
              e,
              Agrees-put i n t s agrees room r (without name r) after dirty here refl agree',
            )
      ]

  on_left-Settles : (room name : Bytes) → Settles i n (on_left room name t) s
  on_left-Settles room name = elim (Option-cases (lookup room t.rooms)) [
    | inl missing ↦
        settle i n (on_left room name t) (t, []) s (left_missing room name t missing)
          (settled_same i n t s agrees [] (deliver_none i s))
    | inr (r, here) ↦ elim (Bool-cases (contains_key name r.members)) [
      | inl member ↦
          settle i n (on_left room name t) (remove_member room name r t) s
            (left_member room name t r here member) (remove_member-Settles room name r here member)
      | inr stranger ↦
          settle i n (on_left room name t) (t, []) s (left_stranger room name t r here stranger)
            (settled_same i n t s agrees [] (deliver_none i s))
    ]
  ]

-- Nobody joins a room that it is in.
unfoldable pub is_admissible : MediaControl → Router → Bool
unfolding lookup contains_key
is_admissible (joined room name reply) t = elim (lookup room t.rooms) [
  | none ↦ true
  | some r ↦ not (contains_key name r.members)
]
is_admissible (publisher_offer room name sdp) t = true
is_admissible (subscriber_answer room name sdp) t = true
is_admissible (tracks_published room name tracks) t = true
is_admissible (subscriptions_changed room name wants) t = true
is_admissible (left room name) t = true

joined-absent :
    (room name : Bytes) (reply : ℕ) (t : Router) (r : RoomCtl)
    → is_admissible (joined room name reply) t ≡ true
    → lookup room t.rooms ≡ some r
    → contains_key name r.members ≡ false
unfolding is_admissible
joined-absent room name reply t r fair here = ground (arith, fair, here)

joined-Settles :
    (i n : ℕ) (t : Router) (s : Shard) (room name : Bytes) (reply : ℕ)
    → Agrees i n t s
    → is_admissible (joined room name reply) t ≡ true
    → Settles i n (on_control (joined room name reply) t) s
unfolding on_control
joined-Settles i n t s room name reply agrees fair =
    subst (λ (m : ℕ). Settles i m (on_control (joined room name reply) t) s) agrees.count
      (on_joined-Settles i t s (subst (λ (m : ℕ). Agrees i m t s) (sym agrees.count) agrees) room
        name reply (λ r here. joined-absent room name reply t r fair here))

offer-same :
    (id : ℕ) (name sdp : Bytes) (s : Shard) → on_shard_control (pub_offer id name sdp) s ≡ ok s
unfolding on_shard_control
offer-same id name sdp s = refl

answer-same :
    (id : ℕ) (name sdp : Bytes) (s : Shard) → on_shard_control (sub_answer id name sdp) s ≡ ok s
unfolding on_shard_control
answer-same id name sdp s = refl

on_control-Settles :
    (i n : ℕ) (message : MediaControl) (t : Router) (s : Shard)
    → Agrees i n t s
    → is_admissible message t ≡ true
    → Settles i n (on_control message t) s
unfolding on_control
on_control-Settles i n (joined room name reply) t s agrees ok_join =
    joined-Settles i n t s room name reply agrees ok_join
on_control-Settles i n (publisher_offer room name sdp) t s agrees ok_join =
    settled_same i n t s agrees _ (
      to_member-same i room name (λ id. pub_offer id name sdp) t s (λ id. offer-same id name sdp s))
on_control-Settles i n (subscriber_answer room name sdp) t s agrees ok_join =
    settled_same i n t s agrees _ (
      to_member-same i room name (λ id. sub_answer id name sdp) t s
        (λ id. answer-same id name sdp s))
on_control-Settles i n (tracks_published room name tracks) t s agrees ok_join =
    on_tracks_published-Settles i n t s agrees room name tracks
on_control-Settles i n (subscriptions_changed room name wants) t s agrees ok_join =
    on_subscriptions_changed-Settles i n t s agrees room name wants
on_control-Settles i n (left room name) t s agrees ok_join =
    on_left-Settles i n t s agrees room name

plane_step-from :
    (i : ℕ) (message : MediaControl) (t : Router) (s after : Shard)
    → deliver i (on_control message t).1 s ≡ ok after
    → plane_step i message t s ≡ ok ((on_control message t).0, after)
unfolding plane_step
plane_step-from i message t s after e = rw e refl

plane_run-next :
    (i : ℕ) (message : MediaControl) (messages : List MediaControl) (t u : Router) (s v : Shard)
    → plane_step i message t s ≡ ok (u, v)
    → plane_run i (message ∷ messages) t s ≡ plane_run i messages u v
unfolding plane_run
plane_run-next i message messages t u s v e = rw e refl

-- In no step of the run does somebody join a room that it is in.
unfoldable pub are_admissible : List MediaControl → Router → Bool
unfolding is_admissible on_control
are_admissible [] t = true
are_admissible (message ∷ messages) t =
    is_admissible message t && are_admissible messages (on_control message t).0

-- The router after the messages.
abbrev pub router_run : List MediaControl → Router → Router
router_run [] t = t
router_run (message ∷ messages) t = router_run messages (on_control message t).0

abbrev pub Runs : ℕ → ℕ → List MediaControl → Router → Shard → Type 0
Runs i n messages t s =
    (v : Shard) × (plane_run i messages t s ≡ ok (router_run messages t, v))
    × Agrees i n (router_run messages t) v

module _ (message : MediaControl) (messages : List MediaControl) (t : Router) where
  fair_now : are_admissible (message ∷ messages) t ≡ true → is_admissible message t ≡ true
  unfolding are_admissible
  fair_now fair = ground (arith, fair)

  fair_later :
      are_admissible (message ∷ messages) t ≡ true
      → are_admissible messages (on_control message t).0 ≡ true
  unfolding are_admissible
  fair_later fair = ground (arith, fair)

run-Agrees :
    (i n : ℕ) (messages : List MediaControl) (t : Router) (s : Shard)
    → Agrees i n t s
    → are_admissible messages t ≡ true
    → Runs i n messages t s
unfolding plane_run
run-Agrees i n [] t s agrees fair = (s, refl, agrees)
run-Agrees i n (message ∷ messages) t s agrees fair =
    let (v, e, next) =
      on_control-Settles i n message t s agrees (fair_now message messages t fair) in
    let (w, e', final) =
      run-Agrees i n messages (on_control message t).0 v next
        (fair_later message messages t fair) in
    (
      w,
      plane_run-next i message messages t (on_control message t).0 s v
            (plane_step-from i message t s v e)
          ∙ e',
      final,
    )

new-Agrees : (i n : ℕ) → Agrees i n (router_new n) (shard_new n)
unfolding router_new shard_new lookup contains_key
new-Agrees i n = record {
  count = refl;
  shard_count = refl;
  names = tt;
  ids = λ room r found. ground (arith, found);
  own_ids = λ room room' r r' found found' e. absurd (ground (arith, found));
  unused = λ id high. refl;
  rooms = λ room r found. absurd (ground (arith, found));
}

-- From the start, under any control messages in which nobody joins a room that it is in, no shard panics,
-- and afterwards each shard agrees with the router: it knows the id of every room of the router and has
-- tables for it; in them the members and their ids are the router's, the local members are those whose home
-- the shard is, the wants of a member are the router's, resolved, and the fan-out tables fit.
pub plane_run-Agrees :
    (i n : ℕ) (messages : List MediaControl)
    → are_admissible messages (router_new n) ≡ true
    → Runs i n messages (router_new n) (shard_new n)
plane_run-Agrees i n messages fair =
    run-Agrees i n messages (router_new n) (shard_new n) (new-Agrees i n) fair
