-- ===== src/Media/Plane/Agreement.antt =====
-- The router and a shard agree on every room after any run of control messages.
use wroom.Common.{
  ℕ, suc, ◌≤◌, ◌<◌, ◌≡◌, refl, sym, ap, ◌∙◌, arith, List, none, some, ◌==◌, nat_eq, list_eq,
  Bool-cases, inl, inr, subst, ◌⊎◌, ◌≢◌,
}
use wroom.Common.Bytes.{Bytes}
use wroom.Common.Equality.{list_beq_iff}
use wroom.Common.Maps.{
  Map, lookup, insert, remove, HasDistinctKeys, lookup-insert, lookup-remove, lookup-insert_self,
  insert-HasDistinctKeys, remove-HasDistinctKeys,
}
use wroom.Media.Rooms.{RoomCtl}
use wroom.Media.Router.{Router}
use wroom.Media.Fanout.{RoomShard}
use wroom.Media.Shards.{Shard}
use wroom.Media.Plane.Delivery.{RoomAgrees, put}

pub record Agrees (i n : ℕ) (t : Router) (s : Shard) : Type 0 where
  pub count : t.n_shards ≡ n
  pub shard_count : s.n_shards ≡ n
  pub names : HasDistinctKeys t.rooms
  pub ids : (room : Bytes) (r : RoomCtl) → lookup room t.rooms ≡ some r → r.id < t.next_room_id
  pub own_ids :
      (room room' : Bytes) (r r' : RoomCtl)
      → lookup room t.rooms ≡ some r
      → lookup room' t.rooms ≡ some r'
      → r.id ≡ r'.id
      → room ≡ room'
  pub unused : (id : ℕ) → t.next_room_id ≤ id → lookup id s.rooms ≡ none
  pub rooms :
      (room : Bytes) (r : RoomCtl)
      → lookup room t.rooms ≡ some r
      → (lookup room s.room_ids ≡ some r.id)
        × ((q : RoomShard) × (lookup r.id s.rooms ≡ some q) × RoomAgrees i n room r q)

-- A room of the router after its entry is written: the written one, or another as it was.
lookup_written :
    (room key : Bytes) (r' r : RoomCtl) (rooms : Map Bytes RoomCtl)
    → lookup key (insert room r' rooms) ≡ some r
    → ((room ≡ key) × (r ≡ r')) ⊎ ((room ≢ key) × (lookup key rooms ≡ some r))
lookup_written room key r' r rooms found = elim (Bool-cases (room == key)) [
  | inl hit ↦
      inl
        ((list_beq_iff room key).0 hit, ground (arith, found, hit, lookup-insert room key r' rooms))
  | inr miss ↦ inr (
    (λ e. ground (arith, miss, (list_beq_iff room key).1 e)),
    ground (arith, found, miss, lookup-insert room key r' rooms),
  )
]

-- The room of the same name before the write, with the same id.
before :
    (room key : Bytes) (r r' x : RoomCtl) (rooms : Map Bytes RoomCtl)
    → lookup room rooms ≡ some r
    → r'.id ≡ r.id
    → lookup key (insert room r' rooms) ≡ some x
    → (o : RoomCtl) × (lookup key rooms ≡ some o) × (o.id ≡ x.id)
before room key r r' x rooms here same found = elim (lookup_written room key r' x rooms found) [
  | inl (e, new) ↦ (
    r,
    subst (λ (k : Bytes). lookup k rooms ≡ some r) e here,
    sym same ∙ sym (ap (λ (y : RoomCtl). y.id) new),
  )
  | inr (ne, old) ↦ (x, old, refl)
]

insert_other :
    (room key : Bytes) (id : ℕ) (room_ids : Map Bytes ℕ)
    → room ≢ key
    → lookup key (insert room id room_ids) ≡ lookup key room_ids
insert_other room key id room_ids ne = elim (Bool-cases (room == key)) [
  | inl hit ↦ absurd (ne ((list_beq_iff room key).0 hit))
  | inr miss ↦ ground (arith, miss, lookup-insert room key id room_ids)
]

-- A room under the next id, new on both sides.
abbrev pub opened : Router → Bytes → RoomCtl → List (ℕ × Bytes) → Router
opened t room r dirty = record t {
  rooms = insert room r t.rooms;
  next_room_id = suc t.next_room_id;
  dirty_offers = dirty;
}

abbrev pub shard_opened : Shard → Bytes → ℕ → RoomShard → Shard
shard_opened s room id q = record s {
  room_ids = insert room id s.room_ids;
  rooms = insert id q s.rooms;
}

module _ (i n : ℕ) (t : Router) (s : Shard) (agrees : Agrees i n t s) where
  -- Another room's tables are not touched by a write under a room's id.
  lookup-put_other :
      (room key : Bytes) (r x : RoomCtl) (q : RoomShard)
      → lookup room t.rooms ≡ some r
      → lookup key t.rooms ≡ some x
      → room ≢ key
      → lookup x.id (insert r.id q s.rooms) ≡ lookup x.id s.rooms
  lookup-put_other room key r x q here there ne = elim (Bool-cases (r.id == x.id)) [
    | inl hit ↦
        absurd (ne (agrees.own_ids room key r x here there ((nat_eq.decides r.id x.id).0 hit)))
    | inr miss ↦ ground (arith, miss, lookup-insert r.id x.id q s.rooms)
  ]

  abbrev RoomHolds : Bytes → RoomCtl → Map Bytes ℕ → Map ℕ RoomShard → Type 0
  RoomHolds room r room_ids rooms =
      (lookup room room_ids ≡ some r.id)
      × ((q : RoomShard) × (lookup r.id rooms ≡ some q) × RoomAgrees i n room r q)

  held_other :
      (room key : Bytes) (r x : RoomCtl) (q : RoomShard)
      → lookup room t.rooms ≡ some r
      → lookup key t.rooms ≡ some x
      → room ≢ key
      → RoomHolds key x s.room_ids (insert r.id q s.rooms)
  held_other room key r x q here there ne =
      let (id, (old, at, same)) = agrees.rooms key x there in
      (id, (old, lookup-put_other room key r x q here there ne ∙ at, same))

  held_here :
      (room key : Bytes) (r r' x : RoomCtl) (q : RoomShard)
      → lookup room t.rooms ≡ some r
      → r'.id ≡ r.id
      → RoomAgrees i n room r' q
      → room ≡ key
      → x ≡ r'
      → RoomHolds key x s.room_ids (insert r.id q s.rooms)
  held_here room key r r' x q here same agree e new =
      subst (λ (k : Bytes). RoomHolds k x s.room_ids (insert r.id q s.rooms)) e
        (subst (λ (y : RoomCtl). RoomHolds room y s.room_ids (insert r.id q s.rooms)) (sym new)
          (
            (agrees.rooms room r here).0 ∙ ap (λ (m : ℕ). some m) (sym same),
            (
              q,
              ap (λ (m : ℕ). lookup m (insert r.id q s.rooms)) same
                  ∙ lookup-insert_self r.id q s.rooms,
              agree,
            ),
          ))

  -- Writing one room on both sides.
  pub Agrees-put :
      (room : Bytes) (r r' : RoomCtl) (q : RoomShard) (dirty : List (ℕ × Bytes))
      → lookup room t.rooms ≡ some r
      → r'.id ≡ r.id
      → RoomAgrees i n room r' q
      → Agrees i n
          (record t { rooms = insert room r' t.rooms; dirty_offers = dirty })
          (put r.id q s)
  Agrees-put room r r' q dirty here same agree = record {
    count = agrees.count;
    shard_count = agrees.shard_count;
    names = insert-HasDistinctKeys room r' t.rooms agrees.names;
    ids = λ key x found.
        let (o, at, id) = before room key r r' x t.rooms here same found in
        omega (arith, agrees.ids key o at, id);
    own_ids = λ key key' x x' found found' e.
        let (o, at, id) = before room key r r' x t.rooms here same found in
        let (o', at', id') = before room key' r r' x' t.rooms here same found' in
        agrees.own_ids key key' o o' at at' (id ∙ e ∙ sym id');
    unused = λ id high. ground (
      arith,
      agrees.unused id high,
      agrees.ids room r here,
      high,
      lookup-insert r.id id q s.rooms,
      nat_eq.decides r.id id,
    );
    rooms = λ key x found. elim (lookup_written room key r' x t.rooms found) [
      | inl (e, new) ↦ held_here room key r r' x q here same agree e new
      | inr (ne, old) ↦ held_other room key r x q here old ne
    ];
  }

  still_there :
      (room key : Bytes) (x : RoomCtl)
      → lookup key (remove room t.rooms) ≡ some x
      → (room ≢ key) × (lookup key t.rooms ≡ some x)
  still_there room key x found = elim (Bool-cases (room == key)) [
    | inl hit ↦ absurd (ground (arith, found, hit, lookup-remove room key t.rooms agrees.names))
    | inr miss ↦ (
      (λ e. ground (arith, miss, (list_beq_iff room key).1 e)),
      ground (arith, found, miss, lookup-remove room key t.rooms agrees.names),
    )
  ]

  -- Removing a room at the router, whatever the shard keeps of it.
  pub Agrees-drop :
      (room : Bytes) (r : RoomCtl) (q : RoomShard) (dirty : List (ℕ × Bytes))
      → lookup room t.rooms ≡ some r
      → Agrees i n (record t { rooms = remove room t.rooms; dirty_offers = dirty }) (put r.id q s)
  Agrees-drop room r q dirty here = record {
    count = agrees.count;
    shard_count = agrees.shard_count;
    names = remove-HasDistinctKeys room t.rooms agrees.names;
    ids = λ key x found. agrees.ids key x (still_there room key x found).1;
    own_ids = λ key key' x x' found found' e.
        agrees.own_ids key key' x x' (still_there room key x found).1
          (still_there room key' x' found').1 e;
    unused = λ id high. ground (
      arith,
      agrees.unused id high,
      agrees.ids room r here,
      high,
      lookup-insert r.id id q s.rooms,
      nat_eq.decides r.id id,
    );
    rooms = λ key x found.
        let (ne, old) = still_there room key x found in held_other room key r x q here old ne;
  }

  opened-id :
      (room key : Bytes) (r x : RoomCtl)
      → r.id ≡ t.next_room_id
      → lookup key (insert room r t.rooms) ≡ some x
      → ((room ≡ key) × (x ≡ r)) ⊎ ((room ≢ key) × (lookup key t.rooms ≡ some x) × (x.id < r.id))
  opened-id room key r x id found = elim (lookup_written room key r x t.rooms found) [
    | inl new ↦ inl new
    | inr (ne, old) ↦ inr (ne, old, omega (arith, agrees.ids key x old, id))
  ]

  opened-ids :
      (room key : Bytes) (r x : RoomCtl)
      → r.id ≡ t.next_room_id
      → lookup key (insert room r t.rooms) ≡ some x
      → x.id < suc t.next_room_id
  opened-ids room key r x id found = elim (opened-id room key r x id found) [
    | inl (e, new) ↦ omega (arith, ap (λ (y : RoomCtl). y.id) new, id)
    | inr (ne, old, less) ↦ omega (arith, less, id)
  ]

  opened-own_ids :
      (room key key' : Bytes) (r x x' : RoomCtl)
      → r.id ≡ t.next_room_id
      → lookup key (insert room r t.rooms) ≡ some x
      → lookup key' (insert room r t.rooms) ≡ some x'
      → x.id ≡ x'.id
      → key ≡ key'
  opened-own_ids room key key' r x x' id found found' e = elim (opened-id room key r x id found) [
    | inl (k, new) ↦ elim (opened-id room key' r x' id found') [
      | inl (k', new') ↦ sym k ∙ k'
      | inr (ne', old', less') ↦ absurd (omega (arith, ap (λ (y : RoomCtl). y.id) new, less', e))
    ]
    | inr (ne, old, less) ↦ elim (opened-id room key' r x' id found') [
      | inl (k', new') ↦ absurd (omega (arith, ap (λ (y : RoomCtl). y.id) new', less, e))
      | inr (ne', old', less') ↦ agrees.own_ids key key' x x' old old' e
    ]
  ]

  opened_here :
      (room key : Bytes) (r x : RoomCtl) (q : RoomShard)
      → RoomAgrees i n room r q
      → room ≡ key
      → x ≡ r
      → RoomHolds key x (insert room r.id s.room_ids) (insert r.id q s.rooms)
  opened_here room key r x q agree e new =
      subst (λ (k : Bytes). RoomHolds k x (insert room r.id s.room_ids) (insert r.id q s.rooms)) e
        (subst
          (λ (y : RoomCtl). RoomHolds room y (insert room r.id s.room_ids) (insert r.id q s.rooms))
          (sym new)
          (lookup-insert_self room r.id s.room_ids, (q, lookup-insert_self r.id q s.rooms, agree)))

  opened_other :
      (room key : Bytes) (r x : RoomCtl) (q : RoomShard)
      → room ≢ key
      → lookup key t.rooms ≡ some x
      → x.id < r.id
      → RoomHolds key x (insert room r.id s.room_ids) (insert r.id q s.rooms)
  opened_other room key r x q ne old less =
      let (id, (o, at, same)) = agrees.rooms key x old in
      (
        insert_other room key r.id s.room_ids ne ∙ id,
        (
          o,
          ground (arith, at, less, lookup-insert r.id x.id q s.rooms, nat_eq.decides r.id x.id),
          same,
        ),
      )

  pub Agrees-open :
      (room : Bytes) (r : RoomCtl) (q : RoomShard) (dirty : List (ℕ × Bytes))
      → r.id ≡ t.next_room_id
      → RoomAgrees i n room r q
      → Agrees i n (opened t room r dirty) (shard_opened s room r.id q)
  Agrees-open room r q dirty id agree = record {
    count = agrees.count;
    shard_count = agrees.shard_count;
    names = insert-HasDistinctKeys room r t.rooms agrees.names;
    ids = λ key x found. opened-ids room key r x id found;
    own_ids = λ key key' x x' found found' e. opened-own_ids room key key' r x x' id found found' e;
    unused = λ m high. ground (
      arith,
      agrees.unused m (omega (arith, high)),
      id,
      high,
      lookup-insert r.id m q s.rooms,
      nat_eq.decides r.id m,
    );
    rooms = λ key x found. elim (opened-id room key r x id found) [
      | inl (e, new) ↦ opened_here room key r x q agree e new
      | inr (ne, old, less) ↦ opened_other room key r x q ne old less
    ];
  }
