-- ===== src/Media/Rooms.antt =====
-- The rooms of `Router` in crates/wroomd/src/media.rs: members, what they want and what they published.
use wroom.Common.{
  ℕ, suc, Bool, true, false, ◌||◌, ◌&&◌, not, List, [], ◌∷◌, ◌++◌, Option, none, some,
  if◌then◌else◌, ◌==◌, nat_eq, list_eq, pair_eq,
}
use wroom.Common.Bytes.{Bytes}
use wroom.Common.Decimal.{decimal}
use wroom.Common.Maps.{Map, lookup, insert, contains_key}
use wroom.Common.Sets.{contains}
use wroom.Registry.Types.{TrackKind}
use wroom.Session.Messages.{Track}
use wroom.Media.Messages.{MediaKind, WantSet, WantsTable, TrackRef, kind_u8, audio, video}

pub record MemberCtl : Type 0 where
  pub pid : ℕ
  pub shard : ℕ
  pub published : List (Bytes × MediaKind)
  pub wants : Option (List (Bytes × Bytes))

pub record RoomCtl : Type 0 where
  pub id : ℕ
  pub members : Map Bytes MemberCtl
  pub next_pid : ℕ

-- The (publisher, kind) pairs of one wanted track, added to those found before.
unfoldable pub resolve_published :
    ℕ → Bytes → List (Bytes × MediaKind) → List (ℕ × ℕ) → List (ℕ × ℕ)
resolve_published pid track [] found = found
resolve_published pid track ((id, kind) ∷ published) found =
    let hit : ℕ × ℕ = (pid, kind_u8 kind) in
    resolve_published pid track published
      (if (id == track) && not (contains hit found) then hit ∷ found else found)

unfoldable pub resolve_each :
    Map Bytes MemberCtl → List (Bytes × Bytes) → List (ℕ × ℕ) → List (ℕ × ℕ)
unfolding resolve_published lookup
resolve_each members [] found = found
resolve_each members ((owner, track) ∷ wants) found =
    resolve_each members wants (elim (lookup owner members) [
      | none ↦ found
      | some m ↦ resolve_published m.pid track m.published found
    ])

unfoldable pub resolve_wants : Map Bytes MemberCtl → Option (List (Bytes × Bytes)) → WantSet
unfolding resolve_each
resolve_wants members none = none
resolve_wants members (some wants) = some (resolve_each members wants [])

unfoldable pub is_wanted : WantSet → ℕ → MediaKind → Bool
is_wanted none pid kind = true
is_wanted (some w) pid kind = contains (pid, kind_u8 kind) w

abbrev pub canonical_mid : ℕ → ℕ → Bytes
canonical_mid pid i = b'm' ∷ (decimal pid ++ (b'.' ∷ decimal i))

-- The wanted ones of a member's tracks, from index `i`.
unfoldable pub wanted_of : WantSet → Bytes → ℕ → ℕ → List (Bytes × MediaKind) → List TrackRef
unfolding is_wanted
wanted_of w owner pid i [] = []
wanted_of w owner pid i ((id, kind) ∷ published) =
    let rest = wanted_of w owner pid (suc i) published in
    if is_wanted w pid kind
    then record { owner = owner; track_id = id; kind = kind; mid = canonical_mid pid i } ∷ rest
    else rest

unfoldable pub wanted_from : WantSet → Bytes → Map Bytes MemberCtl → List TrackRef
unfolding wanted_of
wanted_from w name [] = []
wanted_from w name ((owner, m) ∷ members) =
    let rest = wanted_from w name members in
    if owner == name then rest else wanted_of w owner m.pid 0 m.published ++ rest

unfoldable pub wanted_tracks : RoomCtl → Bytes → List TrackRef
unfolding resolve_wants wanted_from lookup
wanted_tracks r name = elim (lookup name r.members) [
  | none ↦ []
  | some m ↦ wanted_from (resolve_wants r.members m.wants) name r.members
]

-- The table for some of the members, resolved against all.
unfoldable pub wants_of_members : Map Bytes MemberCtl → Map Bytes MemberCtl → WantsTable
unfolding resolve_wants
wants_of_members all [] = []
wants_of_members all ((name, m) ∷ members) =
    (m.pid, resolve_wants all m.wants) ∷ wants_of_members all members

unfoldable pub resolved_wants : RoomCtl → WantsTable
unfolding wants_of_members
resolved_wants r = wants_of_members r.members r.members

abbrev pub media_kind_of : TrackKind → MediaKind
media_kind_of TrackKind.audio = audio
media_kind_of TrackKind.video = video
media_kind_of TrackKind.unspecified = video

unfoldable pub add_published : List Track → List (Bytes × MediaKind) → List (Bytes × MediaKind)
unfolding contains_key
add_published [] published = published
add_published (track ∷ tracks) published = add_published tracks (
    if contains_key track.id published
    then published
    else published ++ ((track.id, media_kind_of track.kind) ∷ []))

unfoldable pub update_member : Bytes → (MemberCtl → MemberCtl) → RoomCtl → RoomCtl
unfolding lookup insert
update_member name change r = elim (lookup name r.members) [
  | none ↦ r
  | some m ↦ record r { members = insert name (change m) r.members }
]

unfoldable pub wants_any : Bytes → List Bytes → List (Bytes × Bytes) → Bool
wants_any owner tracks [] = false
wants_any owner tracks ((o, track) ∷ wants) =
    ((o == owner) && contains track tracks) || wants_any owner tracks wants

-- The members, other than the publisher, whose wants cover some of the tracks.
unfoldable pub covered : Bytes → List Bytes → Map Bytes MemberCtl → List Bytes
unfolding wants_any
covered owner tracks [] = []
covered owner tracks ((name, m) ∷ members) =
    let rest = covered owner tracks members in
    let wanted : Bool = elim m.wants [ none ↦ true | some w ↦ wants_any owner tracks w ] in
    if not (name == owner) && wanted then name ∷ rest else rest
