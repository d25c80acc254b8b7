-- ===== src/Rtp/Extensions.antt =====
-- Header extensions of crates/wroom-edge/src/rtp.rs: `KnownExt`, `ExtMap` and `ExtIter`.
pub mod Decoding
use wroom.Common.{
  ℕ, zero, suc, ◌+◌, ◌-◌, ◌*◌, ◌/◌, ◌%◌, List, [], ◌∷◌, Option, none, some, Bool, true, false, ◌&&◌,
  ltb, leb, nat_beq, if◌then◌else◌, length, get_or, set, take, drop, replicate,
}
use wroom.Common.Bytes.{Bytes, byte_at}

pub data KnownExt : Type 0 where
  mid rid repaired_rid twcc abs_send_time audio_level : KnownExt

-- `kind as usize`.
unfoldable pub kind_index : KnownExt → ℕ
kind_index mid = 0
kind_index rid = 1
kind_index repaired_rid = 2
kind_index twcc = 3
kind_index abs_send_time = 4
kind_index audio_level = 5

-- `==` on kinds.
abbrev pub kind_beq : KnownExt → KnownExt → Bool
kind_beq a b = nat_beq (kind_index a) (kind_index b)

pub record ExtMap : Type 0 where
  pub by_id : List (Option KnownExt)
  pub id_by_kind : List ℕ

unfoldable pub empty : ExtMap
empty = record { by_id = replicate 256 none; id_by_kind = replicate 6 0 }

unfoldable pub insert : ExtMap → ℕ → KnownExt → ExtMap
unfolding kind_index
insert m id kind = if nat_beq id 0 then m else record {
  by_id = set m.by_id id (some kind);
  id_by_kind = set m.id_by_kind (kind_index kind) id;
}

insert_pairs : ExtMap → List (ℕ × KnownExt) → ExtMap
unfolding insert
insert_pairs m [] = m
insert_pairs m ((id, kind) ∷ ps) = insert_pairs (insert m id kind) ps

unfoldable pub from_pairs : List (ℕ × KnownExt) → ExtMap
unfolding insert_pairs empty
from_pairs ps = insert_pairs empty ps

-- `ExtMap::kind` and `ExtMap::id`.
unfoldable pub kind_of : ExtMap → ℕ → Option KnownExt
kind_of m id = get_or m.by_id id none

unfoldable pub id_of : ExtMap → KnownExt → Option ℕ
unfolding kind_index
id_of m kind =
    let id = get_or m.id_by_kind (kind_index kind) 0 in if nat_beq id 0 then none else some id

-- What `ExtIter` yields from the area that is left. Each element takes at least one byte, so that the
-- length of the area is enough fuel.
unfoldable pub one_byte_elements : ℕ → Bytes → List (ℕ × Bytes)
one_byte_elements zero area = []
one_byte_elements (suc fuel) [] = []
one_byte_elements (suc fuel) (b ∷ area) =
    let len = b % 16 + 1 in
    let padded = one_byte_elements fuel area in
    let later = one_byte_elements fuel (drop len area) in
    if nat_beq (b / 16) 15
    then []
    else if nat_beq (b / 16) 0
    then padded
    else if ltb (length area) len
    then []
    else (b / 16, take len area) ∷ later

unfoldable pub two_byte_elements : ℕ → Bytes → List (ℕ × Bytes)
two_byte_elements zero area = []
two_byte_elements (suc fuel) [] = []
two_byte_elements (suc fuel) (id ∷ []) = []
two_byte_elements (suc fuel) (id ∷ len ∷ area) =
    let padded = two_byte_elements fuel (len ∷ area) in
    let later = two_byte_elements fuel (drop len area) in
    if nat_beq id 0
    then padded
    else if ltb (length area) len
    then []
    else (id, take len area) ∷ later

unfoldable pub elements : Bool → Bytes → List (ℕ × Bytes)
unfolding one_byte_elements two_byte_elements
elements two_byte area =
    if two_byte then two_byte_elements (length area) area else one_byte_elements (length area) area
