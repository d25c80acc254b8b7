-- ===== src/Ice/Addresses.antt =====
-- `std::net::SocketAddr`, and UTF-8.
use wroom.Common.{
  ℕ, zero, suc, [], ◌∷◌, Bool, true, false, ◌&&◌, ◌≡◌, ◌↔◌, arith, Eq, ◌==◌, nat_eq, list_eq,
  nat_beq, leb, ltb, if◌then◌else◌, length,
}
use wroom.Common.Equality.{list_beq_iff}
use wroom.Common.Bytes.{Bytes}

-- An address and a port; for IPv6 also the flow information and the scope.
pub data SocketAddr : Type 0 where
  v4 : ℕ → ℕ → SocketAddr
  v6 : Bytes → ℕ → ℕ → ℕ → SocketAddr

unfoldable pub addr_beq : SocketAddr → SocketAddr → Bool
addr_beq (v4 ip port) (v4 ip' port') = (ip == ip') && (port == port')
addr_beq (v6 ip port flow scope) (v6 ip' port' flow' scope') =
    (ip == ip') && (port == port') && (flow == flow') && (scope == scope')
addr_beq (v4 ip port) (v6 ip' port' flow' scope') = false
addr_beq (v6 ip port flow scope) (v4 ip' port') = false

pub addr_beq_iff : (a b : SocketAddr) → (addr_beq a b ≡ true) ↔ (a ≡ b)
unfolding addr_beq
addr_beq_iff (v4 ip port) (v4 ip' port') = ground arith
addr_beq_iff (v6 ip port flow scope) (v6 ip' port' flow' scope') =
    ground (arith, list_beq_iff ip ip')
addr_beq_iff (v4 ip port) (v6 ip' port' flow' scope') = ground arith
addr_beq_iff (v6 ip port flow scope) (v4 ip' port') = ground arith

instance abbrev pub addr_eq : Eq SocketAddr
addr_eq = record { equals = addr_beq; decides = addr_beq_iff }

abbrev continues : ℕ → Bool
continues b = leb 0x80 b && leb b 0xbf

-- The second byte that may follow the first of a sequence of three or four.
abbrev is_second : ℕ → ℕ → Bool
is_second b c =
    if nat_beq b 0xe0
    then leb 0xa0 c && leb c 0xbf
    else if nat_beq b 0xed
    then leb 0x80 c && leb c 0x9f
    else if nat_beq b 0xf0
    then leb 0x90 c && leb c 0xbf
    else if nat_beq b 0xf4
    then leb 0x80 c && leb c 0x8f
    else continues c

-- `std::str::from_utf8(..).is_ok()`: the well-formed sequences of the Unicode standard. Each takes a byte
-- or more, so that the length is fuel enough.
unfoldable pub is_utf8_within : ℕ → Bytes → Bool
is_utf8_within zero [] = true
is_utf8_within zero (b ∷ buf) = false
is_utf8_within (suc fuel) [] = true
is_utf8_within (suc fuel) (b ∷ []) = ltb b 0x80
is_utf8_within (suc fuel) (b ∷ c ∷ []) =
    let one = is_utf8_within fuel (c ∷ []) in
    if ltb b 0x80 then one else leb 0xc2 b && leb b 0xdf && continues c
is_utf8_within (suc fuel) (b ∷ c ∷ d ∷ []) =
    let one = is_utf8_within fuel (c ∷ d ∷ []) in
    let two = is_utf8_within fuel (d ∷ []) in
    if ltb b 0x80
    then one
    else if leb 0xc2 b && leb b 0xdf
    then continues c && two
    else is_second b c && leb 0xe0 b && leb b 0xef && continues d
is_utf8_within (suc fuel) (b ∷ c ∷ d ∷ f ∷ buf) =
    let one = is_utf8_within fuel (c ∷ d ∷ f ∷ buf) in
    let two = is_utf8_within fuel (d ∷ f ∷ buf) in
    let three = is_utf8_within fuel (f ∷ buf) in
    let four = is_utf8_within fuel buf in
    if ltb b 0x80
    then one
    else if leb 0xc2 b && leb b 0xdf
    then continues c && two
    else if leb 0xe0 b && leb b 0xef
    then is_second b c && continues d && three
    else leb 0xf0 b && leb b 0xf4 && is_second b c && continues d && continues f && four

unfoldable pub is_utf8 : Bytes → Bool
is_utf8 buf = is_utf8_within (length buf) buf
