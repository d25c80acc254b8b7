-- ===== src/Ice/Agent.antt =====
-- `IceLiteAgent` of crates/wroom-edge/src/ice.rs. An instant is a number of nanoseconds. What a failed
-- build leaves in the scratch buffer is not modelled: nothing reads it.
pub mod Timeouts
pub mod Nominations
use wroom.Common.{
  ℕ, zero, suc, ◌+◌, ◌-◌, List, [], ◌∷◌, ◌++◌, Option, none, some, Bool, true, false, ◌&&◌, ◌||◌,
  not, ltb, leb, nat_beq, if◌then◌else◌, length, take, drop, replicate, set, nat_eq, list_eq, ◌==◌,
}
use wroom.Common.Sets.{contains}
use wroom.Common.Bytes.{Bytes}
use wroom.Common.Results.{Result, ok, err}
use wroom.Ice.Addresses.{SocketAddr, addr_eq}
use wroom.Ice.Stun.{
  Digests, StunError, Message, Attribute, parse, method, class, Class, request, indication, success,
  error, method_binding, attributes, get, text_of, use_candidate, ice_role, controlling, controlled,
  verify_message_integrity, fingerprint_valid, is_stun_datagram, attr_username,
  attr_message_integrity, known_attrs, IceRole,
}
use wroom.Ice.Building.{build_success, build_error, max_unknown_attrs}

abbrev pub max_pairs : ℕ
max_pairs = 64

-- Thirty seconds.
abbrev pub pair_ttl : ℕ
pair_ttl = 30_000_000_000

pub record Stats : Type 0 where
  pub non_stun : ℕ
  pub malformed : ℕ
  pub rejected : ℕ
  pub checks : ℕ
  pub responses : ℕ
  pub nominations : ℕ

pub record Pair : Type 0 where
  pub remote : SocketAddr
  pub last_seen : ℕ

pub record IceLiteAgent : Type 0 where
  pub local_ufrag : Bytes
  pub local_pwd : Bytes
  pub remote_ufrag : Option Bytes
  pub selected : Option SocketAddr
  pub pairs : List (Option Pair)
  pub stats : Stats

-- The response length and the nominated address; `out` is the scratch buffer afterwards.
pub record IceOutput : Type 0 where
  pub response : Option ℕ
  pub nominated : Option SocketAddr
  pub out : Bytes

abbrev pub no_stats : Stats
no_stats = record {
  non_stun = 0;
  malformed = 0;
  rejected = 0;
  checks = 0;
  responses = 0;
  nominations = 0;
}

abbrev pub silent : Bytes → IceOutput
silent out = record { response = none; nominated = none; out = out }

unfoldable pub agent_new : Bytes → Bytes → Option Bytes → IceLiteAgent
agent_new ufrag pwd remote_ufrag = record {
  local_ufrag = ufrag;
  local_pwd = pwd;
  remote_ufrag = remote_ufrag;
  selected = none;
  pairs = replicate max_pairs none;
  stats = no_stats;
}

unfoldable pub pair_count : List (Option Pair) → ℕ
pair_count [] = 0
pair_count (none ∷ ps) = pair_count ps
pair_count (some p ∷ ps) = suc (pair_count ps)

unfoldable pub is_selected : Option SocketAddr → SocketAddr → Bool
is_selected none remote = false
is_selected (some a) remote = a == remote

unfoldable pub has_remote_ufrag : Option Bytes → Bytes → Bool
has_remote_ufrag none ufrag = false
has_remote_ufrag (some old) ufrag = old == ufrag

unfoldable pub set_remote_ufrag : Bytes → IceLiteAgent → IceLiteAgent
unfolding has_remote_ufrag
set_remote_ufrag ufrag a =
    if has_remote_ufrag a.remote_ufrag ufrag
    then a
    else record a { remote_ufrag = some ufrag; pairs = replicate max_pairs none; selected = none }

unfoldable pub earlier : ℕ → Option ℕ → ℕ
earlier t none = t
earlier t (some d) = if ltb d t then d else t

-- `min` over the deadlines of the pairs that are not selected.
unfoldable pub first_deadline : Option SocketAddr → List (Option Pair) → Option ℕ
unfolding is_selected earlier
first_deadline selected [] = none
first_deadline selected (none ∷ ps) = first_deadline selected ps
first_deadline selected (some p ∷ ps) =
    let rest = first_deadline selected ps in
    if is_selected selected p.remote then rest else some (earlier (p.last_seen + pair_ttl) rest)

unfoldable pub poll_timeout : IceLiteAgent → Option ℕ
unfolding first_deadline
poll_timeout a = first_deadline a.selected a.pairs

unfoldable pub is_stale : Option SocketAddr → ℕ → Pair → Bool
unfolding is_selected
is_stale selected now p = not (is_selected selected p.remote) && ltb pair_ttl (now - p.last_seen)

unfoldable pub purged : Option SocketAddr → ℕ → List (Option Pair) → List (Option Pair)
unfolding is_stale
purged selected now [] = []
purged selected now (none ∷ ps) = none ∷ purged selected now ps
purged selected now (some p ∷ ps) =
    (if is_stale selected now p then none else some p) ∷ purged selected now ps

unfoldable pub handle_timeout : ℕ → IceLiteAgent → IceLiteAgent
unfolding purged
handle_timeout now a = record a { pairs = purged a.selected now a.pairs }

unfoldable pub knows : SocketAddr → List (Option Pair) → Bool
knows remote [] = false
knows remote (none ∷ ps) = knows remote ps
knows remote (some p ∷ ps) = (p.remote == remote) || knows remote ps

-- The first pair with this address is refreshed.
unfoldable pub refreshed : SocketAddr → ℕ → List (Option Pair) → List (Option Pair)
refreshed remote now [] = []
refreshed remote now (none ∷ ps) = none ∷ refreshed remote now ps
refreshed remote now (some p ∷ ps) =
    if p.remote == remote
    then some (record p { last_seen = now }) ∷ ps
    else some p ∷ refreshed remote now ps

unfoldable pub has_room : List (Option Pair) → Bool
has_room [] = false
has_room (none ∷ ps) = true
has_room (some p ∷ ps) = has_room ps

-- The first free slot is filled.
unfoldable pub filled : Pair → List (Option Pair) → List (Option Pair)
filled new [] = []
filled new (none ∷ ps) = some new ∷ ps
filled new (some p ∷ ps) = some p ∷ filled new ps

-- The scan for the oldest entry from an index on: the last one of those that are not seen later than
-- any before, or none if all have been seen after the given instant.
unfoldable pub oldest_from : ℕ → ℕ → Option ℕ → List (Option Pair) → Option ℕ
oldest_from i seen found [] = found
oldest_from i seen found (none ∷ ps) = oldest_from (i + 1) seen found ps
oldest_from i seen found (some p ∷ ps) =
    let here = oldest_from (i + 1) p.last_seen (some i) ps in
    let on = oldest_from (i + 1) seen found ps in if leb p.last_seen seen then here else on

unfoldable pub touched : SocketAddr → ℕ → List (Option Pair) → List (Option Pair)
unfolding knows refreshed has_room filled oldest_from
touched remote now ps =
    let new : Pair = record { remote = remote; last_seen = now } in
    if knows remote ps
    then refreshed remote now ps
    else if has_room ps
    then filled new ps
    else elim (oldest_from 0 now none ps) [ none ↦ ps | some i ↦ set ps i (some new) ]

unfoldable pub touch : SocketAddr → ℕ → IceLiteAgent → IceLiteAgent
unfolding touched
touch remote now a = record a { pairs = touched remote now a.pairs }

-- `strip_prefix`.
unfoldable pub strip_prefix : Bytes → Bytes → Option Bytes
strip_prefix [] s = some s
strip_prefix (p ∷ ps) [] = none
strip_prefix (p ∷ ps) (c ∷ s) = if nat_beq p c then strip_prefix ps s else none

-- The half of a username after the colon.
unfoldable pub remote_half_valid : Option Bytes → Bytes → Bool
remote_half_valid none [] = false
remote_half_valid none (c ∷ half) = true
remote_half_valid (some r) half = half == r

unfoldable pub username_valid : IceLiteAgent → Bytes → Bool
unfolding strip_prefix remote_half_valid
username_valid a username = elim (strip_prefix a.local_ufrag username) [
  | none ↦ false
  | some rest ↦ elim (strip_prefix (b':' ∷ []) rest) [
    | none ↦ false
    | some half ↦ remote_half_valid a.remote_ufrag half
  ]
]

-- The required attribute types that are not known, as many as are echoed.
unfoldable pub unknown_of : List Attribute → List ℕ
unfolding contains
unknown_of [] = []
unknown_of (a ∷ rest) =
    let later = unknown_of rest in
    if ltb a.attr_type 0x8000 && not (contains a.attr_type known_attrs)
    then a.attr_type ∷ later
    else later

abbrev pub text_bad_request : Bytes
text_bad_request = b'B' ∷ b'a' ∷ b'd' ∷ b' ' ∷ b'R' ∷ b'e' ∷ b'q' ∷ b'u' ∷ b'e' ∷ b's' ∷ b't' ∷ []

abbrev pub text_unauthorized : Bytes
text_unauthorized =
    b'U' ∷ b'n' ∷ b'a' ∷ b'u' ∷ b't' ∷ b'h' ∷ b'o' ∷ b'r' ∷ b'i' ∷ b'z' ∷ b'e' ∷ b'd' ∷ []

abbrev pub text_unknown_attribute : Bytes
text_unknown_attribute =
    b'U' ∷ b'n' ∷ b'k' ∷ b'n' ∷ b'o' ∷ b'w' ∷ b'n' ∷ b' ' ∷ b'A' ∷ b't' ∷ b't' ∷ b'r' ∷ b'i' ∷ b'b'
    ∷ b'u' ∷ b't' ∷ b'e' ∷ []

abbrev pub text_role_conflict : Bytes
text_role_conflict =
    b'R' ∷ b'o' ∷ b'l' ∷ b'e' ∷ b' ' ∷ b'C' ∷ b'o' ∷ b'n' ∷ b'f' ∷ b'l' ∷ b'i' ∷ b'c' ∷ b't' ∷ []

-- `ok(n)` as a response in the buffer, or no response.
abbrev pub responded : Bytes → Result StunError (ℕ × Bytes) → IceOutput
responded out (ok r) = record { response = some r.0; nominated = none; out = r.1 }
responded out (err e) = silent out

unfoldable pub on_binding_indication : SocketAddr → ℕ → IceLiteAgent → IceLiteAgent
unfolding knows is_selected touch
on_binding_indication remote now a =
    if knows remote a.pairs || is_selected a.selected remote then touch remote now a else a

-- The count of the responses.
unfoldable pub counted_response : IceOutput × IceLiteAgent → IceOutput × IceLiteAgent
counted_response (o, a) = elim o.response [
  | none ↦ (o, a)
  | some n ↦ (o, record a { stats = record a.stats { responses = a.stats.responses + 1 } })
]

module _ (digests : Digests) where
  unfoldable pub reject :
      Bytes → Bytes → ℕ → Bytes → Option (List ℕ) → Bool → IceLiteAgent → IceOutput × IceLiteAgent
  unfolding build_error
  reject out tid code reason unknown sign a = (
    responded out (build_error digests a.local_pwd out tid code reason unknown sign),
    record a { stats = record a.stats { rejected = a.stats.rejected + 1 } },
  )

  -- The end of `on_binding_request`, for a check that is authenticated and whose role fits.
  unfoldable pub accept : Message → SocketAddr → ℕ → Bytes → IceLiteAgent → IceOutput × IceLiteAgent
  unfolding touch build_success is_selected
  accept m remote now out a =
      let seen = touch remote now a in
      let counted = record seen { stats = record seen.stats { checks = seen.stats.checks + 1 } } in
      let answer = responded out (build_success digests a.local_pwd out m.transaction_id remote) in
      if use_candidate m && not (is_selected a.selected remote)
      then (
        record answer { nominated = some remote },
        record counted {
          selected = some remote;
          stats = record counted.stats { nominations = counted.stats.nominations + 1 };
        },
      )
      else (answer, counted)

  -- `on_binding_request` for an authenticated request.
  unfoldable pub on_authenticated :
      Message → SocketAddr → ℕ → Bytes → IceLiteAgent → IceOutput × IceLiteAgent
  unfolding accept reject unknown_of
  on_authenticated m remote now out a =
      let unknown = take max_unknown_attrs (unknown_of (attributes m)) in
      let refuse = reject out m.transaction_id 420 text_unknown_attribute (some unknown) true a in
      if ltb 0 (length unknown) then refuse else elim (ice_role m) [
        | none ↦ reject out m.transaction_id 400 text_bad_request none true a
        | some role ↦ elim role.0 [
          | IceRole.controlled ↦ reject out m.transaction_id 487 text_role_conflict none true a
          | IceRole.controlling ↦ accept m remote now out a
        ]
      ]

  unfoldable pub on_binding_request :
      Message → SocketAddr → ℕ → Bytes → IceLiteAgent → IceOutput × IceLiteAgent
  unfolding on_authenticated reject username_valid
  on_binding_request m remote now out a =
      let unauthorized = reject out m.transaction_id 401 text_unauthorized none false a in
      let bad_request = reject out m.transaction_id 400 text_bad_request none false a in
      elim (text_of m attr_username) [
        | none ↦ bad_request
        | some username ↦ elim (get m attr_message_integrity) [
          | none ↦ bad_request
          | some tag ↦
              if username_valid a username
              then (if verify_message_integrity digests m a.local_pwd
                  then on_authenticated m remote now out a
                  else unauthorized)
              else unauthorized
        ]
      ]

  -- The dispatch on a message that parsed and has a valid fingerprint.
  unfoldable pub on_message :
      Message → SocketAddr → ℕ → Bytes → IceLiteAgent → IceOutput × IceLiteAgent
  unfolding on_binding_request on_binding_indication
  on_message m remote now out a =
      let requested = on_binding_request m remote now out a in
      if nat_beq (method m) method_binding
      then elim (class m) [
        | Class.request ↦ requested
        | Class.indication ↦ (silent out, on_binding_indication remote now a)
        | Class.success ↦ (silent out, a)
        | Class.error ↦ (silent out, a)
      ]
      else (silent out, a)

  -- `handle_datagram`.
  unfoldable pub handle_datagram :
      Bytes → SocketAddr → ℕ → Bytes → IceLiteAgent → IceOutput × IceLiteAgent
  unfolding on_message
  handle_datagram datagram remote now out a =
      let malformed = record a { stats = record a.stats { malformed = a.stats.malformed + 1 } } in
      if is_stun_datagram datagram
      then elim (parse datagram) [
        | err e ↦ (silent out, malformed)
        | ok m ↦
            if fingerprint_valid digests m
            then counted_response (on_message m remote now out a)
            else (silent out, malformed)
      ]
      else (silent out, record a { stats = record a.stats { non_stun = a.stats.non_stun + 1 } })
