-- ===== src/Ice/Examples.antt =====
-- The theorems on the agent at concrete inputs.
use wroom.Common.{ℕ, ◌+◌, ◌≤◌, ◌<◌, [], ◌∷◌, none, some, true, ◌≡◌, ◌⊎◌, refl, replicate}
use wroom.Common.Bytes.{Bytes}
use wroom.Common.Results.{ok}
use wroom.Ice.Addresses.{SocketAddr, v4}
use wroom.Ice.Stun.{Digests, Message, parse, fingerprint_valid, use_candidate}
use wroom.Ice.Agent.{
  IceLiteAgent, no_stats, pair_ttl, pair_count, poll_timeout, handle_timeout, handle_datagram,
}
use wroom.Ice.Agent.Timeouts.{handle_timeout-progress}
use wroom.Ice.Agent.Nominations.{
  Keeps, Nominates, IsBindingRequest, IsAuthentic, handle_datagram-Nominates,
}

abbrev peer : SocketAddr
peer = v4 0x7f00_0001 5000

-- Two pairs, of which one is selected.
abbrev agent : IceLiteAgent
agent = record {
  local_ufrag = b'a' ∷ [];
  local_pwd = b'p' ∷ [];
  remote_ufrag = none;
  selected = some (v4 0 1);
  pairs =
      some (record { remote = peer; last_seen = 7 })
      ∷ some (record { remote = v4 0 1; last_seen = 2 })
      ∷ none
      ∷ [];
  stats = no_stats;
}

handle_timeout-progress_example :
    ((handle_timeout (7 + pair_ttl) agent).pairs ≡ agent.pairs)
    × ((now : ℕ)
        → 7 + pair_ttl < now
        → (pair_count (handle_timeout now agent).pairs < pair_count agent.pairs)
          × ((d' : ℕ) → poll_timeout (handle_timeout now agent) ≡ some d' → now ≤ d'))
unfolding poll_timeout wroom.Ice.Addresses.addr_beq
handle_timeout-progress_example = handle_timeout-progress agent (7 + pair_ttl) refl

abbrev plain_digests : Digests
plain_digests = record { hmac_sha1 = λ key text. replicate 20 0; crc32 = λ text. 0 }

-- A Binding request from `a:b` with ICE-CONTROLLING, USE-CANDIDATE and MESSAGE-INTEGRITY.
abbrev nomination : Bytes
nomination =
    0
    ∷ 1
    ∷ 0
    ∷ 48
    ∷ 0x21
    ∷ 0x12
    ∷ 0xa4
    ∷ 0x42
    ∷ 0
    ∷ 0
    ∷ 0
    ∷ 0
    ∷ 0
    ∷ 0
    ∷ 0
    ∷ 0
    ∷ 0
    ∷ 0
    ∷ 0
    ∷ 1
    ∷ 0
    ∷ 6
    ∷ 0
    ∷ 3
    ∷ b'a'
    ∷ b':'
    ∷ b'b'
    ∷ 0
    ∷ 0x80
    ∷ 0x2a
    ∷ 0
    ∷ 8
    ∷ 0
    ∷ 0
    ∷ 0
    ∷ 0
    ∷ 0
    ∷ 0
    ∷ 0
    ∷ 0
    ∷ 0
    ∷ 0x25
    ∷ 0
    ∷ 0
    ∷ 0
    ∷ 8
    ∷ 0
    ∷ 20
    ∷ replicate 20 0

handle_datagram-Nominates_example :
    Keeps agent (handle_datagram plain_digests nomination peer 9 (replicate 256 0) agent)
    ⊎ ((m : Message) × (parse nomination ≡ ok m)
        × (fingerprint_valid plain_digests m ≡ true)
        × IsBindingRequest m
        × IsAuthentic plain_digests m peer 9 (replicate 256 0) agent
        × (use_candidate m ≡ true)
        × Nominates agent peer
            (handle_datagram plain_digests nomination peer 9 (replicate 256 0) agent))
handle_datagram-Nominates_example =
    handle_datagram-Nominates plain_digests nomination peer 9 (replicate 256 0) agent
