-- ===== src/Rtcp/Compound/Walking.antt =====
-- The walk over a compound datagram: it ends, and its blocks tile the datagram.
use wroom.Common.{
  ℕ, zero, suc, ◌+◌, ◌/◌, ◌≤◌, ◌≡◌, refl, ap, arith, true, List, [], ◌∷◌, some, length, take, drop,
  length-drop, length-take, inl, inr,
}
use wroom.Common.Bytes.{Bytes}
use wroom.Common.Results.{Result, ok, err, Result-cases}
use wroom.Rtcp.Block.{RtcpError, Block, parse}
use wroom.Rtcp.Compound.{
  RtcpPacket, PacketIter, packets, next, collect, parse_packet, packet_of_block,
}

-- A block that parses is a prefix of the data, of one word or more.
parse-raw :
    (buf : Bytes) (b : Block)
    → parse buf ≡ ok b
    → (b.raw ≡ take b.block_len buf) × (4 ≤ b.block_len) × (b.block_len ≤ length buf)
unfolding parse
parse-raw buf b h = ground (arith, h)

packet_of_block-block : (b : Block) (p : RtcpPacket) → packet_of_block b ≡ ok p → p.block ≡ b
unfolding packet_of_block
packet_of_block-block b p h = ground (arith, h)

collect_done :
    (fuel : ℕ) (rest : Bytes)
    → collect (suc fuel) (record { rest = rest; done = true }) ≡ ([], true)
unfolding collect next
collect_done fuel rest = refl

collect_empty : (fuel : ℕ) → collect (suc fuel) (packets []) ≡ ([], true)
unfolding collect next packets
collect_empty fuel = refl

abbrev ended : Bytes → PacketIter
ended rest = record { rest = rest; done = true }

collect-next :
    (fuel : ℕ) (it after : PacketIter) (r : Result RtcpError RtcpPacket)
    → next it ≡ (some r, after)
    → collect (suc fuel) it ≡ (r ∷ (collect fuel after).0, (collect fuel after).1)
unfolding collect
collect-next fuel it after r e = ground (arith, e)

module _ (x : ℕ) (xs : Bytes) where
  next_bad_block :
      (e : RtcpError)
      → parse (x ∷ xs) ≡ err e
      → next (packets (x ∷ xs)) ≡ (some (err e), ended (x ∷ xs))
  unfolding next packets
  next_bad_block e bad = ground (arith, bad)

  next_bad_body :
      (b : Block) (e : RtcpError)
      → parse (x ∷ xs) ≡ ok b
      → packet_of_block b ≡ err e
      → next (packets (x ∷ xs)) ≡ (some (err e), ended (drop b.block_len (x ∷ xs)))
  unfolding next packets
  next_bad_body b e good bad = ground (arith, good, bad)

  next_packet :
      (b : Block) (p : RtcpPacket)
      → parse (x ∷ xs) ≡ ok b
      → packet_of_block b ≡ ok p
      → next (packets (x ∷ xs)) ≡ (some (ok p), packets (drop b.block_len (x ∷ xs)))
  unfolding next packets
  next_packet b p good whole = ground (arith, good, whole)

collect_err :
    (fuel : ℕ) (buf rest : Bytes) (e : RtcpError)
    → next (packets buf) ≡ (some (err e), ended rest)
    → collect (suc (suc fuel)) (packets buf) ≡ (err e ∷ [], true)
collect_err fuel buf rest e h =
    rw (collect-next (suc fuel) (packets buf) (ended rest) (err e) h, collect_done fuel rest) refl

-- What a walk over a datagram has to give: the packet at its start, whose block is a prefix of one word or
-- more, and then a walk over what follows the block; at the end of the data nothing more; and where no
-- packet parses the error, and nothing after it.
abbrev pub IsWalk : Bytes → List (Result RtcpError RtcpPacket) → Type 0
IsWalk buf [] = buf ≡ []
IsWalk buf (err e ∷ items) = (parse_packet buf ≡ err e) × (items ≡ [])
IsWalk buf (ok p ∷ items) =
    (parse_packet buf ≡ ok p)
    × (take (length p.block.raw) buf ≡ p.block.raw)
    × (4 ≤ length p.block.raw)
    × IsWalk (drop (length p.block.raw) buf) items

abbrev Walks : ℕ → Bytes → Type 0
Walks fuel buf = ((collect fuel (packets buf)).1 ≡ true) × IsWalk buf (collect fuel (packets buf)).0

walk : (fuel : ℕ) (buf : Bytes) → length buf / 4 + 2 ≤ fuel → Walks fuel buf
unfolding parse_packet
walk zero buf enough = absurd (omega (arith, enough))
walk (suc zero) buf enough = absurd (omega (arith, enough))
walk (suc (suc fuel)) [] enough = rw (collect_empty (suc fuel)) (refl, refl)
walk (suc (suc fuel)) (x ∷ xs) enough = elim (Result-cases (parse (x ∷ xs))) [
  | inl (e, bad) ↦
      rw (collect_err fuel (x ∷ xs) (x ∷ xs) e (next_bad_block x xs e bad))
        (refl, (ground (arith, bad), refl))
  | inr (b, good) ↦ elim (Result-cases (packet_of_block b)) [
    | inl (e, bad) ↦
        rw
          (collect_err fuel (x ∷ xs) (drop b.block_len (x ∷ xs)) e
            (next_bad_body x xs b e good bad))
          (refl, (ground (arith, good, bad), refl))
    | inr (p, whole) ↦
        let at = parse-raw (x ∷ xs) b good in
        let same : p.block.raw ≡ b.raw =
          ap (λ (q : Block). q.raw) (packet_of_block-block b p whole) in
        let len : length p.block.raw ≡ b.block_len =
          omega (arith, ap length same, ap length at.0, length-take b.block_len (x ∷ xs), at.2) in
        let later =
          walk (suc fuel) (drop b.block_len (x ∷ xs))
            (omega (arith, enough, length-drop b.block_len (x ∷ xs), at.1, at.2)) in
        let after = packets (drop b.block_len (x ∷ xs)) in
        let step = next_packet x xs b p good whole in
        rw (collect-next (suc fuel) (packets (x ∷ xs)) after (ok p) step, len)
          (
            later.0,
            (ground (arith, good, whole), ground (arith, at.0, same), omega (arith, at.1), later.1),
          )
  ]
]

-- The walk over any datagram ends within a round for each word of it and two more, and gives what it has
-- to give: the packets of the blocks that tile the datagram, up to the first error.
pub collect-IsWalk :
    (datagram : Bytes)
    → ((collect (length datagram / 4 + 2) (packets datagram)).1 ≡ true)
      × IsWalk datagram (collect (length datagram / 4 + 2) (packets datagram)).0
collect-IsWalk datagram = walk (length datagram / 4 + 2) datagram (omega arith)
