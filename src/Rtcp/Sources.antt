-- ===== src/Rtcp/Sources.antt =====
-- Source descriptions and goodbyes of crates/wroom-edge/src/rtcp.rs.
use wroom.Common.{
  ℕ, zero, suc, ◌+◌, ◌-◌, ◌*◌, ◌/◌, Option, none, some, List, [], ◌∷◌, map, ltb, leb, nat_beq,
  if◌then◌else◌, length, take, drop, replicate,
}
use wroom.Common.Bytes.{Bytes, byte_at, be32_at, to_be32, slice, splice, as_chunks}
use wroom.Common.Results.{Result, ok, err}
use wroom.Rtcp.Block.{
  RtcpError, truncated, buffer_too_small, invalid, cname_too_long, Block, write_header, header_len,
  pt_sdes,
}

-- `n.div_ceil(4) * 4`.
abbrev pub to_words : ℕ → ℕ
to_words n = (n + 3) / 4 * 4

pub record SdesChunk : Type 0 where
  pub ssrc : ℕ
  pub items : Bytes

pub record SdesChunks : Type 0 where
  pub payload : Bytes
  pub pos : ℕ
  pub remaining : ℕ

unfoldable pub chunks : Block → SdesChunks
chunks b = record { payload = b.payload; pos = 0; remaining = b.count }

-- The scan of an item list from a position: where it ends, at its null byte. An item moves the position
-- by two or more, so that the length of the payload is fuel enough.
unfoldable pub items_end : ℕ → Bytes → ℕ → Option ℕ
items_end zero payload p = none
items_end (suc fuel) payload p =
    let l = byte_at payload (p + 1) in
    let later = items_end fuel payload (p + 2 + l) in
    if leb (length payload) p
    then none
    else if nat_beq (byte_at payload p) 0
    then some p
    else if leb (length payload) (p + 1)
    then none
    else if ltb (length payload) (p + 2 + l)
    then none
    else later

-- `SdesChunks::next`: the chunk and the iterator after it.
unfoldable pub next_chunk : SdesChunks → Option (SdesChunk × SdesChunks)
unfolding items_end be32_at
next_chunk it =
    if nat_beq it.remaining 0
    then none
    else if ltb (length it.payload) (it.pos + 4)
    then none
    else elim (items_end (suc (length it.payload)) it.payload (it.pos + 4)) [
      | none ↦ none
      | some end ↦ some (
        record { ssrc = be32_at it.payload it.pos; items = slice it.payload (it.pos + 4) end },
        record it { pos = it.pos + to_words (end + 1 - it.pos); remaining = it.remaining - 1 },
      )
    ]

-- The chunks that the iterator gives: it stops at the first `None`, and its count goes down.
unfoldable pub all_chunks : ℕ → SdesChunks → List SdesChunk
unfolding next_chunk
all_chunks zero it = []
all_chunks (suc fuel) it = elim (next_chunk it) [
  | none ↦ []
  | some step ↦ step.0 ∷ all_chunks fuel step.1
]

-- `Sdes::build_cname`: the result and the buffer that it leaves.
unfoldable pub build_cname : Bytes → ℕ → Bytes → Result RtcpError ℕ × Bytes
unfolding to_be32
build_cname out ssrc cname =
    let total = header_len + to_words (4 + 2 + length cname + 1) in
    if ltb 0xff (length cname)
    then (err (invalid cname_too_long), out)
    else if ltb (length out) total
    then (err (buffer_too_small total (length out)), out)
    else (let (written, head) = write_header out 1 pt_sdes total in
        elim written [
          | err e ↦ (err e, head)
          | ok _ ↦
              let a = splice head 4 (to_be32 ssrc) in
              let b = splice (splice a 8 (1 ∷ [])) 9 (length cname ∷ []) in
              let c = splice b 10 cname in
              (ok total, splice c (10 + length cname) (replicate (total - (10 + length cname)) 0))
        ])

unfoldable pub bye : Block → Result RtcpError Block
bye b = if ltb (length b.payload) (4 * b.count) then err truncated else ok b

-- The big-endian words of a slice.
unfoldable pub words_of : Bytes → List ℕ
unfolding be32_at as_chunks
words_of buf = map (λ (c : Bytes). be32_at c 0) (as_chunks 4 buf)

unfoldable pub bye_ssrcs : Block → List ℕ
unfolding words_of
bye_ssrcs b = words_of (take (4 * b.count) b.payload)

unfoldable pub reason : Block → Option Bytes
reason b = elim (drop (4 * b.count) b.payload) [
  | [] ↦ none
  | n ∷ text ↦ if ltb (length text) n then none else some (take n text)
]
