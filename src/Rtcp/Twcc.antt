-- ===== src/Rtcp/Twcc.antt =====
-- Transport-wide feedback of crates/wroom-edge/src/rtcp.rs: `Twcc::from_block`, its views and the iterator
-- over its packets.
pub mod Building
use wroom.Common.{
  ℕ, zero, suc, ◌+◌, ◌-◌, ◌*◌, ◌/◌, ◌%◌, ◌^◌, Bool, true, false, ◌||◌, Option, none, some, List, [],
  ◌∷◌, ltb, leb, nat_beq, if◌then◌else◌, length, take, drop,
}
use wroom.Common.Bytes.{Bytes, byte_at, be16_at, slice}
use wroom.Common.Integers.{ℤ, pos, signed}
use wroom.Common.Results.{Result, ok, err, ◌>>=◌}
use wroom.Rtcp.Block.{RtcpError, truncated, Block, feedback, feedback_header_len}
use Prim.Native.Nat.{min}

pub data TwccStatus : Type 0 where
  not_received : TwccStatus
  received : ℤ → TwccStatus

pub record Twcc : Type 0 where
  pub block : Block
  pub chunks : Bytes
  pub deltas : Bytes

-- `chunk & TWCC_VECTOR != 0`, `chunk & TWCC_VEC_WIDE != 0` and `chunk & TWCC_RUN_MASK`.
abbrev pub is_vector : ℕ → Bool
is_vector chunk = nat_beq (chunk / 2 ^ 15 % 2) 1

abbrev pub is_wide : ℕ → Bool
is_wide chunk = nat_beq (chunk / 2 ^ 14 % 2) 1

abbrev pub run_len : ℕ → ℕ
run_len chunk = chunk % 2 ^ 13

-- How many symbols a vector chunk has, and the one at an index.
abbrev pub vector_len : Bool → ℕ
vector_len wide = if wide then 7 else 14

abbrev pub vector_symbol : Bool → ℕ → ℕ → ℕ
vector_symbol wide chunk i = if wide then chunk / 2 ^ (12 - 2 * i) % 4 else chunk / 2 ^ (13 - i) % 2

abbrev pub run_symbol : ℕ → ℕ
run_symbol chunk = chunk / 2 ^ 13 % 4

unfoldable pub twcc_delta_bytes : ℕ → ℕ
twcc_delta_bytes sym = if nat_beq sym 1 then 1 else if nat_beq sym 2 then 2 else 0

-- The delta bytes of the symbols of a vector chunk from an index on, for `n` of them.
unfoldable pub vector_delta_bytes : ℕ → ℕ → ℕ → ℕ
unfolding twcc_delta_bytes
vector_delta_bytes chunk i zero = 0
vector_delta_bytes chunk i (suc n) =
    twcc_delta_bytes (vector_symbol (is_wide chunk) chunk i) + vector_delta_bytes chunk (i + 1) n

-- How many of the symbols that are left a chunk gives, and the delta bytes of those.
unfoldable pub chunk_take : ℕ → ℕ → ℕ
chunk_take chunk left =
    if is_vector chunk then min (vector_len (is_wide chunk)) left else min (run_len chunk) left

unfoldable pub chunk_delta_bytes : ℕ → ℕ → ℕ
unfolding vector_delta_bytes twcc_delta_bytes
chunk_delta_bytes chunk n =
    if is_vector chunk
    then vector_delta_bytes chunk 0 n
    else n * twcc_delta_bytes (run_symbol chunk)

-- The scan of the chunks: the list is the FCI from `off` on. The result has the offset after the chunks
-- and the delta bytes that their symbols need.
unfoldable pub scan_chunks : Bytes → ℕ → ℕ → ℕ → ℕ → Result RtcpError (ℕ × ℕ)
unfolding chunk_take chunk_delta_bytes
scan_chunks [] status_count off decoded delta_bytes =
    if ltb decoded status_count then err truncated else ok (off, delta_bytes)
scan_chunks (hi ∷ []) status_count off decoded delta_bytes =
    if ltb decoded status_count then err truncated else ok (off, delta_bytes)
scan_chunks (hi ∷ lo ∷ rest) status_count off decoded delta_bytes =
    let chunk = hi * 256 + lo in
    let n = chunk_take chunk (status_count - decoded) in
    let later =
      scan_chunks rest status_count (off + 2) (decoded + n)
        (delta_bytes + chunk_delta_bytes chunk n) in
    if leb status_count decoded
    then ok (off, delta_bytes)
    else if is_vector chunk
    then later
    else if nat_beq (run_len chunk) 0
    then err truncated
    else later

-- `Twcc::from_block`.
unfoldable pub from_block : Block → Result RtcpError Twcc
unfolding feedback scan_chunks be16_at
from_block b = feedback b >>= λ (_, fci).
    if ltb (length fci) 8
    then err truncated
    else (scan_chunks (drop 8 fci) (be16_at fci 2) 8 0 0 >>= λ (off, delta_bytes).
        if ltb (length fci - off) delta_bytes
        then err truncated
        else ok (record {
          block = b;
          chunks = slice fci 8 off;
          deltas = slice fci off (off + delta_bytes);
        }))

abbrev pub fci_of : Block → Bytes
fci_of b = drop feedback_header_len b.payload

unfoldable pub base_seq : Twcc → ℕ
unfolding be16_at
base_seq t = be16_at (fci_of t.block) 0

unfoldable pub status_count : Twcc → ℕ
unfolding be16_at
status_count t = be16_at (fci_of t.block) 2

unfoldable pub reference_time : Twcc → ℕ
reference_time t =
    let fci = fci_of t.block in byte_at fci 4 * 2 ^ 16 + byte_at fci 5 * 2 ^ 8 + byte_at fci 6

unfoldable pub feedback_packet_count : Twcc → ℕ
feedback_packet_count t = byte_at t.block.payload (feedback_header_len + 7)

pub record TwccPackets : Type 0 where
  pub chunks : Bytes
  pub chunk_off : ℕ
  pub deltas : Bytes
  pub delta_off : ℕ
  pub remaining : ℕ
  pub seq : ℕ
  pub chunk : ℕ
  pub syms_left : ℕ
  pub is_vec : Bool
  pub vec_wide : Bool

unfoldable pub packets : Twcc → TwccPackets
unfolding status_count base_seq
packets t = record {
  chunks = t.chunks;
  chunk_off = 0;
  deltas = t.deltas;
  delta_off = 0;
  remaining = status_count t;
  seq = base_seq t;
  chunk = 0;
  syms_left = 0;
  is_vec = false;
  vec_wide = false;
}

-- The loop that loads chunks until one has symbols. Each takes two bytes, so that the length of the
-- chunks is fuel enough. It says whether it found one.
unfoldable pub load_chunk : ℕ → TwccPackets → Bool × TwccPackets
unfolding be16_at
load_chunk zero it = (false, it)
load_chunk (suc fuel) it =
    let chunk = be16_at it.chunks it.chunk_off in
    let wide = is_wide chunk in
    let run = record it {
      chunk = chunk;
      chunk_off = it.chunk_off + 2;
      is_vec = false;
      syms_left = run_len chunk;
    } in
    let vector = record it {
      chunk = chunk;
      chunk_off = it.chunk_off + 2;
      is_vec = true;
      vec_wide = wide;
      syms_left = vector_len wide;
    } in
    let later = load_chunk fuel run in
    if ltb 0 it.syms_left
    then (true, it)
    else if ltb (length it.chunks) (it.chunk_off + 2)
    then (false, it)
    else if is_vector chunk
    then (true, vector)
    else later

-- `TwccPackets::next_symbol`, with the iterator that it leaves.
unfoldable pub next_symbol : TwccPackets → Option ℕ × TwccPackets
unfolding load_chunk
next_symbol it =
    let (found, loaded) = load_chunk (suc (length it.chunks)) it in
    let left = loaded.syms_left - 1 in
    let idx = vector_len loaded.vec_wide - 1 - left in
    if found
    then (
      some (
          if loaded.is_vec
          then vector_symbol loaded.vec_wide loaded.chunk idx
          else run_symbol loaded.chunk),
      record loaded { syms_left = left },
    )
    else (none, loaded)

-- The status of a packet with this symbol, read from the deltas, and the iterator that it leaves.
unfoldable pub read_status : ℕ → TwccPackets → Option TwccStatus × TwccPackets
unfolding signed be16_at
read_status sym it =
    if nat_beq sym 1
    then (if ltb it.delta_off (length it.deltas)
        then (
          some (received (pos (byte_at it.deltas it.delta_off))),
          record it { delta_off = it.delta_off + 1 },
        )
        else (none, it))
    else if nat_beq sym 2
    then (if ltb (it.delta_off + 1) (length it.deltas)
        then (
          some (received (signed 16 (be16_at it.deltas it.delta_off))),
          record it { delta_off = it.delta_off + 2 },
        )
        else (none, it))
    else (some not_received, it)

-- `TwccPackets::next`, with the iterator that it leaves.
unfoldable pub next : TwccPackets → Option (ℕ × TwccStatus) × TwccPackets
unfolding next_symbol read_status
next it =
    let (symbol, loaded) = next_symbol it in
    let advanced = record loaded {
      remaining = loaded.remaining - 1;
      seq = (loaded.seq + 1) % 2 ^ 16;
    } in
    if nat_beq it.remaining 0 then (none, it) else elim symbol [
      | none ↦ (none, loaded)
      | some sym ↦
          let (status, after) = read_status sym advanced in
          elim status [ none ↦ (none, after) | some s ↦ (some (loaded.seq, s), after) ]
    ]
