-- ===== src/Rtcp/Feedback/Written.antt =====
-- A feedback block that was built parses back to the fields it was built from.
use wroom.Common.{
  ℕ, ◌+◌, ◌*◌, ◌/◌, ◌%◌, ◌^◌, ◌≤◌, ◌<◌, ◌≡◌, refl, sym, ap, arith, subst, List, [], ◌∷◌, ◌++◌, map,
  length, take, All, length-append, ◌∙◌,
}
use wroom.Common.Bytes.{
  Bytes, Holds, be16_at, to_be16, to_be32, splice, splice-Holds, append_assoc, append_nil,
}
use wroom.Common.Chunks.{flat, as_chunks-flat, HasLength, be32-to_be32, be32-second}
use wroom.Common.Results.{ok}
use wroom.Rtcp.Block.{Block, write_header, feedback}
use wroom.Rtcp.Block.Header.{header_bytes, write_header-Holds, plain_block, parse-Holds}
use wroom.Rtcp.Feedback.{
  NackEntry, write_nack_entries, write_ssrcs, build_nack, nack_entries, parse_nack_entry,
  sender_ssrc, media_ssrc, feedback_block,
}
use wroom.Rtcp.Compound.{nack, parse_packet, packet_of_block, kind_of_block}

write_ssrcs-Holds :
    (head out : Bytes) (sender media : ℕ)
    → length head ≡ 4
    → Holds head out
    → 12 ≤ length out
    → Holds (head ++ (to_be32 sender ++ to_be32 media)) (write_ssrcs out sender media)
      × (length (write_ssrcs out sender media) ≡ length out)
unfolding write_ssrcs to_be32
write_ssrcs-Holds head out sender media four holds room =
    let a = splice-Holds head out 4 (to_be32 sender) (sym four) holds (omega (arith, room)) in
    let out1 = splice out 4 (to_be32 sender) in
    let len = length-append head (to_be32 sender) in
    let b =
      splice-Holds (head ++ to_be32 sender) out1 8 (to_be32 media) (omega (arith, len, four)) a.0
        (omega (arith, room, a.1)) in
    let both = append_assoc head (to_be32 sender) (to_be32 media) in
    (subst (λ (t : Bytes). Holds t (splice out1 8 (to_be32 media))) both b.0, b.1 ∙ a.1)

abbrev pub nack_bytes : NackEntry → Bytes
nack_bytes e = to_be16 e.pid ++ to_be16 e.blp

abbrev pub FitsNackEntry : NackEntry → Type 0
FitsNackEntry e = (e.pid < 2 ^ 16) × (e.blp < 2 ^ 16)

write_nack_entries-Holds :
    (head out : Bytes) (w : ℕ) (es : List NackEntry)
    → w ≡ length head
    → Holds head out
    → w + 4 * length es ≤ length out
    → Holds (head ++ flat (map nack_bytes es)) (write_nack_entries out w es)
unfolding write_nack_entries to_be16
write_nack_entries-Holds head out w [] at holds room =
    subst (λ (t : Bytes). Holds t out) (sym (append_nil head)) holds
write_nack_entries-Holds head out w (e ∷ es) at holds room =
    let a = splice-Holds head out w (to_be16 e.pid) at holds (omega (arith, room)) in
    let out1 = splice out w (to_be16 e.pid) in
    let len = length-append head (to_be16 e.pid) in
    let b =
      splice-Holds (head ++ to_be16 e.pid) out1 (w + 2) (to_be16 e.blp) (omega (arith, len, at)) a.0
        (omega (arith, room, a.1)) in
    let out2 = splice out1 (w + 2) (to_be16 e.blp) in
    let both = append_assoc head (to_be16 e.pid) (to_be16 e.blp) in
    let head2 = head ++ nack_bytes e in
    let holds2 = subst (λ (t : Bytes). Holds t out2) both b.0 in
    let rest =
      write_nack_entries-Holds head2 out2 (w + 4) es
        (omega (arith, length-append head (nack_bytes e), at)) holds2
        (omega (arith, room, a.1, b.1)) in
    subst (λ (t : Bytes). Holds t (write_nack_entries out2 (w + 4) es))
      (append_assoc head (nack_bytes e) (flat (map nack_bytes es))) rest

nack_bytes-HasLength : (es : List NackEntry) → All (HasLength 4) (map nack_bytes es)
unfolding to_be16
nack_bytes-HasLength [] = tt
nack_bytes-HasLength (e ∷ es) = (refl, nack_bytes-HasLength es)

length-nack_bytes : (es : List NackEntry) → length (flat (map nack_bytes es)) ≡ 4 * length es
unfolding to_be16
length-nack_bytes [] = refl
length-nack_bytes (e ∷ es) = omega (arith, length-nack_bytes es)

parse_nack_entry-nack_bytes :
    (e : NackEntry) → FitsNackEntry e → parse_nack_entry (nack_bytes e) ≡ e
unfolding parse_nack_entry be16_at to_be16
parse_nack_entry-nack_bytes e (pid, blp) =
    let a : e.pid / 256 % 256 * 256 + e.pid % 256 ≡ e.pid = omega (arith, pid) in
    let b : e.blp / 256 % 256 * 256 + e.blp % 256 ≡ e.blp = omega (arith, blp) in rw (a, b) refl

parse_nack_entry-map :
    (es : List NackEntry) → All FitsNackEntry es → map parse_nack_entry (map nack_bytes es) ≡ es
parse_nack_entry-map [] fits = refl
parse_nack_entry-map (e ∷ es) (fits, more) =
    rw (parse_nack_entry-map es more)
      (ap (λ (d : NackEntry). d ∷ es) (parse_nack_entry-nack_bytes e fits))

-- The body of a NACK.
abbrev nack_body : ℕ → ℕ → List NackEntry → Bytes
nack_body sender media es = to_be32 sender ++ (to_be32 media ++ flat (map nack_bytes es))

nack_entries-nack_body :
    (sender media : ℕ) (es : List NackEntry)
    → All FitsNackEntry es
    → nack_entries (plain_block 1 205 (nack_body sender media es)) ≡ es
unfolding nack_entries to_be32
nack_entries-nack_body sender media es fits =
    rw (as_chunks-flat 4 (map nack_bytes es) (omega arith) (nack_bytes-HasLength es))
      (parse_nack_entry-map es fits)

packet-nack_body :
    (sender media : ℕ) (es : List NackEntry)
    → packet_of_block (plain_block 1 205 (nack_body sender media es))
      ≡ ok (record {
        block = plain_block 1 205 (nack_body sender media es);
        kind = nack (plain_block 1 205 (nack_body sender media es));
      })
unfolding packet_of_block kind_of_block to_be32 feedback_block feedback
packet-nack_body sender media es = ground arith

length-nack_body :
    (sender media : ℕ) (es : List NackEntry)
    → length (nack_body sender media es) ≡ 8 + 4 * length es
unfolding to_be32
length-nack_body sender media es = omega (arith, length-nack_bytes es)

build_nack-ok :
    (out head : Bytes) (sender media : ℕ) (es : List NackEntry)
    → 12 + 4 * length es ≤ length out
    → write_header out 1 205 (12 + 4 * length es) ≡ (ok tt, head)
    → build_nack out sender media es
      ≡ (ok (12 + 4 * length es), write_nack_entries (write_ssrcs head sender media) 12 es)
unfolding build_nack
build_nack-ok out head sender media es room written = ground (arith, written, room)

build_nack-Holds :
    (out : Bytes) (sender media : ℕ) (es : List NackEntry)
    → length es + 2 ≤ 0xffff
    → 12 + 4 * length es ≤ length out
    → (out' : Bytes) × (build_nack out sender media es ≡ (ok (12 + 4 * length es), out'))
      × Holds (header_bytes 1 205 (length es + 2) ++ nack_body sender media es) out'
build_nack-Holds out sender media es count room =
    let words = length es + 2 in
    let (head, written, holds, len) =
      write_header-Holds out 1 205 words (omega arith) count (omega (arith, room)) in
    let total : (words + 1) * 4 ≡ 12 + 4 * length es = omega arith in
    let start = header_bytes 1 205 words in
    let ssrcs = write_ssrcs-Holds start head sender media refl holds (omega (arith, len, room)) in
    let middle = write_ssrcs head sender media in
    let both = to_be32 sender ++ to_be32 media in
    let twelve : 12 ≡ length (start ++ both) = unfold to_be32 in refl in
    let entries =
      write_nack_entries-Holds (start ++ both) middle 12 es twelve ssrcs.0
        (omega (arith, ssrcs.1, len, room)) in
    let joined : (start ++ both) ++ flat (map nack_bytes es) ≡ start ++ nack_body sender media es =
      append_assoc start both (flat (map nack_bytes es))
      ∙ ap (λ (t : Bytes). start ++ t)
          (append_assoc (to_be32 sender) (to_be32 media) (flat (map nack_bytes es))) in
    let final = write_nack_entries middle 12 es in
    let header : write_header out 1 205 (12 + 4 * length es) ≡ (ok tt, head) =
      rw (sym total) written in
    (
      final,
      build_nack-ok out head sender media es room header,
      subst (λ (t : Bytes). Holds t final) joined entries,
    )

-- A NACK that is built, for numbers that fit their fields and a buffer with room for it, parses as a NACK
-- with the same sender, media source and entries.
pub build_nack-parse_packet :
    (out : Bytes) (sender media : ℕ) (es : List NackEntry)
    → sender < 2 ^ 32
    → media < 2 ^ 32
    → All FitsNackEntry es
    → length es + 2 ≤ 0xffff
    → 12 + 4 * length es ≤ length out
    → (b : Block) × (out' : Bytes) × (build_nack out sender media es
        ≡ (ok (12 + 4 * length es), out'))
      × (parse_packet (take (12 + 4 * length es) out') ≡ ok (record { block = b; kind = nack b }))
      × (sender_ssrc b ≡ sender)
      × (media_ssrc b ≡ media)
      × (nack_entries b ≡ es)
unfolding parse_packet sender_ssrc media_ssrc
build_nack-parse_packet out sender media es s m fits count room =
    let (out', built, holds) = build_nack-Holds out sender media es count room in
    let body = nack_body sender media es in
    let size = length-nack_body sender media es in
    let words : length es + 2 ≡ length body / 4 = omega (arith, size) in
    let holds' = subst (λ (w : ℕ). Holds (header_bytes 1 205 w ++ body) out') words holds in
    let parsed =
      parse-Holds 1 205 (12 + 4 * length es) body out' (omega arith) (omega (arith, size))
        (omega (arith, size)) (omega (arith, words, count)) holds' in
    let rest = to_be32 media ++ flat (map nack_bytes es) in
    (
      plain_block 1 205 body,
      out',
      built,
      rw parsed (packet-nack_body sender media es),
      be32-to_be32 sender rest s,
      be32-second sender rest ∙ be32-to_be32 media (flat (map nack_bytes es)) m,
      nack_entries-nack_body sender media es fits,
    )
