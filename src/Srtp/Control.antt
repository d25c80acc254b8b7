-- ===== src/Srtp/Control.antt =====
-- The SRTCP paths of `Srtp`, crates/wroom-edge/src/srtp.rs: `decrypt_rtcp` and `encrypt_rtcp`.
pub mod Replayed
use wroom.Common.{
  ℕ, ◌+◌, ◌-◌, ◌/◌, ◌%◌, [], ◌++◌, none, some, Bool, true, false, not, ltb, leb, nat_beq, nat_eq,
  list_beq, if◌then◌else◌, length, get_or, set, take, drop,
}
use wroom.Common.Bytes.{Bytes, byte_at, be32_at, to_be32, slice, splice}
use wroom.Common.Results.{Result, ok, err, ◌>>=◌}
use wroom.Srtp.Errors.{
  SrtpProfile, SrtpError, too_short, malformed, buffer_too_small, auth_failed, replayed,
  index_exhausted, cipher,
}
use wroom.Srtp.Streams.{Streams, get_mut_or_insert}
use wroom.Srtp.Ciphers.{Crypto, Dir, rtcp_iv, cm_rtcp_iv, salt_of, cm_of, encrypt, decrypt}
use wroom.Srtp.Packets.{
  Opened, is_unseen, verifies, by_profile, record_rtcp, commit, srtp_tag_len, srtcp_trailer_len,
  cm_tag_len, cm_srtcp_trailer_len,
}

abbrev pub srtcp_e_bit : ℕ
srtcp_e_bit = 0x80000000

-- The first value past the index range.
abbrev pub srtcp_index_exhausted : ℕ
srtcp_index_exhausted = 0x80000000

unfoldable pub open_rtcp_gcm : Crypto → Dir → Bytes → Result SrtpError Opened
unfolding be32_at is_unseen rtcp_iv decrypt to_be32
open_rtcp_gcm c d buf =
    let len = length buf in
    let tag_at = len - srtcp_trailer_len in
    let ssrc = be32_at buf 4 in
    let esrtcp = be32_at buf (len - 4) in
    let index = esrtcp % srtcp_e_bit in
    let iv = rtcp_iv (salt_of d.rtcp) ssrc index in
    let tag = slice buf tag_at (tag_at + srtp_tag_len) in
    let opened : Bytes → Opened =
      λ b. record { buf = b; len = tag_at; ssrc = ssrc; index = index } in
    if ltb len (8 + srtcp_trailer_len)
    then err too_short
    else if not (nat_beq (byte_at buf 0 / 64) 2)
    then err malformed
    else if not (is_unseen (λ st. st.rtcp) d.streams ssrc index)
    then err replayed
    else if leb srtcp_e_bit esrtcp
    then (decrypt c d.rtcp iv (take 8 buf ++ to_be32 esrtcp) (slice buf 8 tag_at) tag >>= λ body.
        ok (opened (splice buf 8 body)))
    else (let staged = splice buf tag_at (to_be32 esrtcp) in
        decrypt c d.rtcp iv (take (len - srtp_tag_len) staged) [] tag >>= λ body.
        ok (opened staged))

unfoldable pub open_rtcp_cm : Crypto → Dir → Bytes → Result SrtpError Opened
unfolding be32_at is_unseen cm_rtcp_iv cm_of list_beq
open_rtcp_cm c d buf =
    let len = length buf in
    let tag_at = len - cm_tag_len in
    let ssrc = be32_at buf 4 in
    let esrtcp = be32_at buf (tag_at - 4) in
    let index = esrtcp % srtcp_e_bit in
    let opened : Bytes → Opened =
      λ b. record { buf = b; len = tag_at - 4; ssrc = ssrc; index = index } in
    if ltb len (8 + cm_srtcp_trailer_len)
    then err too_short
    else if not (nat_beq (byte_at buf 0 / 64) 2)
    then err malformed
    else (cm_of d.rtcp >>= λ (enc, mac).
        if not (verifies c mac (take tag_at buf) (drop tag_at buf))
        then err auth_failed
        else if not (is_unseen (λ st. st.rtcp) d.streams ssrc index)
        then err replayed
        else if leb srtcp_e_bit esrtcp
        then ok (
            opened (
              splice buf 8 (
                c.ctr_keystream enc (cm_rtcp_iv (salt_of d.rtcp) ssrc index)
                  (slice buf 8 (tag_at - 4)))))
        else ok (opened buf))

unfoldable pub open_rtcp : Crypto → SrtpProfile → Dir → Bytes → Result SrtpError Opened
unfolding by_profile open_rtcp_gcm open_rtcp_cm
open_rtcp c profile d buf = by_profile profile (open_rtcp_gcm c d buf) (open_rtcp_cm c d buf) err

-- `decrypt_rtcp`.
unfoldable pub decrypt_rtcp :
    Crypto → SrtpProfile → Dir → Bytes → Result SrtpError (Bytes × ℕ) × Dir
unfolding open_rtcp commit
decrypt_rtcp c profile d buf = elim (open_rtcp c profile d buf) [
  | err e ↦ (err e, d)
  | ok o ↦ commit record_rtcp d o
]

-- The block that takes the next SRTCP index of the SSRC.
unfoldable pub take_index : Streams → ℕ → Result SrtpError ℕ × Streams
take_index s ssrc = elim (get_mut_or_insert s ssrc) [
  | err e ↦ (err e, s)
  | ok (i, s') ↦ elim (get_or s'.slots i none) [
    | none ↦ (err cipher, s')
    | some st ↦ if nat_beq st.rtcp_next srtcp_index_exhausted then (err index_exhausted, s') else (
      ok st.rtcp_next,
      record s' { slots = set s'.slots i (some (record st { rtcp_next = st.rtcp_next + 1 })) },
    )
  ]
]

-- The seal at a chosen index. Its first argument is `encrypt_body`.
unfoldable pub seal_body_gcm : Bool → Crypto → Dir → Bytes → ℕ → ℕ → ℕ → Result SrtpError Bytes
unfolding rtcp_iv encrypt to_be32
seal_body_gcm true c d buf len ssrc index =
    let word = to_be32 (index + srtcp_e_bit) in
    encrypt c d.rtcp (rtcp_iv (salt_of d.rtcp) ssrc index) (take 8 buf ++ word) (slice buf 8 len)
    >>= λ (body, tag). ok (splice (splice (splice buf 8 body) len tag) (len + srtp_tag_len) word)
seal_body_gcm false c d buf len ssrc index =
    let word = to_be32 index in
    let staged = splice buf len word in
    encrypt c d.rtcp (rtcp_iv (salt_of d.rtcp) ssrc index) (take (len + 4) staged) []
    >>= λ (body, tag). ok (splice (splice staged (len + srtp_tag_len) word) len tag)

unfoldable pub seal_body_cm : Bool → Crypto → Dir → Bytes → ℕ → ℕ → ℕ → Result SrtpError Bytes
unfolding cm_rtcp_iv cm_of to_be32
seal_body_cm encrypt_body c d buf len ssrc index = cm_of d.rtcp >>= λ (enc, mac).
    (let word = to_be32 (if encrypt_body then index + srtcp_e_bit else index) in
      let body =
        if encrypt_body
        then splice buf 8
            (c.ctr_keystream enc (cm_rtcp_iv (salt_of d.rtcp) ssrc index) (slice buf 8 len))
        else buf in
      let staged = splice body len word in
      ok (splice staged (len + 4) (take cm_tag_len (c.hmac_sha1 mac (take (len + 4) staged)))))

-- The two `seal_rtcp` paths, which differ in the trailer's length and in how they seal.
unfoldable pub seal_rtcp_by :
    (ℕ → ℕ → Result SrtpError Bytes) → ℕ → Dir → Bytes → ℕ → Result SrtpError (Bytes × ℕ) × Dir
unfolding be32_at take_index
seal_rtcp_by seal trailer_len d buf len =
    if ltb (length buf) (len + trailer_len)
    then (err buffer_too_small, d)
    else if ltb len 8
    then (err too_short, d)
    else if not (nat_beq (byte_at buf 0 / 64) 2)
    then (err malformed, d)
    else let (taken, s) = take_index d.streams (be32_at buf 4) in
      elim taken [
        | err e ↦ (err e, record d { streams = s })
        | ok index ↦ elim (seal (be32_at buf 4) index) [
          | err e ↦ (err e, record d { streams = s })
          | ok sealed ↦ (ok (sealed, len + trailer_len), record d { streams = s })
        ]
      ]

unfoldable pub seal_rtcp_gcm : Crypto → Dir → Bytes → ℕ → Bool → Result SrtpError (Bytes × ℕ) × Dir
unfolding seal_rtcp_by seal_body_gcm
seal_rtcp_gcm c d buf len encrypt_body =
    seal_rtcp_by (seal_body_gcm encrypt_body c d buf len) srtcp_trailer_len d buf len

unfoldable pub seal_rtcp_cm : Crypto → Dir → Bytes → ℕ → Bool → Result SrtpError (Bytes × ℕ) × Dir
unfolding seal_rtcp_by seal_body_cm
seal_rtcp_cm c d buf len encrypt_body =
    seal_rtcp_by (seal_body_cm encrypt_body c d buf len) cm_srtcp_trailer_len d buf len

-- `encrypt_rtcp`.
unfoldable pub encrypt_rtcp :
    Crypto → SrtpProfile → Dir → Bytes → ℕ → Result SrtpError (Bytes × ℕ) × Dir
unfolding by_profile seal_rtcp_gcm seal_rtcp_cm
encrypt_rtcp c profile d buf len =
    by_profile profile (seal_rtcp_gcm c d buf len true) (seal_rtcp_cm c d buf len true)
      (λ e. (err e, d))
