-- ===== src/Srtp/Packets.antt =====
-- The packet paths of `Srtp`, crates/wroom-edge/src/srtp.rs: `decrypt_rtp`, `encrypt_rtp`,
-- `decrypt_rtcp` and `encrypt_rtcp` for the GCM and the CM profiles. A path takes the direction's state
-- and the buffer, and returns the buffer and the packet's length with the state that it leaves. A
-- buffer whose content the code leaves unspecified, on an error, is not returned.
pub mod Replayed
pub mod Reused
use wroom.Common.{
  ℕ, ◌+◌, ◌-◌, ◌*◌, ◌/◌, ◌%◌, ◌^◌, List, [], ◌∷◌, ◌++◌, Option, none, some, Bool, true, false, not,
  ltb, leb, nat_beq, nat_eq, list_beq, if◌then◌else◌, length, get_or, take, drop,
}
use wroom.Common.Bytes.{Bytes, byte_at, be16_at, be32_at, to_be32, slice, splice}
use wroom.Common.Results.{Result, ok, err, ◌>>=◌}
use wroom.Srtp.Errors.{
  SrtpProfile, aead_aes_128_gcm, aead_aes_256_gcm, aes128_cm_sha1_80, other_profile, SrtpError,
  unsupported_profile, too_short, malformed, buffer_too_small, auth_failed, replayed, index_reuse,
  index_exhausted, cipher,
}
use wroom.Srtp.Window.{IndexWindow, guess, send_index, check, record_index}
use wroom.Srtp.Streams.{Stream, Streams, fresh, get, get_mut_or_insert, modify}
use wroom.Srtp.Ciphers.{
  Crypto, SessionCipher, Dir, rtp_iv, rtcp_iv, cm_rtp_iv, cm_rtcp_iv, salt_of, cm_of, encrypt,
  decrypt,
}

abbrev pub srtp_tag_len : ℕ
srtp_tag_len = 16

abbrev pub srtcp_trailer_len : ℕ
srtcp_trailer_len = 20

abbrev pub cm_tag_len : ℕ
cm_tag_len = 10

abbrev pub cm_srtcp_trailer_len : ℕ
cm_srtcp_trailer_len = 14

-- The length of the header with its CSRC list and its extension block.
unfoldable pub header_length : Bytes → Result SrtpError ℕ
unfolding be16_at
header_length buf =
    let fixed = 12 + 4 * (byte_at buf 0 % 16) in
    if ltb (length buf) fixed
    then err malformed
    else if nat_beq (byte_at buf 0 / 16 % 2) 0
    then ok fixed
    else if ltb (length buf) (fixed + 4)
    then err malformed
    else if ltb (length buf) (fixed + (4 + 4 * be16_at buf (fixed + 2)))
    then err malformed
    else ok (fixed + (4 + 4 * be16_at buf (fixed + 2)))

-- The header's length, the sequence number and the SSRC.
unfoldable pub rtp_header : Bytes → Result SrtpError (ℕ × ℕ × ℕ)
unfolding header_length be16_at be32_at
rtp_header buf =
    if ltb (length buf) 12
    then err too_short
    else if nat_beq (byte_at buf 0 / 64) 2
    then (header_length buf >>= λ n. ok (n, be16_at buf 2, be32_at buf 8))
    else err malformed

-- A packet that has been authenticated and decrypted, before its index is committed.
pub record Opened : Type 0 where
  pub buf : Bytes
  pub len : ℕ
  pub ssrc : ℕ
  pub index : ℕ

-- The index that the receiver estimates; a new SSRC starts with the packet's sequence number.
unfoldable pub estimate : Streams → ℕ → ℕ → ℕ
estimate s ssrc seq = elim (get s ssrc) [ some st ↦ guess st.rtp seq | none ↦ seq ]

-- The index is new in the window of the SSRC, if there is one.
unfoldable pub is_unseen : (Stream → IndexWindow) → Streams → ℕ → ℕ → Bool
is_unseen window s ssrc index = elim (get s ssrc) [
  | some st ↦ check (window st) index
  | none ↦ true
]

-- `(index >> 16) as u32`.
abbrev pub roc_field : ℕ → ℕ
roc_field index = index / 2 ^ 16 % 2 ^ 32

unfoldable pub open_rtp_gcm : Crypto → Dir → Bytes → Result SrtpError Opened
unfolding rtp_header estimate is_unseen rtp_iv decrypt
open_rtp_gcm c d buf =
    let len = length buf in
    if ltb len (12 + srtp_tag_len)
    then err too_short
    else rtp_header buf >>= λ (header_len, seq, ssrc).
        if ltb (len - srtp_tag_len) header_len
        then err malformed
        else (let index = estimate d.streams ssrc seq in
            if is_unseen (λ st. st.rtp) d.streams ssrc index
            then (decrypt c d.rtp (rtp_iv (salt_of d.rtp) ssrc (roc_field index) seq)
                  (take header_len buf) (slice buf header_len (len - srtp_tag_len))
                  (drop (len - srtp_tag_len) buf)
                >>= λ body. ok (record {
                  buf = splice buf header_len body;
                  len = len - srtp_tag_len;
                  ssrc = ssrc;
                  index = index;
                }))
            else err replayed)

-- `verify_truncated_left`: the tag is a prefix of the MAC.
abbrev pub verifies : Crypto → Bytes → Bytes → Bytes → Bool
verifies c key message tag = list_beq (take (length tag) (c.hmac_sha1 key message)) tag

unfoldable pub open_rtp_cm : Crypto → Dir → Bytes → Result SrtpError Opened
unfolding rtp_header estimate is_unseen cm_rtp_iv cm_of list_beq to_be32
open_rtp_cm c d buf =
    let len = length buf in
    if ltb len (12 + cm_tag_len)
    then err too_short
    else rtp_header buf >>= λ (header_len, seq, ssrc).
        if ltb (len - cm_tag_len) header_len
        then err malformed
        else (let index = estimate d.streams ssrc seq in
            cm_of d.rtp >>= λ (enc, mac).
            if verifies c mac (take (len - cm_tag_len) buf ++ to_be32 (roc_field index))
              (drop (len - cm_tag_len) buf)
            then (if is_unseen (λ st. st.rtp) d.streams ssrc index
                then ok (record {
                  buf = splice buf header_len (
                      c.ctr_keystream enc (cm_rtp_iv (salt_of d.rtp) ssrc index)
                        (slice buf header_len (len - cm_tag_len)));
                  len = len - cm_tag_len;
                  ssrc = ssrc;
                  index = index;
                })
                else err replayed)
            else err auth_failed)

-- The dispatch on the profile.
unfoldable pub by_profile {ℓ} : {A : Type ℓ} → SrtpProfile → A → A → (SrtpError → A) → A
by_profile aead_aes_128_gcm gcm cm refuse = gcm
by_profile aead_aes_256_gcm gcm cm refuse = gcm
by_profile aes128_cm_sha1_80 gcm cm refuse = cm
by_profile (other_profile n) gcm cm refuse = refuse (unsupported_profile (other_profile n))

unfoldable pub open_rtp : Crypto → SrtpProfile → Dir → Bytes → Result SrtpError Opened
unfolding by_profile open_rtp_gcm open_rtp_cm
open_rtp c profile d buf = by_profile profile (open_rtp_gcm c d buf) (open_rtp_cm c d buf) err

-- `get_mut_or_insert(ssrc)?.rtp.record(index)`, and its like for SRTCP.
abbrev pub record_rtp : ℕ → Stream → Stream
record_rtp index st = record st { rtp = record_index st.rtp index }

abbrev pub record_rtcp : ℕ → Stream → Stream
record_rtcp index st = record st { rtcp = record_index st.rtcp index }

-- The end of a decrypt path: the index is committed.
unfoldable pub commit : (ℕ → Stream → Stream) → Dir → Opened → Result SrtpError (Bytes × ℕ) × Dir
commit mark d o = elim (modify d.streams o.ssrc (mark o.index)) [
  | err e ↦ (err e, d)
  | ok s ↦ (ok (o.buf, o.len), record d { streams = s })
]

-- `decrypt_rtp`.
unfoldable pub decrypt_rtp : Crypto → SrtpProfile → Dir → Bytes → Result SrtpError (Bytes × ℕ) × Dir
unfolding open_rtp commit
decrypt_rtp c profile d buf = elim (open_rtp c profile d buf) [
  | err e ↦ (err e, d)
  | ok o ↦ commit record_rtp d o
]

-- The block that chooses the index of an outbound packet. A new SSRC keeps its slot when it fails.
unfoldable pub choose_index : Streams → ℕ → ℕ → Result SrtpError ℕ × Streams
choose_index s ssrc seq = elim (get_mut_or_insert s ssrc) [
  | err e ↦ (err e, s)
  | ok (i, s') ↦ elim (get_or s'.slots i none) [
    | none ↦ (err cipher, s')
    | some st ↦ elim (send_index st.rtp seq) [
      | none ↦ (err index_exhausted, s')
      | some index ↦ if check st.rtp index then (ok index, s') else (err index_reuse, s')
    ]
  ]
]

-- The ciphertext with its tag in the buffer, `len` bytes of which are the packet.
unfoldable pub seal_rtp_gcm : Crypto → Dir → Bytes → ℕ → ℕ → ℕ → ℕ → ℕ → Result SrtpError Bytes
unfolding rtp_iv encrypt
seal_rtp_gcm c d buf len header_len seq ssrc index =
    encrypt c d.rtp (rtp_iv (salt_of d.rtp) ssrc (roc_field index) seq) (take header_len buf)
      (slice buf header_len len)
    >>= λ (body, tag). ok (splice (splice buf header_len body) len tag)

unfoldable pub seal_rtp_cm : Crypto → Dir → Bytes → ℕ → ℕ → ℕ → ℕ → ℕ → Result SrtpError Bytes
unfolding cm_rtp_iv cm_of to_be32
seal_rtp_cm c d buf len header_len seq ssrc index = cm_of d.rtp >>= λ (enc, mac).
    (let sealed =
        splice buf header_len
          (c.ctr_keystream enc (cm_rtp_iv (salt_of d.rtp) ssrc index) (slice buf header_len len)) in
      ok (
        splice sealed len
          (take cm_tag_len (c.hmac_sha1 mac (take len sealed ++ to_be32 (roc_field index))))))

-- The two `encrypt_rtp` paths, which differ in the tag's length and in how they seal.
unfoldable pub encrypt_rtp_by :
    (ℕ → ℕ → ℕ → ℕ → Result SrtpError Bytes)
    → ℕ
    → Dir
    → Bytes
    → ℕ
    → Result SrtpError (Bytes × ℕ) × Dir
unfolding rtp_header choose_index
encrypt_rtp_by seal tag_len d buf len =
    if ltb (length buf) (len + tag_len)
    then (err buffer_too_small, d)
    else elim (rtp_header (take len buf)) [
      | err e ↦ (err e, d)
      | ok (header_len, seq, ssrc) ↦
          let (chosen, s) = choose_index d.streams ssrc seq in
          elim chosen [
            | err e ↦ (err e, record d { streams = s })
            | ok index ↦ elim (seal header_len seq ssrc index) [
              | err e ↦ (err e, record d { streams = s })
              | ok sealed ↦ elim (modify s ssrc (record_rtp index)) [
                | err e ↦ (err e, record d { streams = s })
                | ok s' ↦ (ok (sealed, len + tag_len), record d { streams = s' })
              ]
            ]
          ]
    ]

unfoldable pub encrypt_rtp_gcm : Crypto → Dir → Bytes → ℕ → Result SrtpError (Bytes × ℕ) × Dir
unfolding encrypt_rtp_by seal_rtp_gcm
encrypt_rtp_gcm c d buf len = encrypt_rtp_by (seal_rtp_gcm c d buf len) srtp_tag_len d buf len

unfoldable pub encrypt_rtp_cm : Crypto → Dir → Bytes → ℕ → Result SrtpError (Bytes × ℕ) × Dir
unfolding encrypt_rtp_by seal_rtp_cm
encrypt_rtp_cm c d buf len = encrypt_rtp_by (seal_rtp_cm c d buf len) cm_tag_len d buf len

-- `encrypt_rtp`.
unfoldable pub encrypt_rtp :
    Crypto → SrtpProfile → Dir → Bytes → ℕ → Result SrtpError (Bytes × ℕ) × Dir
unfolding by_profile encrypt_rtp_gcm encrypt_rtp_cm
encrypt_rtp c profile d buf len =
    by_profile profile (encrypt_rtp_gcm c d buf len) (encrypt_rtp_cm c d buf len) (λ e. (err e, d))
