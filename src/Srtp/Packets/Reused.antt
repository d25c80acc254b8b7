-- ===== src/Srtp/Packets/Reused.antt =====
-- IV-reuse prevention of `encrypt_rtp`.
use wroom.Common.{
  ℕ, ◌+◌, List, [], ◌∷◌, true, false, ◌≡◌, refl, inl, inr, arith, nat_eq, Bool-cases, sym, subst,
  ◌⊎◌, ltb, length,
}
use wroom.Common.Bytes.{Bytes}
use wroom.Common.Sets.{HasNoRepeats}
use wroom.Common.Results.{Result, ok, err, Result-cases}
use wroom.Srtp.Errors.{
  SrtpError, buffer_too_small, SrtpProfile, aead_aes_128_gcm, aead_aes_256_gcm, aes128_cm_sha1_80,
  other_profile,
}
use wroom.Srtp.Window.{check}
use wroom.Srtp.Streams
use wroom.Srtp.Streams.{Stream, Streams, fresh, get, modify}
use wroom.Srtp.Streams.Table.{stream_of, or_fresh}
use wroom.Srtp.Ciphers.{Crypto, Dir}
use wroom.Srtp.Packets.{
  choose_index, seal_rtp_gcm, seal_rtp_cm, encrypt_rtp_by, encrypt_rtp_gcm, encrypt_rtp_cm,
  encrypt_rtp, rtp_header, record_rtp, srtp_tag_len, cm_tag_len,
}
use wroom.Srtp.Accounts.{Log, indices_of, Accounts, modify-Accounts, new-Accounts}
use wroom.Srtp.Streams.{get_mut_or_insert}
use wroom.Srtp.Streams.Inserted.{inserted}
use wroom.Srtp.Packets.Replayed.{rtp_window}
use wroom.Common.{take}

module _ (s : Streams) (ssrc seq : ℕ) (log : Log) (a : Accounts rtp_window s log) where
  -- Choosing an index keeps the accounts, whether it succeeds or not.
  choose_index-Accounts : Accounts rtp_window (choose_index s ssrc seq).1 log
  unfolding choose_index
  choose_index-Accounts = elim (Result-cases (get_mut_or_insert s ssrc)) [
    | inl (e, q) ↦ rw (q, choose_index) a
    | inr (out, q) ↦
        let (d', same, held) = inserted s out.1 ssrc out.0 q a.distinct in
        let a' : Accounts rtp_window out.1 log = record {
          distinct = d';
          tracks = λ j. rw (same j) (a.tracks j);
          no_repeats = a.no_repeats;
        } in
        let state : (choose_index s ssrc seq).1 ≡ out.1 = ground (arith, q) in
        subst (λ t. Accounts rtp_window t log) (sym state) a'
  ]

  -- The index chosen is one that the SSRC's window accepts.
  choose_index-check :
      (index : ℕ)
      → (choose_index s ssrc seq).0 ≡ ok index
      → check (rtp_window (or_fresh ssrc (stream_of ssrc (choose_index s ssrc seq).1.slots))) index
        ≡ true
  unfolding choose_index
  choose_index-check index h = elim (Result-cases (get_mut_or_insert s ssrc)) [
    | inl (e, q) ↦ absurd (ground (arith, q, h))
    | inr (out, q) ↦
        let (d', same, held) = inserted s out.1 ssrc out.0 q a.distinct in
        let state : (choose_index s ssrc seq).1 ≡ out.1 = ground (arith, q) in
        let before : check (rtp_window (or_fresh ssrc (stream_of ssrc s.slots))) index ≡ true =
          ground (arith, q, held, h) in
        subst (λ t. check (rtp_window (or_fresh ssrc (stream_of ssrc t.slots))) index ≡ true)
          (sym state) (rw (same ssrc) before)
  ]

-- The log with the packet's SSRC and index, if `encrypt_rtp` returned a packet.
unfoldable pub sent : Result SrtpError (Bytes × ℕ) → Dir → Bytes → ℕ → Log → Log
sent (err e) d buf len log = log
sent (ok out) d buf len log = elim (rtp_header (take len buf)) [
  | err e ↦ log
  | ok (header_len, seq, ssrc) ↦ elim (choose_index d.streams ssrc seq).0 [
    | err e ↦ log
    | ok index ↦ (ssrc, index) ∷ log
  ]
]

module _ (seal : ℕ → ℕ → ℕ → ℕ → Result SrtpError Bytes) (tag_len : ℕ) (d : Dir) (buf : Bytes)
    (len : ℕ) where
  by-small :
      ltb (length buf) (len + tag_len) ≡ true
      → encrypt_rtp_by seal tag_len d buf len ≡ (err buffer_too_small, d)
  unfolding encrypt_rtp_by
  by-small small = rw small refl

  by-headless :
      (e : SrtpError)
      → ltb (length buf) (len + tag_len) ≡ false
      → rtp_header (take len buf) ≡ err e
      → encrypt_rtp_by seal tag_len d buf len ≡ (err e, d)
  unfolding encrypt_rtp_by
  by-headless e room q = rw room (rw q refl)

  -- The result, once the header is read and the index is chosen.
  by-refused :
      (header : ℕ × ℕ × ℕ) (e : SrtpError)
      → ltb (length buf) (len + tag_len) ≡ false
      → rtp_header (take len buf) ≡ ok header
      → (choose_index d.streams header.2 header.1).0 ≡ err e
      → encrypt_rtp_by seal tag_len d buf len
        ≡ (err e, record d { streams = (choose_index d.streams header.2 header.1).1 })
  unfolding encrypt_rtp_by
  by-refused header e room q k = rw room (rw q (rw k refl))

  by-chosen :
      (header : ℕ × ℕ × ℕ) (index : ℕ)
      → ltb (length buf) (len + tag_len) ≡ false
      → rtp_header (take len buf) ≡ ok header
      → (choose_index d.streams header.2 header.1).0 ≡ ok index
      → let s = (choose_index d.streams header.2 header.1).1 in
        ((e : SrtpError) × (encrypt_rtp_by seal tag_len d buf len
            ≡ (err e, record d { streams = s })))
        ⊎ ((out : Bytes × ℕ) × (s' : Streams) × (encrypt_rtp_by seal tag_len d buf len
              ≡ (ok out, record d { streams = s' }))
            × (modify s header.2 (record_rtp index) ≡ ok s'))
  unfolding encrypt_rtp_by
  by-chosen header index room q k = elim (Result-cases (seal header.0 header.1 header.2 index)) [
    | inl (e, f) ↦ inl (e, rw room (rw q (rw k (rw f refl))))
    | inr (sealed, f) ↦
        elim (Result-cases
          (modify (choose_index d.streams header.2 header.1).1 header.2 (record_rtp index))) [
            | inl (e, m) ↦ inl (e, rw room (rw q (rw k (rw f (rw m refl)))))
            | inr (s', m) ↦
                inr ((sealed, len + tag_len), s', rw room (rw q (rw k (rw f (rw m refl)))), m)
          ]
  ]

  sent-logged :
      (header : ℕ × ℕ × ℕ) (index : ℕ) (out : Bytes × ℕ) (log : Log)
      → rtp_header (take len buf) ≡ ok header
      → (choose_index d.streams header.2 header.1).0 ≡ ok index
      → sent (ok out) d buf len log ≡ (header.2, index) ∷ log
  unfolding sent
  sent-logged header index out log q k = rw (q, sent) (rw k refl)

  by-Accounts :
      (log : Log)
      → Accounts rtp_window d.streams log
      → Accounts rtp_window
          (encrypt_rtp_by seal tag_len d buf len).1.streams
          (sent (encrypt_rtp_by seal tag_len d buf len).0 d buf len log)
  unfolding sent
  by-Accounts log a = elim (Bool-cases (ltb (length buf) (len + tag_len))) [
    | inl small ↦ rw (by-small small) a
    | inr room ↦ elim (Result-cases (rtp_header (take len buf))) [
      | inl (e, q) ↦ rw (by-headless e room q) a
      | inr (header, q) ↦
          let a' = choose_index-Accounts d.streams header.2 header.1 log a in
          elim (Result-cases (choose_index d.streams header.2 header.1).0) [
            | inl (e, k) ↦ rw (by-refused header e room q k) a'
            | inr (index, k) ↦ elim (by-chosen header index room q k) [
              | inl (e, r) ↦ rw r a'
              | inr (out, s', r, m) ↦ rw r (
                  rw (sent-logged header index out log q k) (
                    modify-Accounts rtp_window record_rtp (λ i st. refl) (λ i st. refl)
                      (choose_index d.streams header.2 header.1).1 s' log header.2 index a'
                      (choose_index-check d.streams header.2 header.1 log a index k) m))
            ]
          ]
    ]
  ]

-- Any number of sends, one after the other.
unfoldable pub send : Crypto → SrtpProfile → Dir → Log → List (Bytes × ℕ) → Dir × Log
unfolding sent
send c profile d log [] = (d, log)
send c profile d log (p ∷ ps) =
    let out = encrypt_rtp c profile d p.0 p.1 in send c profile out.1 (sent out.0 d p.0 p.1 log) ps

encrypt_rtp-Accounts :
    (c : Crypto) (profile : SrtpProfile) (d : Dir) (buf : Bytes) (len : ℕ) (log : Log)
    → Accounts rtp_window d.streams log
    → Accounts rtp_window
        (encrypt_rtp c profile d buf len).1.streams
        (sent (encrypt_rtp c profile d buf len).0 d buf len log)
unfolding encrypt_rtp encrypt_rtp_gcm encrypt_rtp_cm
encrypt_rtp-Accounts c aead_aes_128_gcm d buf len log a =
    by-Accounts (seal_rtp_gcm c d buf len) srtp_tag_len d buf len log a
encrypt_rtp-Accounts c aead_aes_256_gcm d buf len log a =
    by-Accounts (seal_rtp_gcm c d buf len) srtp_tag_len d buf len log a
encrypt_rtp-Accounts c aes128_cm_sha1_80 d buf len log a =
    by-Accounts (seal_rtp_cm c d buf len) cm_tag_len d buf len log a
encrypt_rtp-Accounts c (other_profile n) d buf len log a = unfold sent in a

send-Accounts :
    (c : Crypto) (profile : SrtpProfile) (d : Dir) (log : Log) (ps : List (Bytes × ℕ))
    → Accounts rtp_window d.streams log
    → Accounts rtp_window (send c profile d log ps).0.streams (send c profile d log ps).1
unfolding send
send-Accounts c profile d log [] a = a
send-Accounts c profile d log (p ∷ ps) a =
    let out = encrypt_rtp c profile d p.0 p.1 in
    send-Accounts c profile out.1 (sent out.0 d p.0 p.1 log) ps
      (encrypt_rtp-Accounts c profile d p.0 p.1 log a)

-- From an empty table of streams, no sequence of sends makes `encrypt_rtp` return two packets with the
-- same index for one SSRC, also with refused sends between them.
pub send-HasNoRepeats :
    (c : Crypto) (profile : SrtpProfile) (d : Dir) (ps : List (Bytes × ℕ)) (ssrc : ℕ)
    → d.streams ≡ Streams.new
    → HasNoRepeats (indices_of ssrc (send c profile d [] ps).1)
send-HasNoRepeats c profile d ps ssrc h =
    (send-Accounts c profile d [] ps (rw h (new-Accounts rtp_window (λ i. refl)))).no_repeats ssrc
