-- ===== src/Srtp/Packets/Replayed.antt =====
-- Replay protection of `decrypt_rtp`.
use wroom.Common.{ℕ, List, [], ◌∷◌, true, ◌≡◌, refl, inl, inr, arith, nat_eq, Option-cases}
use wroom.Common.Bytes.{Bytes}
use wroom.Common.Sets.{HasNoRepeats}
use wroom.Common.Results.{ok, err, Result-cases}
use wroom.Srtp.Errors.{
  SrtpProfile, aead_aes_128_gcm, aead_aes_256_gcm, aes128_cm_sha1_80, other_profile,
}
use wroom.Srtp.Window.{IndexWindow, empty, check}
use wroom.Srtp.Streams
use wroom.Srtp.Streams.{Stream, Streams, fresh, get, modify}
use wroom.Srtp.Streams.Table.{HasDistinctSsrcs, stream_of, or_fresh, get-eq-stream_of}
use wroom.Srtp.Ciphers.{Crypto, Dir}
use wroom.Srtp.Packets.{
  Opened, open_rtp, open_rtp_gcm, open_rtp_cm, rtp_header, is_unseen, record_rtp, commit,
  decrypt_rtp,
}
use wroom.Srtp.Accounts.{Log, indices_of, Accounts, modify-Accounts, new-Accounts}

abbrev pub rtp_window : Stream → IndexWindow
rtp_window st = st.rtp

-- A packet that opens has an index that its SSRC's window accepts.
gcm_unseen :
    (c : Crypto) (d : Dir) (buf : Bytes) (o : Opened)
    → open_rtp_gcm c d buf ≡ ok o
    → is_unseen rtp_window d.streams o.ssrc o.index ≡ true
unfolding open_rtp_gcm
gcm_unseen c d buf o h = elim (Result-cases (rtp_header buf)) [
  | inl (e, q) ↦ ground (arith, q, h)
  | inr (header, q) ↦ ground (arith, q, h)
]

cm_unseen :
    (c : Crypto) (d : Dir) (buf : Bytes) (o : Opened)
    → open_rtp_cm c d buf ≡ ok o
    → is_unseen rtp_window d.streams o.ssrc o.index ≡ true
unfolding open_rtp_cm
cm_unseen c d buf o h = elim (Result-cases (rtp_header buf)) [
  | inl (e, q) ↦ ground (arith, q, h)
  | inr (header, q) ↦ ground (arith, q, h)
]

open_unseen :
    (c : Crypto) (profile : SrtpProfile) (d : Dir) (buf : Bytes) (o : Opened)
    → open_rtp c profile d buf ≡ ok o
    → is_unseen rtp_window d.streams o.ssrc o.index ≡ true
unfolding open_rtp
open_unseen c aead_aes_128_gcm d buf o h = gcm_unseen c d buf o h
open_unseen c aead_aes_256_gcm d buf o h = gcm_unseen c d buf o h
open_unseen c aes128_cm_sha1_80 d buf o h = cm_unseen c d buf o h
open_unseen c (other_profile n) d buf o h = ground (arith, h)

-- `is_unseen` asks the window that the table has for the SSRC, an empty one where it has none.
pub unseen-check :
    (window : Stream → IndexWindow) (s : Streams) (ssrc index : ℕ)
    → window (fresh ssrc) ≡ empty
    → HasDistinctSsrcs s.slots
    → is_unseen window s ssrc index ≡ true
    → check (window (or_fresh ssrc (stream_of ssrc s.slots))) index ≡ true
unfolding is_unseen
unseen-check window s ssrc index f d h = elim (Option-cases (stream_of ssrc s.slots)) [
  | inl e ↦ rw e (rw f (unfold check in refl))
  | inr (st, e) ↦ ground (arith, e, h, get-eq-stream_of s ssrc d)
]

-- The log with the packet's SSRC and index, if `decrypt_rtp` accepts the packet.
unfoldable pub received : Crypto → SrtpProfile → Dir → Bytes → Log → Log
received c profile d buf log = elim (decrypt_rtp c profile d buf).0 [
  | err e ↦ log
  | ok out ↦ elim (open_rtp c profile d buf) [ err e ↦ log | ok o ↦ (o.ssrc, o.index) ∷ log ]
]

-- Any number of packets, one after the other.
unfoldable pub receive : Crypto → SrtpProfile → Dir → Log → List Bytes → Dir × Log
unfolding received
receive c profile d log [] = (d, log)
receive c profile d log (buf ∷ bufs) =
    receive c profile (decrypt_rtp c profile d buf).1 (received c profile d buf log) bufs

decrypt_rtp-Accounts :
    (c : Crypto) (profile : SrtpProfile) (d : Dir) (buf : Bytes) (log : Log)
    → Accounts rtp_window d.streams log
    → Accounts rtp_window (decrypt_rtp c profile d buf).1.streams (received c profile d buf log)
unfolding decrypt_rtp commit received
decrypt_rtp-Accounts c profile d buf log a = elim (Result-cases (open_rtp c profile d buf)) [
  | inl (e, q) ↦ rw (q, decrypt_rtp, received) a
  | inr (o, q) ↦ elim (Result-cases (modify d.streams o.ssrc (record_rtp o.index))) [
    | inl (e, m) ↦ rw (q, decrypt_rtp, received) (rw (m, commit) a)
    | inr (s, m) ↦
        rw (q, decrypt_rtp, received)
          (rw (m, commit)
            (rw q (
              modify-Accounts rtp_window record_rtp (λ i st. refl) (λ i st. refl) d.streams s log
                o.ssrc o.index a
                (unseen-check rtp_window d.streams o.ssrc o.index refl a.distinct
                  (open_unseen c profile d buf o q))
                m)))
  ]
]

receive-Accounts :
    (c : Crypto) (profile : SrtpProfile) (d : Dir) (log : Log) (bufs : List Bytes)
    → Accounts rtp_window d.streams log
    → Accounts rtp_window (receive c profile d log bufs).0.streams (receive c profile d log bufs).1
unfolding receive
receive-Accounts c profile d log [] a = a
receive-Accounts c profile d log (buf ∷ bufs) a =
    receive-Accounts c profile (decrypt_rtp c profile d buf).1 (received c profile d buf log) bufs
      (decrypt_rtp-Accounts c profile d buf log a)

-- From an empty table of streams, no sequence of packets makes `decrypt_rtp` accept the same index
-- twice for one SSRC, whatever the cipher does.
pub receive-HasNoRepeats :
    (c : Crypto) (profile : SrtpProfile) (d : Dir) (bufs : List Bytes) (ssrc : ℕ)
    → d.streams ≡ Streams.new
    → HasNoRepeats (indices_of ssrc (receive c profile d [] bufs).1)
receive-HasNoRepeats c profile d bufs ssrc h =
    (receive-Accounts c profile d [] bufs (rw h (new-Accounts rtp_window (λ i. refl)))).no_repeats
      ssrc
