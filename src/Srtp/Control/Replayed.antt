-- ===== src/Srtp/Control/Replayed.antt =====
-- Replay protection of `decrypt_rtcp`.
use wroom.Common.{ℕ, List, [], ◌∷◌, true, ◌≡◌, refl, inl, inr, arith, nat_eq}
use wroom.Common.Bytes.{Bytes}
use wroom.Common.Sets.{HasNoRepeats}
use wroom.Common.Results.{ok, err, Result-cases}
use wroom.Srtp.Errors.{
  SrtpProfile, aead_aes_128_gcm, aead_aes_256_gcm, aes128_cm_sha1_80, other_profile,
}
use wroom.Srtp.Window.{IndexWindow}
use wroom.Srtp.Streams
use wroom.Srtp.Streams.{Stream, Streams, fresh, get, modify}
use wroom.Srtp.Ciphers.{Crypto, Dir}
use wroom.Srtp.Packets.{Opened, is_unseen, record_rtcp, commit}
use wroom.Srtp.Packets.Replayed.{unseen-check}
use wroom.Srtp.Control.{open_rtcp, open_rtcp_gcm, open_rtcp_cm, decrypt_rtcp}
use wroom.Srtp.Accounts.{Log, indices_of, Accounts, modify-Accounts, new-Accounts}

abbrev pub rtcp_window : Stream → IndexWindow
rtcp_window st = st.rtcp

-- A packet that opens has an index that its SSRC's window accepts.
gcm_unseen :
    (c : Crypto) (d : Dir) (buf : Bytes) (o : Opened)
    → open_rtcp_gcm c d buf ≡ ok o
    → is_unseen rtcp_window d.streams o.ssrc o.index ≡ true
unfolding open_rtcp_gcm
gcm_unseen c d buf o h = ground (arith, h)

cm_unseen :
    (c : Crypto) (d : Dir) (buf : Bytes) (o : Opened)
    → open_rtcp_cm c d buf ≡ ok o
    → is_unseen rtcp_window d.streams o.ssrc o.index ≡ true
unfolding open_rtcp_cm
cm_unseen c d buf o h = ground (arith, h)

open_unseen :
    (c : Crypto) (profile : SrtpProfile) (d : Dir) (buf : Bytes) (o : Opened)
    → open_rtcp c profile d buf ≡ ok o
    → is_unseen rtcp_window d.streams o.ssrc o.index ≡ true
unfolding open_rtcp
open_unseen c aead_aes_128_gcm d buf o h = gcm_unseen c d buf o h
open_unseen c aead_aes_256_gcm d buf o h = gcm_unseen c d buf o h
open_unseen c aes128_cm_sha1_80 d buf o h = cm_unseen c d buf o h
open_unseen c (other_profile n) d buf o h = ground (arith, h)

-- The log with the packet's SSRC and index, if `decrypt_rtcp` accepts the packet.
unfoldable pub logged : Crypto → SrtpProfile → Dir → Bytes → Log → Log
logged c profile d buf log = elim (decrypt_rtcp c profile d buf).0 [
  | err e ↦ log
  | ok out ↦ elim (open_rtcp c profile d buf) [ err e ↦ log | ok o ↦ (o.ssrc, o.index) ∷ log ]
]

-- Any number of packets, one after the other.
unfoldable pub receive_rtcp : Crypto → SrtpProfile → Dir → Log → List Bytes → Dir × Log
unfolding logged
receive_rtcp c profile d log [] = (d, log)
receive_rtcp c profile d log (buf ∷ bufs) =
    receive_rtcp c profile (decrypt_rtcp c profile d buf).1 (logged c profile d buf log) bufs

decrypt_rtcp-Accounts :
    (c : Crypto) (profile : SrtpProfile) (d : Dir) (buf : Bytes) (log : Log)
    → Accounts rtcp_window d.streams log
    → Accounts rtcp_window (decrypt_rtcp c profile d buf).1.streams (logged c profile d buf log)
unfolding decrypt_rtcp commit logged
decrypt_rtcp-Accounts c profile d buf log a = elim (Result-cases (open_rtcp c profile d buf)) [
  | inl (e, q) ↦ rw (q, decrypt_rtcp, logged) a
  | inr (o, q) ↦ elim (Result-cases (modify d.streams o.ssrc (record_rtcp o.index))) [
    | inl (e, m) ↦ rw (q, decrypt_rtcp, logged) (rw (m, commit) a)
    | inr (s, m) ↦
        rw (q, decrypt_rtcp, logged)
          (rw (m, commit)
            (rw q (
              modify-Accounts rtcp_window record_rtcp (λ i st. refl) (λ i st. refl) d.streams s log
                o.ssrc o.index a
                (unseen-check rtcp_window d.streams o.ssrc o.index refl a.distinct
                  (open_unseen c profile d buf o q))
                m)))
  ]
]

receive_rtcp-Accounts :
    (c : Crypto) (profile : SrtpProfile) (d : Dir) (log : Log) (bufs : List Bytes)
    → Accounts rtcp_window d.streams log
    → Accounts rtcp_window
        (receive_rtcp c profile d log bufs).0.streams
        (receive_rtcp c profile d log bufs).1
unfolding receive_rtcp
receive_rtcp-Accounts c profile d log [] a = a
receive_rtcp-Accounts c profile d log (buf ∷ bufs) a =
    receive_rtcp-Accounts c profile (decrypt_rtcp c profile d buf).1 (logged c profile d buf log)
      bufs (decrypt_rtcp-Accounts c profile d buf log a)

-- From an empty table of streams, no sequence of packets makes `decrypt_rtcp` accept the same index
-- twice for one SSRC, whatever the cipher does.
pub receive_rtcp-HasNoRepeats :
    (c : Crypto) (profile : SrtpProfile) (d : Dir) (bufs : List Bytes) (ssrc : ℕ)
    → d.streams ≡ Streams.new
    → HasNoRepeats (indices_of ssrc (receive_rtcp c profile d [] bufs).1)
receive_rtcp-HasNoRepeats c profile d bufs ssrc h =
    (receive_rtcp-Accounts c profile d [] bufs
        (rw h (new-Accounts rtcp_window (λ i. refl)))).no_repeats
      ssrc
