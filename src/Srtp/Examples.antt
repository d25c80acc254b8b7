-- ===== src/Srtp/Examples.antt =====
-- The theorems on crates/wroom-edge/src/srtp.rs at concrete windows, tables and packets. The cipher
-- here passes every body through with a tag of zeros.
use wroom.Common.{
  ℕ, ◌+◌, ◌%◌, [], ◌∷◌, ◌++◌, none, some, true, false, ◌≡◌, refl, ◌↔◌, nat_eq, arith, replicate,
  ◌^◌,
}
use wroom.Common.Bytes.{Bytes}
use wroom.Common.Sets.{contains, HasNoRepeats}
use wroom.Srtp.Errors.{aead_aes_128_gcm}
use wroom.Srtp.Window.{IndexWindow, empty, guess, send_index, check, record_index}
use wroom.Srtp.Window.Replay.{Tracks, IsRecent, record_index-Tracks, check_iff}
use wroom.Srtp.Window.Estimate.{guess_recovers, send_index_late}
use wroom.Srtp.Streams
use wroom.Srtp.Streams.{Stream, Streams, fresh, get, modify, max_streams, occupied}
use wroom.Srtp.Streams.Table.{stream_of, get-eq-stream_of}
use wroom.Srtp.Streams.Modify.{Written, modify_ok}
use wroom.Srtp.Ciphers.{Crypto, SessionCipher, gcm128, Dir}
use wroom.Srtp.Packets.{record_rtp}
use wroom.Srtp.Packets.Replayed.{receive, receive-HasNoRepeats}
use wroom.Srtp.Packets.Reused.{send, send-HasNoRepeats}
use wroom.Srtp.Control.Replayed.{receive_rtcp, receive_rtcp-HasNoRepeats}
use wroom.Srtp.Accounts.{indices_of}

record_index-Tracks_example : Tracks (record_index (record_index empty 7) 5) (5 ∷ 7 ∷ [])
record_index-Tracks_example =
    record_index-Tracks (record_index empty 7) 5 (7 ∷ []) (record_index-Tracks empty 7 [] refl)

check_iff_example :
    (check (record_index empty 7) 7 ≡ true)
    ↔ ((contains {A = ℕ} 7 (7 ∷ []) ≡ false) × IsRecent (record_index empty 7).highest 7)
check_iff_example =
    check_iff (record_index empty 7) 7 (7 ∷ []) (record_index-Tracks empty 7 [] refl)

abbrev wrapped : ℕ
wrapped = 0x20003

abbrev after_wrap : IndexWindow
after_wrap = record { highest = some wrapped; bits = 1 }

guess_recovers_example : guess after_wrap (0x1fffe % 2 ^ 16) ≡ 0x1fffe
guess_recovers_example =
    guess_recovers wrapped 1 0x1fffe (omega arith) (omega arith) (omega arith) (omega arith)

send_index_late_example : send_index after_wrap (0x1fffe % 2 ^ 16) ≡ some (0x1fffe + 2 ^ 16)
send_index_late_example =
    send_index_late wrapped 1 0x1fffe (omega arith) (omega arith) (omega arith) (omega arith)

abbrev table : Streams
table = record { slots = some (fresh 7) ∷ none ∷ some (fresh 9) ∷ []; last = some 0 }

get-eq-stream_of_example : get table 9 ≡ stream_of 9 table.slots
get-eq-stream_of_example = get-eq-stream_of table 9 ((refl, (refl, tt)), (tt, tt))

abbrev table_after : Streams
table_after = record {
  slots = some (fresh 7) ∷ some (record_rtp 300 (fresh 8)) ∷ some (fresh 9) ∷ [];
  last = some 1;
}

modify_ok_example : Written table 8 (record_rtp 300) table_after.slots
unfolding modify record_index
modify_ok_example =
    modify_ok table 8 (record_rtp 300) (λ st. refl) ((refl, (refl, tt)), (tt, tt)) table_after refl

abbrev plain : Crypto
plain = record {
  gcm_encrypt = λ key iv aad body. some (body, replicate 16 0);
  gcm_decrypt = λ key iv aad body tag. some body;
  ctr_keystream = λ key iv body. body;
  hmac_sha1 = λ key message. replicate 20 0;
  aes_block = λ key block. block;
}

abbrev cipher_of_zeros : SessionCipher
cipher_of_zeros = record { cipher = gcm128 (replicate 16 0); salt = replicate 14 0 }

abbrev start : Dir
start = record { rtp = cipher_of_zeros; rtcp = cipher_of_zeros; streams = Streams.new }

-- Version 2, sequence number 5, SSRC 9 and one byte of payload.
abbrev packet : Bytes
packet = 0x80 ∷ 0 ∷ 0 ∷ 5 ∷ 0 ∷ 0 ∷ 0 ∷ 0 ∷ 0 ∷ 0 ∷ 0 ∷ 9 ∷ 1 ∷ []

abbrev sealed : Bytes
sealed = packet ++ replicate 16 0

receive-HasNoRepeats_example :
    HasNoRepeats (indices_of 9 (receive plain aead_aes_128_gcm start [] (sealed ∷ sealed ∷ [])).1)
receive-HasNoRepeats_example =
    receive-HasNoRepeats plain aead_aes_128_gcm start (sealed ∷ sealed ∷ []) 9 refl

send-HasNoRepeats_example :
    HasNoRepeats
      (indices_of 9 (send plain aead_aes_128_gcm start [] ((sealed, 13) ∷ (sealed, 13) ∷ [])).1)
send-HasNoRepeats_example =
    send-HasNoRepeats plain aead_aes_128_gcm start ((sealed, 13) ∷ (sealed, 13) ∷ []) 9 refl

-- Version 2, SSRC 9, with a trailer of a tag of zeros and the index word for index 3 with the E bit.
abbrev control : Bytes
control = 0x80 ∷ 201 ∷ 0 ∷ 1 ∷ 0 ∷ 0 ∷ 0 ∷ 9 ∷ replicate 16 0 ++ 0x80 ∷ 0 ∷ 0 ∷ 3 ∷ []

receive_rtcp-HasNoRepeats_example :
    HasNoRepeats
      (indices_of 9 (receive_rtcp plain aead_aes_128_gcm start [] (control ∷ control ∷ [])).1)
receive_rtcp-HasNoRepeats_example =
    receive_rtcp-HasNoRepeats plain aead_aes_128_gcm start (control ∷ control ∷ []) 9 refl
