-- ===== src/Srtp/Ciphers.antt =====
-- The ciphers of crates/wroom-edge/src/srtp.rs: IV formation, key derivation and the session ciphers.
-- The primitives of the crates aes, aes-gcm, ctr and hmac are the parameters in `Crypto`.
use Prim.Native.Nat.{bit_xor}
use wroom.Common.{
  ℕ, zero, suc, ◌+◌, ◌*◌, ◌/◌, [], ◌∷◌, ◌++◌, Option, none, some, nat_beq, if◌then◌else◌, length,
  take, drop, replicate,
}
use wroom.Common.Bytes.{Bytes, to_be16, to_be32, slice, splice}
use wroom.Common.Results.{Result, ok, err, ◌>>=◌}
use wroom.Srtp.Errors.{
  SrtpProfile, aead_aes_128_gcm, aead_aes_256_gcm, aes128_cm_sha1_80, other_profile, SrtpError,
  unsupported_profile, bad_keying_material_len, cipher, auth_failed,
}
use wroom.Srtp.Streams
use wroom.Srtp.Streams.{Streams}

-- The primitives, each a function of its key: the AEAD seals to the ciphertext and the tag.
pub record Crypto : Type 0 where
  pub gcm_encrypt : Bytes → Bytes → Bytes → Bytes → Option (Bytes × Bytes)
  pub gcm_decrypt : Bytes → Bytes → Bytes → Bytes → Bytes → Option Bytes
  pub ctr_keystream : Bytes → Bytes → Bytes → Bytes
  pub hmac_sha1 : Bytes → Bytes → Bytes
  pub aes_block : Bytes → Bytes → Bytes

abbrev pub gcm_salt_len : ℕ
gcm_salt_len = 12

abbrev pub cm_salt_len : ℕ
cm_salt_len = 14

-- `xor(&mut iv[at..], src)`.
unfoldable pub xor_bytes : Bytes → Bytes → Bytes
xor_bytes [] src = []
xor_bytes (d ∷ dst) [] = d ∷ dst
xor_bytes (d ∷ dst) (b ∷ src) = bit_xor d b ∷ xor_bytes dst src

unfoldable pub xor_at : Bytes → ℕ → Bytes → Bytes
unfolding xor_bytes
xor_at iv at src =
    take at iv ++ xor_bytes (slice iv at (at + length src)) src ++ drop (at + length src) iv

abbrev padded : Bytes → ℕ → Bytes
padded salt width = splice (replicate width 0) 0 salt

unfoldable pub rtp_iv : Bytes → ℕ → ℕ → ℕ → Bytes
unfolding xor_at to_be16 to_be32
rtp_iv salt ssrc roc seq =
    xor_at (xor_at (xor_at (padded salt 12) 2 (to_be32 ssrc)) 6 (to_be32 roc)) 10 (to_be16 seq)

unfoldable pub rtcp_iv : Bytes → ℕ → ℕ → Bytes
unfolding xor_at to_be32
rtcp_iv salt ssrc index = xor_at (xor_at (padded salt 12) 2 (to_be32 ssrc)) 8 (to_be32 index)

-- `index.to_be_bytes()[2..]` of a `u64` is its low six bytes.
unfoldable pub cm_rtp_iv : Bytes → ℕ → ℕ → Bytes
unfolding xor_at to_be16 to_be32
cm_rtp_iv salt ssrc index =
    xor_at (xor_at (padded salt 16) 4 (to_be32 ssrc)) 8
      (to_be16 (index / 0x100000000) ++ to_be32 index)

unfoldable pub cm_rtcp_iv : Bytes → ℕ → ℕ → Bytes
unfolding xor_at to_be32
cm_rtcp_iv salt ssrc index = xor_at (xor_at (padded salt 16) 4 (to_be32 ssrc)) 10 (to_be32 index)

-- The loop over `out.chunks_mut(16)`: block `i` encrypts the input with `i` in its last two bytes.
-- There are as many chunks as it takes to cover `len` bytes.
unfoldable pub prf_blocks : (Bytes → Bytes) → Bytes → ℕ → ℕ → Bytes
unfolding to_be16
prf_blocks encrypt_block input zero i = []
prf_blocks encrypt_block input (suc n) i =
    encrypt_block (splice input 14 (to_be16 i)) ++ prf_blocks encrypt_block input n (i + 1)

unfoldable pub aes_cm_prf : Crypto → Bytes → Bytes → ℕ → ℕ → Bytes
unfolding prf_blocks xor_at
aes_cm_prf c master_key master_salt label len = take len (
    prf_blocks (c.aes_block master_key) (xor_at (padded master_salt 16) 7 (label ∷ []))
      ((len + 15) / 16) 0)

-- `Cipher`, with the session keys in place of the keyed ciphers.
pub data Cipher : Type 0 where
  gcm128 gcm256 : Bytes → Cipher
  cm_sha1 : Bytes → Bytes → Cipher

pub record SessionCipher : Type 0 where
  pub cipher : Cipher
  pub salt : Bytes

unfoldable pub derive :
    Crypto → SrtpProfile → Bytes → Bytes → ℕ → ℕ → ℕ → Result SrtpError SessionCipher
unfolding aes_cm_prf
derive c aead_aes_128_gcm key salt key_label auth_label salt_label = ok (record {
  cipher = gcm128 (aes_cm_prf c key salt key_label 16);
  salt = padded (aes_cm_prf c key salt salt_label gcm_salt_len) cm_salt_len;
})
derive c aead_aes_256_gcm key salt key_label auth_label salt_label = ok (record {
  cipher = gcm256 (aes_cm_prf c key salt key_label 32);
  salt = padded (aes_cm_prf c key salt salt_label gcm_salt_len) cm_salt_len;
})
derive c aes128_cm_sha1_80 key salt key_label auth_label salt_label = ok (record {
  cipher = cm_sha1 (aes_cm_prf c key salt key_label 16) (aes_cm_prf c key salt auth_label 20);
  salt = aes_cm_prf c key salt salt_label cm_salt_len;
})
derive c (other_profile n) key salt key_label auth_label salt_label =
    err (unsupported_profile (other_profile n))

-- `SessionCipher::salt`.
unfoldable pub salt_of : SessionCipher → Bytes
salt_of s = elim s.cipher [
  | gcm128 k ↦ take gcm_salt_len s.salt
  | gcm256 k ↦ take gcm_salt_len s.salt
  | cm_sha1 enc mac ↦ s.salt
]

-- `SessionCipher::cm`: the encryption key and the authentication key.
unfoldable pub cm_of : SessionCipher → Result SrtpError (Bytes × Bytes)
cm_of s = elim s.cipher [
  | gcm128 k ↦ err cipher
  | gcm256 k ↦ err cipher
  | cm_sha1 enc mac ↦ ok (enc, mac)
]

-- The key of an AEAD cipher; a CM cipher is refused.
unfoldable pub gcm_key : SessionCipher → Result SrtpError Bytes
gcm_key s = elim s.cipher [ gcm128 k ↦ ok k | gcm256 k ↦ ok k | cm_sha1 enc mac ↦ err cipher ]

-- `map_err` on what a primitive returns.
abbrev or_err {ℓ} : {A : Type ℓ} → SrtpError → Option A → Result SrtpError A
or_err e none = err e
or_err e (some a) = ok a

unfoldable pub encrypt :
    Crypto → SessionCipher → Bytes → Bytes → Bytes → Result SrtpError (Bytes × Bytes)
unfolding gcm_key
encrypt c s iv aad buf = gcm_key s >>= λ k. or_err cipher (c.gcm_encrypt k iv aad buf)

unfoldable pub decrypt :
    Crypto → SessionCipher → Bytes → Bytes → Bytes → Bytes → Result SrtpError Bytes
unfolding gcm_key
decrypt c s iv aad buf tag = gcm_key s >>= λ k. or_err auth_failed (c.gcm_decrypt k iv aad buf tag)

-- One direction's state, and the two directions of a connection.
pub record Dir : Type 0 where
  pub rtp : SessionCipher
  pub rtcp : SessionCipher
  pub streams : Streams

pub record Srtp : Type 0 where
  pub profile : SrtpProfile
  pub rx : Dir
  pub tx : Dir

-- `Dir::new`, with the labels of RFC 3711.
unfoldable pub new_dir : Crypto → SrtpProfile → Bytes → Bytes → Result SrtpError Dir
unfolding derive
new_dir c profile key salt = derive c profile key salt 0 1 2 >>= λ rtp.
    derive c profile key salt 3 4 5 >>= λ rtcp.
    ok (record { rtp = rtp; rtcp = rtcp; streams = Streams.new })

pub data Role : Type 0 where
  server client : Role

-- The lengths of the master key and the master salt.
unfoldable pub master_lengths : SrtpProfile → Result SrtpError (ℕ × ℕ)
master_lengths aead_aes_128_gcm = ok (16, gcm_salt_len)
master_lengths aead_aes_256_gcm = ok (32, gcm_salt_len)
master_lengths aes128_cm_sha1_80 = ok (16, cm_salt_len)
master_lengths (other_profile n) = err (unsupported_profile (other_profile n))

-- The client's half and the server's half: the keys come first, then the salts.
unfoldable pub client_half : Bytes → ℕ → ℕ → Bytes × Bytes
client_half material key_len salt_len =
    (take key_len material, slice material (2 * key_len) (2 * key_len + salt_len))

unfoldable pub server_half : Bytes → ℕ → ℕ → Bytes × Bytes
server_half material key_len salt_len =
    (slice material key_len (2 * key_len), drop (2 * key_len + salt_len) material)

-- The half that keys the inbound direction, and the one that keys the outbound direction.
unfoldable pub halves : Bytes → ℕ → ℕ → Role → (Bytes × Bytes) × (Bytes × Bytes)
unfolding client_half server_half
halves material key_len salt_len server =
    (client_half material key_len salt_len, server_half material key_len salt_len)
halves material key_len salt_len client =
    (server_half material key_len salt_len, client_half material key_len salt_len)

unfoldable pub from_keying_material_as : Crypto → SrtpProfile → Bytes → Role → Result SrtpError Srtp
unfolding new_dir master_lengths halves
from_keying_material_as c profile material role = master_lengths profile >>= λ (key_len, salt_len).
    if nat_beq (length material) (2 * (key_len + salt_len))
    then (let (theirs, ours) = halves material key_len salt_len role in
        new_dir c profile theirs.0 theirs.1 >>= λ rx. new_dir c profile ours.0 ours.1 >>= λ tx.
        ok (record { profile = profile; rx = rx; tx = tx }))
    else err (bad_keying_material_len (length material))
