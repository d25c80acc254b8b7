-- ===== src/Srtp/Errors.antt =====
-- `SrtpError` of crates/wroom-edge/src/srtp.rs, and the protection profiles that the file names.
use wroom.Common.{ℕ}

-- The profiles of dimpl's `SrtpProfile` that the code matches on, and any other.
pub data SrtpProfile : Type 0 where
  aead_aes_128_gcm aead_aes_256_gcm aes128_cm_sha1_80 : SrtpProfile
  other_profile : ℕ → SrtpProfile

pub data SrtpError : Type 0 where
  unsupported_profile : SrtpProfile → SrtpError
  bad_keying_material_len : ℕ → SrtpError
  too_short malformed buffer_too_small auth_failed replayed : SrtpError
  too_many_streams index_reuse index_exhausted cipher : SrtpError
