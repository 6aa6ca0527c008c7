-- ===== src/Ciphersuite/Codes.antt =====
-- types.rs: the wire values of the ciphersuites.
use mls4rn.Prelude.{ℕ, ◌≡◌, ◌↔◌, refl, some, arith}
use mls4rn.Ciphersuite.{
  Ciphersuite, mls_128_dhkemx25519_aes128gcm_sha256_ed25519, ciphersuite_value,
  ciphersuite_try_from, aead_nonce_length,
}

-- A value is read as a ciphersuite exactly when it is that ciphersuite's own value.
pub try_from-value :
    (c : Ciphersuite) (v : ℕ) → (ciphersuite_try_from v ≡ some c) ↔ (ciphersuite_value c ≡ v)
unfolding ciphersuite_try_from
try_from-value mls_128_dhkemx25519_aes128gcm_sha256_ed25519 v = ground arith
try_from-value c v = ground arith

-- The nonces of all ciphersuites have the length that `AeadNonce` has room for.
pub nonce_length : (c : Ciphersuite) → aead_nonce_length c ≡ 12
nonce_length mls_128_dhkemx25519_aes128gcm_sha256_ed25519 = refl
nonce_length c = refl
