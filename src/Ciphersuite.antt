-- ===== src/Ciphersuite.antt =====
-- openmls/traits/src/types.rs: the ciphersuites of a build without the draft features, with their
-- algorithms and lengths.
pub mod Codes
mod Tests
use mls4rn.Prelude.{ℕ, Option, none, some, ◌==◌, if◌then◌else◌}

pub data AeadType : Type 0 where
  aes_128_gcm aes_256_gcm chacha20_poly1305 : AeadType

pub data HashType : Type 0 where
  sha2_256 sha2_384 sha2_512 : HashType

pub data SignatureScheme : Type 0 where
  ecdsa_secp256r1_sha256 ecdsa_secp384r1_sha384 ecdsa_secp521r1_sha512 ed25519 ed448 :
      SignatureScheme

pub data HpkeKemType : Type 0 where
  dhkem_p256 dhkem_p384 dhkem_p521 dhkem_25519 dhkem_448 : HpkeKemType

pub data HpkeKdfType : Type 0 where
  hkdf_sha256 hkdf_sha384 hkdf_sha512 : HpkeKdfType

pub data HpkeAeadType : Type 0 where
  aes_gcm128 aes_gcm256 hpke_chacha20_poly1305 export : HpkeAeadType

pub data Ciphersuite : Type 0 where
  mls_128_dhkemx25519_aes128gcm_sha256_ed25519 : Ciphersuite
  mls_128_dhkemp256_aes128gcm_sha256_p256 : Ciphersuite
  mls_128_dhkemx25519_chacha20poly1305_sha256_ed25519 : Ciphersuite
  mls_256_dhkemx448_aes256gcm_sha512_ed448 : Ciphersuite
  mls_256_dhkemp521_aes256gcm_sha512_p521 : Ciphersuite
  mls_256_dhkemx448_chacha20poly1305_sha512_ed448 : Ciphersuite
  mls_256_dhkemp384_aes256gcm_sha384_p384 : Ciphersuite

abbrev pub tag_size : AeadType → ℕ
tag_size aes_128_gcm = 16
tag_size aes_256_gcm = 16
tag_size chacha20_poly1305 = 16

abbrev pub key_size : AeadType → ℕ
key_size aes_128_gcm = 16
key_size aes_256_gcm = 32
key_size chacha20_poly1305 = 32

abbrev pub nonce_size : AeadType → ℕ
nonce_size aes_128_gcm = 12
nonce_size aes_256_gcm = 12
nonce_size chacha20_poly1305 = 12

-- `HashType::size`
abbrev pub hash_size : HashType → ℕ
hash_size sha2_256 = 32
hash_size sha2_384 = 48
hash_size sha2_512 = 64

abbrev pub hash_algorithm : Ciphersuite → HashType
hash_algorithm mls_128_dhkemx25519_aes128gcm_sha256_ed25519 = sha2_256
hash_algorithm mls_128_dhkemp256_aes128gcm_sha256_p256 = sha2_256
hash_algorithm mls_128_dhkemx25519_chacha20poly1305_sha256_ed25519 = sha2_256
hash_algorithm mls_256_dhkemp384_aes256gcm_sha384_p384 = sha2_384
hash_algorithm mls_256_dhkemx448_aes256gcm_sha512_ed448 = sha2_512
hash_algorithm mls_256_dhkemp521_aes256gcm_sha512_p521 = sha2_512
hash_algorithm mls_256_dhkemx448_chacha20poly1305_sha512_ed448 = sha2_512

abbrev pub signature_algorithm : Ciphersuite → SignatureScheme
signature_algorithm mls_128_dhkemx25519_aes128gcm_sha256_ed25519 = ed25519
signature_algorithm mls_128_dhkemx25519_chacha20poly1305_sha256_ed25519 = ed25519
signature_algorithm mls_128_dhkemp256_aes128gcm_sha256_p256 = ecdsa_secp256r1_sha256
signature_algorithm mls_256_dhkemp521_aes256gcm_sha512_p521 = ecdsa_secp521r1_sha512
signature_algorithm mls_256_dhkemx448_aes256gcm_sha512_ed448 = ed448
signature_algorithm mls_256_dhkemx448_chacha20poly1305_sha512_ed448 = ed448
signature_algorithm mls_256_dhkemp384_aes256gcm_sha384_p384 = ecdsa_secp384r1_sha384

abbrev pub aead_algorithm : Ciphersuite → AeadType
aead_algorithm mls_128_dhkemx25519_aes128gcm_sha256_ed25519 = aes_128_gcm
aead_algorithm mls_128_dhkemp256_aes128gcm_sha256_p256 = aes_128_gcm
aead_algorithm mls_128_dhkemx25519_chacha20poly1305_sha256_ed25519 = chacha20_poly1305
aead_algorithm mls_256_dhkemx448_chacha20poly1305_sha512_ed448 = chacha20_poly1305
aead_algorithm mls_256_dhkemx448_aes256gcm_sha512_ed448 = aes_256_gcm
aead_algorithm mls_256_dhkemp521_aes256gcm_sha512_p521 = aes_256_gcm
aead_algorithm mls_256_dhkemp384_aes256gcm_sha384_p384 = aes_256_gcm

abbrev pub hpke_kdf_algorithm : Ciphersuite → HpkeKdfType
hpke_kdf_algorithm mls_128_dhkemx25519_aes128gcm_sha256_ed25519 = hkdf_sha256
hpke_kdf_algorithm mls_128_dhkemp256_aes128gcm_sha256_p256 = hkdf_sha256
hpke_kdf_algorithm mls_128_dhkemx25519_chacha20poly1305_sha256_ed25519 = hkdf_sha256
hpke_kdf_algorithm mls_256_dhkemp384_aes256gcm_sha384_p384 = hkdf_sha384
hpke_kdf_algorithm mls_256_dhkemx448_aes256gcm_sha512_ed448 = hkdf_sha512
hpke_kdf_algorithm mls_256_dhkemp521_aes256gcm_sha512_p521 = hkdf_sha512
hpke_kdf_algorithm mls_256_dhkemx448_chacha20poly1305_sha512_ed448 = hkdf_sha512

abbrev pub hpke_kem_algorithm : Ciphersuite → HpkeKemType
hpke_kem_algorithm mls_128_dhkemx25519_aes128gcm_sha256_ed25519 = dhkem_25519
hpke_kem_algorithm mls_128_dhkemx25519_chacha20poly1305_sha256_ed25519 = dhkem_25519
hpke_kem_algorithm mls_128_dhkemp256_aes128gcm_sha256_p256 = dhkem_p256
hpke_kem_algorithm mls_256_dhkemx448_aes256gcm_sha512_ed448 = dhkem_448
hpke_kem_algorithm mls_256_dhkemx448_chacha20poly1305_sha512_ed448 = dhkem_448
hpke_kem_algorithm mls_256_dhkemp384_aes256gcm_sha384_p384 = dhkem_p384
hpke_kem_algorithm mls_256_dhkemp521_aes256gcm_sha512_p521 = dhkem_p521

abbrev pub hpke_aead_algorithm : Ciphersuite → HpkeAeadType
hpke_aead_algorithm mls_128_dhkemx25519_aes128gcm_sha256_ed25519 = aes_gcm128
hpke_aead_algorithm mls_128_dhkemp256_aes128gcm_sha256_p256 = aes_gcm128
hpke_aead_algorithm mls_128_dhkemx25519_chacha20poly1305_sha256_ed25519 = hpke_chacha20_poly1305
hpke_aead_algorithm mls_256_dhkemx448_chacha20poly1305_sha512_ed448 = hpke_chacha20_poly1305
hpke_aead_algorithm mls_256_dhkemx448_aes256gcm_sha512_ed448 = aes_gcm256
hpke_aead_algorithm mls_256_dhkemp384_aes256gcm_sha384_p384 = aes_gcm256
hpke_aead_algorithm mls_256_dhkemp521_aes256gcm_sha512_p521 = aes_gcm256

abbrev pub HpkeConfig : Type 0
HpkeConfig = HpkeKemType × HpkeKdfType × HpkeAeadType

abbrev pub hpke_config : Ciphersuite → HpkeConfig
hpke_config c = (hpke_kem_algorithm c, hpke_kdf_algorithm c, hpke_aead_algorithm c)

abbrev pub hash_length : Ciphersuite → ℕ
hash_length c = hash_size (hash_algorithm c)

abbrev pub mac_length : Ciphersuite → ℕ
mac_length c = tag_size (aead_algorithm c)

abbrev pub aead_key_length : Ciphersuite → ℕ
aead_key_length c = key_size (aead_algorithm c)

abbrev pub aead_nonce_length : Ciphersuite → ℕ
aead_nonce_length c = nonce_size (aead_algorithm c)

-- `From<Ciphersuite> for u16`
abbrev pub ciphersuite_value : Ciphersuite → ℕ
ciphersuite_value mls_128_dhkemx25519_aes128gcm_sha256_ed25519 = 0x0001
ciphersuite_value mls_128_dhkemp256_aes128gcm_sha256_p256 = 0x0002
ciphersuite_value mls_128_dhkemx25519_chacha20poly1305_sha256_ed25519 = 0x0003
ciphersuite_value mls_256_dhkemx448_aes256gcm_sha512_ed448 = 0x0004
ciphersuite_value mls_256_dhkemp521_aes256gcm_sha512_p521 = 0x0005
ciphersuite_value mls_256_dhkemx448_chacha20poly1305_sha512_ed448 = 0x0006
ciphersuite_value mls_256_dhkemp384_aes256gcm_sha384_p384 = 0x0007

-- `TryFrom<u16> for Ciphersuite`; the error carries only a message.
unfoldable pub ciphersuite_try_from : ℕ → Option Ciphersuite
ciphersuite_try_from v =
    if v == 0x0001
    then some mls_128_dhkemx25519_aes128gcm_sha256_ed25519
    else if v == 0x0002
    then some mls_128_dhkemp256_aes128gcm_sha256_p256
    else if v == 0x0003
    then some mls_128_dhkemx25519_chacha20poly1305_sha256_ed25519
    else if v == 0x0004
    then some mls_256_dhkemx448_aes256gcm_sha512_ed448
    else if v == 0x0005
    then some mls_256_dhkemp521_aes256gcm_sha512_p521
    else if v == 0x0006
    then some mls_256_dhkemx448_chacha20poly1305_sha512_ed448
    else if v == 0x0007
    then some mls_256_dhkemp384_aes256gcm_sha384_p384
    else none
