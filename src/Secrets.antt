-- ===== src/Secrets.antt =====
-- openmls/openmls/src/ciphersuite/secret.rs and kdf_label.rs: secrets, and the labelled expansion by
-- which all others are derived. The crypto provider and the TLS codec are parameters.
use mls4rn.Prelude.{
  ℕ, ◌^◌, ◌-◌, ltb, if◌then◌else◌, Option, none, some, List, [], ◌∷◌, ◌++◌, replicate,
}
use mls4rn.Prelude.{Result, ok, err, ◌>>=◌, ok_or}
use mls4rn.Ciphersuite.{Ciphersuite, HashType, hash_algorithm, hash_length}
use Prim.Native.Char.{code}
use Prim.Native.String.{String}

abbrev pub Bytes : Type 0
Bytes = List ℕ

abbrev pub codes : String → Bytes
codes String.[] = []
codes (String.◌∷◌ c s) = code c ∷ codes s

pub data CryptoError : Type 0 where
  crypto_library_error aead_decryption_error hpke_decryption_error hpke_encryption_error :
      CryptoError
  unsupported_signature_scheme kdf_label_too_large kdf_serialization_error
        hkdf_output_length_invalid :
      CryptoError
  insufficient_randomness invalid_signature unsupported_aead_algorithm unsupported_kdf : CryptoError
  invalid_length unsupported_hash_algorithm signature_encoding_error signature_decoding_error :
      CryptoError
  sender_setup_error receiver_setup_error exporter_error unsupported_ciphersuite
        tls_serialization_error :
      CryptoError
  too_much_data signing_error invalid_public_key : CryptoError

-- What is called and not implemented here: `OpenMlsCrypto::hkdf_expand` and `hkdf_extract`, and the
-- TLS encoding of a `KdfLabel` from its length, label and context.
pub record Provider : Type 0 where
  pub hkdf_expand : HashType → Bytes → Bytes → ℕ → Result CryptoError Bytes
  pub hkdf_extract : HashType → Bytes → Bytes → Result CryptoError Bytes
  pub serialize_label : ℕ → Bytes → Bytes → Option Bytes

abbrev pub Secret : Type 0
Secret = Bytes

-- `Secret::zero`
abbrev pub zero_secret : Ciphersuite → Secret
zero_secret c = replicate (hash_length c) 0

module _ (p : Provider) (c : Ciphersuite) where
  -- `Secret::hkdf_extract`; the secret is the salt.
  unfoldable pub extract : Secret → Option Secret → Result CryptoError Secret
  extract s none = p.hkdf_extract (hash_algorithm c) s (zero_secret c)
  extract s (some ikm) = p.hkdf_extract (hash_algorithm c) s ikm

  abbrev pub non_empty : Bytes → Result CryptoError Secret
  non_empty [] = err invalid_length
  non_empty (b ∷ bs) = ok (b ∷ bs)

  abbrev as_library_error : Result CryptoError Bytes → Result CryptoError Bytes
  as_library_error (ok k) = ok k
  as_library_error (err e) = err crypto_library_error

  -- `Secret::hkdf_expand`
  unfoldable pub expand : Secret → Bytes → ℕ → Result CryptoError Secret
  expand s info len = as_library_error (p.hkdf_expand (hash_algorithm c) s info len) >>= non_empty

  -- `KdfLabel::serialized_label`
  unfoldable pub serialized_label : Bytes → Bytes → ℕ → Result CryptoError Bytes
  serialized_label context label len =
      if ltb (2 ^ 16 - 1) len
      then err kdf_label_too_large
      else ok_or (p.serialize_label len label context) kdf_serialization_error

  unfoldable pub kdf_expand_label : Secret → Bytes → Bytes → ℕ → Result CryptoError Secret
  kdf_expand_label s label context len = do
    info ← serialized_label context (codes "MLS 1.0 " ++ label) len
    expand s info len

  unfoldable pub derive_secret : Secret → Bytes → Result CryptoError Secret
  derive_secret s label = kdf_expand_label s label [] (hash_length c)
