-- ===== src/SenderRatchet.antt =====
-- openmls/openmls/src/tree/sender_ratchet.rs: the ratchets that give each message its key and nonce.
-- A method returns the new state beside its result, since an error may leave a changed state.
pub mod Branches
pub mod Refusals
pub mod Chain
pub mod Window
pub mod Spent
pub mod Once
pub mod Held
pub mod Skipped
pub mod Delivery
pub mod Complete
pub mod Progress
pub mod Agreement
pub mod Tests
use mls4rn.Prelude.{
  ℕ, zero, suc, ◌+◌, ◌-◌, ◌/◌, ◌%◌, ◌^◌, Bool, ◌&&◌, ltb, leb, ◌==◌, if◌then◌else◌, u32, u32_max,
  Option, none, some, List, [], ◌∷◌, ◌++◌, length, get_elem?, set, take,
}
use mls4rn.Prelude.{Result, ok, err, ◌>>=◌, ok_or}
use mls4rn.Ciphersuite.{
  Ciphersuite, AeadType, aead_algorithm, hash_length, aead_key_length, aead_nonce_length,
}
use mls4rn.Secrets.{Bytes, Secret, CryptoError, Provider, kdf_expand_label, codes}

abbrev pub Generation : Type 0
Generation = ℕ

-- `SecretTreeError`, of secret_tree.rs; `panicked` is the model's own.
pub data SecretTreeError : Type 0 where
  too_distant_in_the_past too_distant_in_the_future index_out_of_bounds : SecretTreeError
  secret_reuse_error ratchet_type_error ratchet_too_long library_error codec_error : SecretTreeError
  crypto_error : CryptoError → SecretTreeError
  panicked : SecretTreeError

pub record SenderRatchetConfiguration : Type 0 where
  pub out_of_order_tolerance : Generation
  pub maximum_forward_distance : Generation

-- `SenderRatchetConfiguration::default`
abbrev pub default_configuration : SenderRatchetConfiguration
default_configuration = record { out_of_order_tolerance = 5; maximum_forward_distance = 1000 }

-- `AeadKey` and `AeadNonce`, of ciphersuite/aead.rs.
pub record AeadKey : Type 0 where
  pub aead_mode : AeadType
  pub value : Bytes

abbrev pub AeadNonce : Type 0
AeadNonce = Bytes

abbrev pub RatchetKeyMaterial : Type 0
RatchetKeyMaterial = AeadKey × AeadNonce

abbrev pub key_from_secret : Secret → Ciphersuite → AeadKey
key_from_secret s c = record { aead_mode = aead_algorithm c; value = s }

-- `clone_from_slice` panics unless the secret has the 12 bytes of a nonce.
unfoldable pub nonce_from_secret : Secret → Option AeadNonce
nonce_from_secret s = if length s == 12 then some s else none

pub record RatchetSecret : Type 0 where
  pub secret : Secret
  pub generation : Generation

abbrev pub initial_ratchet_secret : Secret → RatchetSecret
initial_ratchet_secret s = record { secret = s; generation = 0 }

pub record DecryptionRatchet : Type 0 where
  pub past_secrets : List (Option RatchetKeyMaterial)
  pub ratchet_head : RatchetSecret

-- `DecryptionRatchet::new`
abbrev pub decryption_ratchet : Secret → DecryptionRatchet
decryption_ratchet s = record { past_secrets = []; ratchet_head = initial_ratchet_secret s }

-- `SenderRatchet`.
pub data SenderRatchet : Type 0 where
  encryption : RatchetSecret → SenderRatchet
  decryption : DecryptionRatchet → SenderRatchet

abbrev pub sender_ratchet_generation : SenderRatchet → Generation
sender_ratchet_generation (encryption r) = r.generation
sender_ratchet_generation (decryption r) = r.ratchet_head.generation

-- `u32::to_be_bytes`
abbrev pub to_be_bytes : ℕ → Bytes
to_be_bytes n = n / 2 ^ 24 % 256 ∷ n / 2 ^ 16 % 256 ∷ n / 2 ^ 8 % 256 ∷ n % 256 ∷ []

abbrev pub from_crypto {ℓ} : {A : Type ℓ} → Result CryptoError A → Result SecretTreeError A
from_crypto (ok a) = ok a
from_crypto (err e) = err (crypto_error e)

-- `(head_generation - generation) as i32 - 1`, as a pattern of 32 bits: the index, if the sign bit
-- is 0.
unfoldable pub window_index : Generation → Generation → Option ℕ
window_index head g =
    let w = (u32 (head + 2 ^ 32 - g) + 2 ^ 32 - 1) % 2 ^ 32 in
    if ltb w (2 ^ 31) then some w else none

module _ (p : Provider) (c : Ciphersuite) where
  -- `derive_tree_secret`, of secret_tree.rs.
  unfoldable pub derive_tree_secret :
      Secret → Bytes → Generation → ℕ → Result SecretTreeError Secret
  derive_tree_secret s label g len = from_crypto (kdf_expand_label p c s label (to_be_bytes g) len)

  -- `derive_child_secrets`, of secret_tree.rs.
  unfoldable pub derive_child_secrets : Secret → Result CryptoError (Secret × Secret)
  derive_child_secrets s = do
    left ← kdf_expand_label p c s (codes "tree") (codes "left") (hash_length c)
    right ← kdf_expand_label p c s (codes "tree") (codes "right") (hash_length c)
    ok (left, right)

  -- The state is written only where all derivations have succeeded. The source writes it just before
  -- the conversion of the nonce, which may panic; the state behind a panic is not followed.
  unfoldable pub ratchet_forward :
      RatchetSecret → Result SecretTreeError (RatchetSecret × Generation × RatchetKeyMaterial)
  ratchet_forward r = if r.generation == u32_max then err ratchet_too_long else do
    nonce ← derive_tree_secret r.secret (codes "nonce") r.generation (aead_nonce_length c)
    key ← derive_tree_secret r.secret (codes "key") r.generation (aead_key_length c)
    next ← derive_tree_secret r.secret (codes "secret") r.generation (hash_length c)
    n ← ok_or (nonce_from_secret nonce) panicked
    ok (
      record { secret = next; generation = u32 (r.generation + 1) },
      r.generation,
      (key_from_secret key c, n),
    )

  -- The `for` loop over the generations to skip; an error leaves what was pushed so far.
  unfoldable pub skip_loop :
      ℕ → DecryptionRatchet → DecryptionRatchet × Result SecretTreeError (Unit {0})
  skip_loop zero r = (r, ok tt)
  skip_loop (suc n) r = elim (ratchet_forward r.ratchet_head) [
    | err e ↦ (r, err e)
    | ok (head, g, keys) ↦
        skip_loop n (record { past_secrets = some keys ∷ r.past_secrets; ratchet_head = head })
  ]

  -- The step after the loop: the requested keys, and a blank in their place.
  unfoldable pub take_head :
      SenderRatchetConfiguration
      → DecryptionRatchet
      → DecryptionRatchet × Result SecretTreeError RatchetKeyMaterial
  take_head cfg r = elim (ratchet_forward r.ratchet_head) [
    | err e ↦ (r, err e)
    | ok (head, g, keys) ↦ (
      record {
        past_secrets = take cfg.out_of_order_tolerance (none ∷ r.past_secrets);
        ratchet_head = head;
      },
      ok keys,
    )
  ]

  abbrev then_take :
      SenderRatchetConfiguration
      → DecryptionRatchet × Result SecretTreeError (Unit {0})
      → DecryptionRatchet × Result SecretTreeError RatchetKeyMaterial
  then_take cfg (r, ok u) = take_head cfg r
  then_take cfg (r, err e) = (r, err e)

  -- `get_mut(index)` and `take` on the window.
  abbrev take_entry :
      DecryptionRatchet
      → ℕ
      → Option (Option RatchetKeyMaterial)
      → DecryptionRatchet × Result SecretTreeError RatchetKeyMaterial
  take_entry r i none = (r, err index_out_of_bounds)
  take_entry r i (some none) = (r, err secret_reuse_error)
  take_entry r i (some (some keys)) =
      (record r { past_secrets = set r.past_secrets i none }, ok keys)

  abbrev take_past :
      DecryptionRatchet → Option ℕ → DecryptionRatchet × Result SecretTreeError RatchetKeyMaterial
  take_past r none = (r, err too_distant_in_the_past)
  take_past r (some i) = take_entry r i (get_elem? r.past_secrets i)

  -- `DecryptionRatchet::secret_for_decryption`
  unfoldable pub secret_for_decryption :
      DecryptionRatchet
      → Generation
      → SenderRatchetConfiguration
      → DecryptionRatchet × Result SecretTreeError RatchetKeyMaterial
  secret_for_decryption r g cfg =
      let head = r.ratchet_head.generation in
      let far = cfg.maximum_forward_distance in
      if ltb head (u32_max - far) && ltb (u32 (head + far)) g
      then (r, err too_distant_in_the_future)
      else if ltb g head && ltb cfg.out_of_order_tolerance (head - g)
      then (r, err too_distant_in_the_past)
      else if leb head g
      then then_take cfg (skip_loop (g - head) r)
      else take_past r (window_index head g)
