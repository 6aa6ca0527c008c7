-- ===== src/SenderRatchet/Tests.antt =====
-- A provider for tests, and runs of the ratchets with it.
use mls4rn.Prelude.{
  ℕ, ◌+◌, ◌*◌, ◌%◌, ◌≡◌, ◌≢◌, ◌≤◌, length, ◌⊎◌, refl, [], ◌∷◌, ◌++◌, replicate, length-replicate,
  some, arith,
}
use mls4rn.Prelude.{ok, err}
use mls4rn.Ciphersuite.{Ciphersuite, hash_length, mls_128_dhkemx25519_aes128gcm_sha256_ed25519}
use mls4rn.Secrets.{Bytes, Secret, Provider, expand, serialized_label, kdf_expand_label}
use mls4rn.SenderRatchet.{
  decryption_ratchet, default_configuration, ratchet_forward, secret_for_decryption, skip_loop,
  take_head, derive_tree_secret, nonce_from_secret, window_index, secret_reuse_error,
  too_distant_in_the_future, RatchetSecret, RatchetKeyMaterial, initial_ratchet_secret,
}
use mls4rn.SenderRatchet.Progress.{
  Reliable, Reached, secret_for_decryption-Reached, ratchet_forward-succeeds,
}
use mls4rn.SenderRatchet.{too_distant_in_the_past}
use mls4rn.SenderRatchet.Refusals.{NotRefused, secret_for_decryption-refusals}
use mls4rn.Prelude.{u32_max, min, ◌⊎◌, ◌^◌, ◌<◌, ◌≤◌, ◌+◌}
use mls4rn.SenderRatchet.Chain.{keys_at, ratchet_forward-Computes}
use mls4rn.SenderRatchet.Once.{
  after_calls, receiver, secret_for_decryption-once, secret_for_decryption-of_chain,
}
use mls4rn.SenderRatchet.Complete.{receiver_under, keys_or_reuse}
use mls4rn.SenderRatchet.Delivery.{none_left, out_of_order_delivery}
use mls4rn.SenderRatchet.Agreement.{sender_receiver_agree}

-- Sums in place of hashes.
abbrev sum : Bytes → ℕ
sum [] = 7
sum (b ∷ bs) = (b + 3 * sum bs) % 256

abbrev pub toy : Provider
toy = record {
  hkdf_expand = λ h s info len. ok (replicate len ((sum s + sum info) % 256));
  hkdf_extract = λ h s ikm. ok (replicate 32 ((sum s + 5 * sum ikm) % 256));
  serialize_label = λ len label context. some (len % 256 ∷ label ++ context);
}

abbrev pub suite : Ciphersuite
suite = mls_128_dhkemx25519_aes128gcm_sha256_ed25519

abbrev pub seed : Secret
seed = replicate 32 1

pub toy-Reliable : Reliable toy suite
toy-Reliable = record {
  expands = λ s info len long fits. (_, refl, length-replicate len _);
  encodes = λ len label context a b c. (_, refl);
}

used_twice :
    (secret_for_decryption toy suite
      (secret_for_decryption toy suite (decryption_ratchet seed) 2 default_configuration).0
      2
      default_configuration).1
    ≡ err secret_reuse_error
unfolding secret_for_decryption skip_loop take_head ratchet_forward derive_tree_secret
    kdf_expand_label serialized_label expand nonce_from_secret window_index
used_twice = refl

abbrev forward_2 :
    Reached toy suite toy-Reliable 2 default_configuration
      (secret_for_decryption toy suite (decryption_ratchet seed) 2 default_configuration)
forward_2 =
    secret_for_decryption-Reached toy suite toy-Reliable (decryption_ratchet seed) 2
      default_configuration (omega arith) (omega arith) (omega arith) (omega arith)

secret_for_decryption-Reached_example :
    Reached toy suite toy-Reliable 2 default_configuration
      (secret_for_decryption toy suite (decryption_ratchet seed) 2 default_configuration)
secret_for_decryption-Reached_example =
    secret_for_decryption-Reached toy suite toy-Reliable (decryption_ratchet seed) 2
      default_configuration (omega arith) (omega arith) (omega arith) (omega arith)

secret_for_decryption-once_example :
    (secret_for_decryption toy suite
      (after_calls toy suite seed
        (secret_for_decryption toy suite (receiver toy suite seed []) 2 default_configuration).0
        ((5, default_configuration) ∷ []))
      2
      default_configuration).1
    ≢ ok forward_2.keys
secret_for_decryption-once_example =
    secret_for_decryption-once toy suite seed 2 default_configuration default_configuration []
      ((5, default_configuration) ∷ []) forward_2.keys forward_2.keys forward_2.returned

secret_for_decryption-of_chain_example : keys_at toy suite seed 2 ≡ ok forward_2.keys
secret_for_decryption-of_chain_example =
    secret_for_decryption-of_chain toy suite seed 2 default_configuration [] forward_2.keys
      forward_2.returned

out_of_order_delivery_example :
    (keys : RatchetKeyMaterial) × ((secret_for_decryption toy suite
        (secret_for_decryption toy suite (receiver toy suite seed []) 2 default_configuration).0
        1
        default_configuration).1
      ≡ ok keys)
    × (keys_at toy suite seed 1 ≡ ok keys)
out_of_order_delivery_example =
    out_of_order_delivery toy suite seed default_configuration 1 2 1 forward_2.keys [] []
      (omega arith) (omega arith) forward_2.returned none_left (omega (arith, forward_2.moved))
      (omega arith) (omega arith)

secret_for_decryption-refusals_example :
    ((1000 < u32_max)
      × (1000 < 1001)
      × (secret_for_decryption toy suite (decryption_ratchet seed) 1001 default_configuration
          ≡ (decryption_ratchet seed, err too_distant_in_the_future)))
    ⊎ ((1001 + min 5 (2 ^ 31) < 0)
        × (secret_for_decryption toy suite (decryption_ratchet seed) 1001 default_configuration
            ≡ (decryption_ratchet seed, err too_distant_in_the_past)))
    ⊎ (((1001 ≤ 1000) ⊎ (u32_max ≤ 1000))
        × (0 ≤ 1001 + min 5 (2 ^ 31))
        × NotRefused
            (secret_for_decryption toy suite
              (decryption_ratchet seed)
              1001
              default_configuration).1)
secret_for_decryption-refusals_example =
    secret_for_decryption-refusals toy suite (decryption_ratchet seed) 1001 default_configuration
      (omega arith)

-- A successful encryption: the next ratchet and the keys.
abbrev Sent : RatchetSecret → Type 0
Sent r =
    (r' : RatchetSecret) × (keys : RatchetKeyMaterial) × (ratchet_forward toy suite r
      ≡ ok (r', r.generation, keys))
    × (hash_length suite ≤ length r'.secret)

abbrev first_sent : Sent (initial_ratchet_secret seed)
first_sent =
    ratchet_forward-succeeds toy suite toy-Reliable (initial_ratchet_secret seed) (omega arith)
      (omega arith)

first_sent-count : first_sent.0.generation ≡ 1
first_sent-count =
    let m =
      ratchet_forward-Computes toy suite (initial_ratchet_secret seed) first_sent.0 0 first_sent.1
        first_sent.2 in
    omega (arith, m.count)

abbrev second_sent : Sent first_sent.0
second_sent =
    ratchet_forward-succeeds toy suite toy-Reliable first_sent.0 (first_sent.3)
      (omega (arith, first_sent-count))

abbrev forward_1 : Reached toy suite toy-Reliable first_sent.0.generation default_configuration (
    secret_for_decryption toy suite
      (receiver toy suite seed [])
      first_sent.0.generation
      default_configuration)
forward_1 =
    secret_for_decryption-Reached toy suite toy-Reliable (decryption_ratchet seed)
      first_sent.0.generation default_configuration (omega arith) (omega arith)
      (omega (arith, first_sent-count)) (omega (arith, first_sent-count))

sender_receiver_agree_example : (first_sent.0.generation ≡ 1) × (forward_1.keys ≡ second_sent.1)
sender_receiver_agree_example =
    sender_receiver_agree toy suite seed 1 first_sent.0 second_sent.0 first_sent.0.generation
      second_sent.1 forward_1.keys default_configuration [] (rw first_sent.2 refl) second_sent.2
      forward_1.returned

keys_or_reuse_example :
    ((keys : RatchetKeyMaterial) × ((secret_for_decryption toy suite
          (receiver_under toy suite seed default_configuration (2 ∷ []))
          1
          default_configuration).1
        ≡ ok keys)
      × (keys_at toy suite seed 1 ≡ ok keys))
    ⊎ (secret_for_decryption toy suite
          (receiver_under toy suite seed default_configuration (2 ∷ []))
          1
          default_configuration
        ≡ (receiver_under toy suite seed default_configuration (2 ∷ []), err secret_reuse_error))
keys_or_reuse_example =
    keys_or_reuse toy suite seed default_configuration (2 ∷ []) 1 1 (omega (arith, forward_2.moved))
      (omega arith) (omega arith)
