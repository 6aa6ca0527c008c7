-- ===== src/SenderRatchet/Progress.antt =====
-- With a provider that keeps to its documentation, a call ahead of the head succeeds; and the
-- generations that a sender's ratchet uses.
use mls4rn.Prelude.{
  ℕ, zero, suc, ◌+◌, ◌-◌, ◌*◌, ◌^◌, ◌≤◌, ◌<◌, ◌≡◌, refl, sym, ◌∙◌, u32, u32_max, none, some, [],
  ◌∷◌, ◌++◌, length, length-take, arith, ltb, false, true, ◌==◌, ≢→==, ≡→==, le→ltb,
}
use mls4rn.Prelude.{Result, ok, err}
use mls4rn.Ciphersuite.{
  Ciphersuite, mls_128_dhkemx25519_aes128gcm_sha256_ed25519, hash_algorithm, hash_length,
  aead_key_length, aead_nonce_length,
}
use mls4rn.Secrets.{
  non_empty, Secret, Bytes, Provider, codes, kdf_expand_label, expand, serialized_label,
}
use mls4rn.SenderRatchet.{
  from_crypto, SecretTreeError, RatchetSecret, RatchetKeyMaterial, Generation, DecryptionRatchet,
  SenderRatchetConfiguration, to_be_bytes, derive_tree_secret, ratchet_forward, skip_loop,
  take_head, then_take, secret_for_decryption, nonce_from_secret, key_from_secret,
}
use mls4rn.SenderRatchet.Chain.{ratchet_forward-Computes}
use mls4rn.SenderRatchet.Branches.{secret_for_decryption-ahead}
use mls4rn.Ciphersuite.Codes.{nonce_length}

-- RFC 5869: from a secret at least as long as a hash, the expansion gives the requested length, up to
-- 255 hashes. The TLS encoding of a label
-- fails only beyond the range of its length fields.
pub record Reliable (p : Provider) (c : Ciphersuite) : Type 0 where
  pub expands :
      (s info : Bytes) (len : ℕ)
      → hash_length c ≤ length s
      → len ≤ 255 * hash_length c
      → (k : Bytes) × (p.hkdf_expand (hash_algorithm c) s info len ≡ ok k) × (length k ≡ len)
  pub encodes :
      (len : ℕ) (label context : Bytes)
      → len < 2 ^ 16
      → length label < 2 ^ 30
      → length context < 2 ^ 30
      → (b : Bytes) × (p.serialize_label len label context ≡ some b)

hash_length_bounds : (c : Ciphersuite) → (0 < hash_length c) × (hash_length c ≤ 64)
hash_length_bounds mls_128_dhkemx25519_aes128gcm_sha256_ed25519 = (omega arith, omega arith)
hash_length_bounds c = (omega arith, omega arith)

key_length_bounds : (c : Ciphersuite) → (0 < aead_key_length c) × (aead_key_length c ≤ 64)
key_length_bounds mls_128_dhkemx25519_aes128gcm_sha256_ed25519 = (omega arith, omega arith)
key_length_bounds c = (omega arith, omega arith)

module _ (p : Provider) (c : Ciphersuite) (rel : Reliable p c) where
  derives :
      (s label : Bytes) (g len : ℕ)
      → hash_length c ≤ length s
      → length label < 2 ^ 29
      → 0 < len
      → len ≤ 64
      → (k : Secret) × (derive_tree_secret p c s label g len ≡ ok k) × (length k ≡ len)
  unfolding derive_tree_secret kdf_expand_label expand serialized_label
  derives s label g len long short pos small =
      let (b, encoded) =
        rel.encodes len (codes "MLS 1.0 " ++ label) (to_be_bytes g) (omega (arith, small))
          (omega (arith, short)) (omega arith) in
      let fits : len ≤ 255 * hash_length c = omega (arith, small, (hash_length_bounds c).0) in
      let (k, expanded, size) = rel.expands s b len long fits in
      let in_range : ltb (2 ^ 16 - 1) len ≡ false =
        le→ltb (2 ^ 16 - 1) len (omega (arith, small)) in
      rw (in_range, encoded, expanded) (made k size)
    where
      made :
          (k : Bytes)
          → length k ≡ len
          → (k' : Secret) × (from_crypto (non_empty p c k) ≡ ok k') × (length k' ≡ len)
      made [] size = absurd (omega (arith, size, pos))
      made (x ∷ xs) size = (x ∷ xs, refl, size)

  pub ratchet_forward-succeeds :
      (r : RatchetSecret)
      → hash_length c ≤ length r.secret
      → r.generation < u32_max
      → (r' : RatchetSecret) × (keys : RatchetKeyMaterial) × (ratchet_forward p c r
          ≡ ok (r', r.generation, keys))
        × (hash_length c ≤ length r'.secret)
  unfolding ratchet_forward nonce_from_secret
  ratchet_forward-succeeds r long lt =
      let (nonce, nonce_made, size) =
        derives r.secret (codes "nonce") r.generation (aead_nonce_length c) long (omega arith)
          (omega (arith, nonce_length c)) (omega (arith, nonce_length c)) in
      let (key, key_made, _) =
        derives r.secret (codes "key") r.generation (aead_key_length c) long (omega arith)
          (key_length_bounds c).0 (key_length_bounds c).1 in
      let (next, next_made, next_size) =
        derives r.secret (codes "secret") r.generation (hash_length c) long (omega arith)
          (hash_length_bounds c).0 (hash_length_bounds c).1 in
      let twelve : (length nonce == 12) ≡ true = ≡→== (length nonce) 12 (size ∙ nonce_length c) in
      let not_last : (r.generation == u32_max) ≡ false =
        ≢→== r.generation u32_max (λ e. omega (arith, e, lt)) in
      (
        record { secret = next; generation = u32 (r.generation + 1) },
        (key_from_secret key c, nonce),
        rw (not_last, nonce_made, key_made, next_made, twelve) refl,
        omega (arith, next_size),
      )

  skip_loop-succeeds :
      (n : ℕ) (r : DecryptionRatchet)
      → hash_length c ≤ length r.ratchet_head.secret
      → r.ratchet_head.generation + n ≤ u32_max
      → ((skip_loop p c n r).1 ≡ ok tt)
        × ((skip_loop p c n r).0.ratchet_head.generation ≡ r.ratchet_head.generation + n)
        × (hash_length c ≤ length (skip_loop p c n r).0.ratchet_head.secret)
  unfolding skip_loop
  skip_loop-succeeds zero r long room = (refl, omega arith, long)
  skip_loop-succeeds (suc n) r long room =
      let (head, keys, done, long') =
        ratchet_forward-succeeds r.ratchet_head long (omega (arith, room)) in
      let next =
        (ratchet_forward-Computes p c r.ratchet_head head r.ratchet_head.generation keys
          done).count in
      let (went, count, long'') =
        skip_loop-succeeds n
          (record { past_secrets = some keys ∷ r.past_secrets; ratchet_head = head }) long'
          (omega (arith, room, next)) in
      (
        rw (done, skip_loop) went,
        rw (done, skip_loop) (count ∙ omega (arith, room, next)),
        rw (done, skip_loop) long'',
      )

  -- What a successful call ahead of the head leaves: the head just after `g`, with a secret as long as a
  -- hash, and a window within the tolerance.
  pub record Reached (g : Generation) (cfg : SenderRatchetConfiguration)
      (out : DecryptionRatchet × Result SecretTreeError RatchetKeyMaterial) : Type 0 where
    pub keys : RatchetKeyMaterial
    pub returned : out.1 ≡ ok keys
    pub moved : out.0.ratchet_head.generation ≡ suc g
    pub long : hash_length c ≤ length out.0.ratchet_head.secret
    pub window_size : length out.0.past_secrets ≤ cfg.out_of_order_tolerance

  take_head-Reached :
      (cfg : SenderRatchetConfiguration) (r : DecryptionRatchet)
      → hash_length c ≤ length r.ratchet_head.secret
      → r.ratchet_head.generation < u32_max
      → Reached r.ratchet_head.generation cfg (take_head p c cfg r)
  unfolding take_head
  take_head-Reached cfg r long lt =
      let (head, keys, done, long') = ratchet_forward-succeeds r.ratchet_head long lt in
      let next =
        (ratchet_forward-Computes p c r.ratchet_head head r.ratchet_head.generation keys
          done).count in
      rw (done, take_head)
        (record {
          keys = keys;
          returned = refl;
          moved = omega (arith, next, lt);
          long = long';
          window_size =
              omega (arith, length-take cfg.out_of_order_tolerance (none ∷ r.past_secrets));
        })

  then_take-Reached :
      (cfg : SenderRatchetConfiguration) (g : ℕ)
      (out : DecryptionRatchet × Result SecretTreeError (Unit {0}))
      → out.1 ≡ ok tt
      → out.0.ratchet_head.generation ≡ g
      → hash_length c ≤ length out.0.ratchet_head.secret
      → g < u32_max
      → Reached g cfg (then_take p c cfg out)
  then_take-Reached cfg g (r, ok u) e at_g long lt =
      rw (sym at_g) (take_head-Reached cfg r long (omega (arith, at_g, lt)))
  then_take-Reached cfg g (r, err x) e at_g long lt = cc

  -- With a provider that keeps to its documentation and a secret no shorter than a hash, a call for a
  -- generation at or ahead of the head, by at most `maximum_forward_distance`, and below the last
  -- 32-bit value, returns keys; the head is then just after that generation, with a secret no shorter
  -- than a hash, and the window holds at most `out_of_order_tolerance` entries.
  pub secret_for_decryption-Reached :
      (r : DecryptionRatchet) (g : Generation) (cfg : SenderRatchetConfiguration)
      → hash_length c ≤ length r.ratchet_head.secret
      → r.ratchet_head.generation ≤ g
      → g ≤ r.ratchet_head.generation + cfg.maximum_forward_distance
      → g < u32_max
      → Reached g cfg (secret_for_decryption p c r g cfg)
  secret_for_decryption-Reached r g cfg long le near lt =
      let head = r.ratchet_head.generation in
      let (went, count, long') = skip_loop-succeeds (g - head) r long (omega (arith, le, lt)) in
      rw (secret_for_decryption-ahead p c r g cfg le near) (
        then_take-Reached cfg g (skip_loop p c (g - head) r) went (count ∙ omega (arith, le)) long'
          lt)
