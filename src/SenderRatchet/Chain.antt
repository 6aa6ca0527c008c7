-- ===== src/SenderRatchet/Chain.antt =====
-- What a ratchet stands for: the chain of secrets from an initial one, and the keys of each
-- generation. One step of `ratchet_forward` follows the chain.
use mls4rn.Prelude.{zero, suc, ◌+◌, ◌≤◌, ◌≡◌, ◌≢◌, u32, u32_max, arith}
use mls4rn.Prelude.{Result, ok, ◌>>=◌, ok_or}
use mls4rn.Ciphersuite.{Ciphersuite, hash_length, aead_key_length, aead_nonce_length}
use mls4rn.Secrets.{Secret, Provider, codes}
use mls4rn.SenderRatchet.{
  SecretTreeError, panicked, RatchetSecret, RatchetKeyMaterial, Generation, key_from_secret,
  nonce_from_secret, derive_tree_secret, ratchet_forward,
}

module _ (p : Provider) (c : Ciphersuite) where
  unfoldable pub secret_at : Secret → Generation → Result SecretTreeError Secret
  secret_at s zero = ok s
  secret_at s (suc g) = do
    t ← secret_at s g
    derive_tree_secret p c t (codes "secret") g (hash_length c)

  unfoldable pub keys_of : Secret → Generation → Result SecretTreeError RatchetKeyMaterial
  keys_of t g = do
    nonce ← derive_tree_secret p c t (codes "nonce") g (aead_nonce_length c)
    key ← derive_tree_secret p c t (codes "key") g (aead_key_length c)
    n ← ok_or (nonce_from_secret nonce) panicked
    ok (key_from_secret key c, n)

  unfoldable pub keys_at : Secret → Generation → Result SecretTreeError RatchetKeyMaterial
  keys_at s g = secret_at s g >>= λ t. keys_of t g

  -- The ratchet stands at its generation of the chain from `s`.
  pub record OnChain (s : Secret) (r : RatchetSecret) : Type 0 where
    pub at_secret : secret_at s r.generation ≡ ok r.secret
    pub word : r.generation ≤ u32_max

  -- A successful step.
  pub record Steps (s : Secret) (r r' : RatchetSecret) (keys : RatchetKeyMaterial) : Type 0 where
    pub follows : OnChain s r'
    pub next : r'.generation ≡ suc r.generation
    pub derived : keys_at s r.generation ≡ ok keys

  -- What a successful call has computed.
  pub record Computes (r r' : RatchetSecret) (g : Generation) (keys : RatchetKeyMaterial)
      : Type 0 where
    pub before_end : r.generation ≢ u32_max
    pub number : g ≡ r.generation
    pub count : r'.generation ≡ u32 (r.generation + 1)
    pub secret :
        derive_tree_secret p c r.secret (codes "secret") r.generation (hash_length c) ≡ ok r'.secret
    pub keys_made : keys_of r.secret r.generation ≡ ok keys

  pub ratchet_forward-Computes :
      (r r' : RatchetSecret) (g : Generation) (keys : RatchetKeyMaterial)
      → ratchet_forward p c r ≡ ok (r', g, keys)
      → Computes r r' g keys
  unfolding ratchet_forward keys_of
  ratchet_forward-Computes r r' g keys e = ground arith

  pub ratchet_forward-Steps :
      (s : Secret) (r r' : RatchetSecret) (g : Generation) (keys : RatchetKeyMaterial)
      → OnChain s r
      → ratchet_forward p c r ≡ ok (r', g, keys)
      → Steps s r r' keys
  unfolding secret_at keys_at
  ratchet_forward-Steps s r r' g keys on e =
      let m = ratchet_forward-Computes r r' g keys e in
      let next : r'.generation ≡ suc r.generation = omega (arith, m.count, m.before_end, on.word) in
      record {
        follows = record {
          at_secret = rw (next, on.at_secret) m.secret;
          word = omega (arith, m.before_end, on.word, next);
        };
        next = next;
        derived = rw on.at_secret m.keys_made;
      }
