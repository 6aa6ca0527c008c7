-- ===== src/SenderRatchet/Agreement.antt =====
-- The sender's ratchet and a receiver's ratchet from one secret give the same keys.
use mls4rn.Prelude.{ℕ, zero, suc, ◌+◌, ◌≡◌, refl, sym, ◌∙◌, ap, List, arith}
use mls4rn.Prelude.{Result, ok, ◌>>=◌, >>=-eq-ok}
use mls4rn.Ciphersuite.{Ciphersuite}
use mls4rn.Secrets.{Secret, Provider}
use mls4rn.SenderRatchet.{
  SecretTreeError, RatchetSecret, RatchetKeyMaterial, Generation, SenderRatchetConfiguration,
  initial_ratchet_secret, ratchet_forward, secret_for_decryption,
}
use mls4rn.SenderRatchet.Chain.{
  OnChain, keys_at, secret_at, ratchet_forward-Steps, ratchet_forward-Computes,
}
use mls4rn.SenderRatchet.Once.{receiver, secret_for_decryption-of_chain}

module _ (p : Provider) (c : Ciphersuite) (s : Secret) where
  -- The sender's ratchet after `n` encryptions.
  abbrev pub encrypted : ℕ → RatchetSecret → Result SecretTreeError RatchetSecret
  encrypted zero r = ok r
  encrypted (suc n) r = ratchet_forward p c r >>= λ step. encrypted n step.0

  encrypted-OnChain :
      (n : ℕ) (r r' : RatchetSecret)
      → OnChain p c s r
      → encrypted n r ≡ ok r'
      → (OnChain p c s r') × (r'.generation ≡ r.generation + n)
  encrypted-OnChain zero r r' on e =
      let same : r ≡ r' = cc in (rw same at on, ap (λ x. x.generation) (sym same) ∙ omega arith)
  encrypted-OnChain (suc n) r r' on e =
      let ((head, g, keys), rest, done) =
        >>=-eq-ok (ratchet_forward p c r) (λ step. encrypted n step.0) e in
      let st = ratchet_forward-Steps p c s r head g keys on done in
      let (on', count) = encrypted-OnChain n head r' (st.follows) rest in
      (on', count ∙ omega (arith, st.next))

  -- A sender that has encrypted `n` messages encrypts the next one under generation `n`. A receiver
  -- that starts from the same secret and, after any calls, gets keys for that generation gets the
  -- sender's keys.
  pub sender_receiver_agree :
      (n : ℕ) (r r' : RatchetSecret) (g : Generation) (keys keys' : RatchetKeyMaterial)
      (cfg : SenderRatchetConfiguration) (calls : List (Generation × SenderRatchetConfiguration))
      → encrypted n (initial_ratchet_secret s) ≡ ok r
      → ratchet_forward p c r ≡ ok (r', g, keys)
      → (secret_for_decryption p c (receiver p c s calls) g cfg).1 ≡ ok keys'
      → (g ≡ n) × (keys' ≡ keys)
  unfolding secret_at
  sender_receiver_agree n r r' g keys keys' cfg calls sent next received =
      let start : OnChain p c s (initial_ratchet_secret s) = record {
        at_secret = refl;
        word = omega arith;
      } in
      let (on, count) = encrypted-OnChain n (initial_ratchet_secret s) r start sent in
      let number = (ratchet_forward-Computes p c r r' g keys next).number in
      let mine = (ratchet_forward-Steps p c s r r' g keys on next).derived in
      let yours = secret_for_decryption-of_chain p c s g cfg calls keys' received in
      let at_g : keys_at p c s g ≡ ok keys = ap (keys_at p c s) number ∙ mine in
      (omega (arith, number, count), cc)
