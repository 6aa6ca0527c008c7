-- ===== src/SenderRatchet/Delivery.antt =====
-- Out-of-order delivery: the keys of a skipped generation stay available in the window.
use mls4rn.Prelude.{suc, ◌+◌, ◌≤◌, ◌<◌, ◌≡◌, ◌≢◌, ◌∙◌, ap, List, [], ◌∷◌, ◌^◌}
use mls4rn.Prelude.{ok}
use mls4rn.Ciphersuite.{Ciphersuite}
use mls4rn.Secrets.{Secret, Provider}
use mls4rn.SenderRatchet.{
  decryption_ratchet, RatchetKeyMaterial, Generation, DecryptionRatchet, SenderRatchetConfiguration,
  take_entry, secret_for_decryption,
}
use mls4rn.SenderRatchet.Branches.{secret_for_decryption-behind}
use mls4rn.SenderRatchet.Chain.{keys_at}
use mls4rn.SenderRatchet.Once.{receiver, after_calls, after_calls-Window}
use mls4rn.SenderRatchet.Window.{decryption_ratchet-Window, Window, secret_for_decryption-Answers}
use mls4rn.SenderRatchet.Held.{Held}
use mls4rn.SenderRatchet.Skipped.{secret_for_decryption-Held, secret_for_decryption-skipped}

module _ (p : Provider) (c : Ciphersuite) (s : Secret) where
  -- Calls for other generations, all under one configuration.
  pub data Others (cfg : SenderRatchetConfiguration) (g : Generation)
      : List (Generation × SenderRatchetConfiguration) → Type 0 where
    none_left : Others cfg g []
    other :
        {g' : Generation} {calls : List (Generation × SenderRatchetConfiguration)}
        → g ≢ g'
        → Others cfg g calls
        → Others cfg g ((g', cfg) ∷ calls)

  after_calls-Held :
      (cfg : SenderRatchetConfiguration) (g : Generation) (r : DecryptionRatchet)
      (calls : List (Generation × SenderRatchetConfiguration))
      → Others cfg g calls
      → Window p c s r
      → Held cfg.out_of_order_tolerance g r
      → Held cfg.out_of_order_tolerance g (after_calls p c s r calls)
  after_calls-Held cfg g r [] none_left w he = he
  after_calls-Held cfg g r ((g', _) ∷ calls) (other ne rest) w he =
      after_calls-Held cfg g (secret_for_decryption p c r g' cfg).0 calls rest
        (secret_for_decryption-Answers p c s r g' cfg w).window
        (secret_for_decryption-Held p c s r g g' cfg ne w he)

  within_tolerance :
      (cfg : SenderRatchetConfiguration) (r : DecryptionRatchet) (g i : Generation)
      → Window p c s r
      → Held cfg.out_of_order_tolerance g r
      → g + suc i ≡ r.ratchet_head.generation
      → i < cfg.out_of_order_tolerance
      → i < 2 ^ 31
      → (keys : RatchetKeyMaterial) × ((secret_for_decryption p c r g cfg).1 ≡ ok keys)
        × (keys_at p c s g ≡ ok keys)
  within_tolerance cfg r g i w he near tol low =
      let (keys, held) = he.entry i near tol in
      let answer : (secret_for_decryption p c r g cfg).1 ≡ ok keys =
        ap (λ out. out.1)
          (secret_for_decryption-behind p c r g cfg i near tol low (w.on_chain.word)
            ∙ ap (take_entry p c r i) held) in
      (keys, answer, (secret_for_decryption-Answers p c s r g cfg w).right keys answer)

  -- On a new ratchet, after any calls, let a call for a generation succeed that is ahead of a
  -- generation `g` not yet reached: it skips `g`. After any further calls for other generations under
  -- the same configuration, as long as `g` is among the last `out_of_order_tolerance` generations (and
  -- the last 2 ^ 31) before the head, the call for `g` returns the keys that the chain has for `g`.
  pub out_of_order_delivery :
      (cfg : SenderRatchetConfiguration) (g g' i : Generation) (k : RatchetKeyMaterial)
      (before calls : List (Generation × SenderRatchetConfiguration))
      → (receiver p c s before).ratchet_head.generation ≤ g
      → g < g'
      → (secret_for_decryption p c (receiver p c s before) g' cfg).1 ≡ ok k
      → Others cfg g calls
      → g + suc i
        ≡ (after_calls p c s
            (secret_for_decryption p c (receiver p c s before) g' cfg).0
            calls).ratchet_head.generation
      → i < cfg.out_of_order_tolerance
      → i < 2 ^ 31
      → (keys : RatchetKeyMaterial) × ((secret_for_decryption p c
            (after_calls p c s (secret_for_decryption p c (receiver p c s before) g' cfg).0 calls)
            g
            cfg).1
          ≡ ok keys)
        × (keys_at p c s g ≡ ok keys)
  out_of_order_delivery cfg g g' i k before calls le lt e others near tol low =
      let r = receiver p c s before in
      let w =
        after_calls-Window p c s (decryption_ratchet s) before (decryption_ratchet-Window p c s) in
      let w' = (secret_for_decryption-Answers p c s r g' cfg w).window in
      within_tolerance cfg _ g i (after_calls-Window p c s _ calls w')
        (after_calls-Held cfg g _ calls others w'
          (secret_for_decryption-skipped p c s r g g' cfg k w le lt e))
        near tol low
