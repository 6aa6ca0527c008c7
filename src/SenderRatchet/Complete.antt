-- ===== src/SenderRatchet/Complete.antt =====
-- Under one configuration, the window has an entry for every generation within the tolerance.
use mls4rn.Prelude.{
  ℕ, zero, suc, ◌+◌, ◌-◌, ◌^◌, ◌≤◌, ◌<◌, ◌≡◌, refl, ◌⊎◌, inl, inr, min, Option, none, some, List,
  [], ◌∷◌, map, length, get_elem?, get_elem?-some, arith, length-take, length-set,
}
use mls4rn.Prelude.{Result, ok, err, Result-cases}
use mls4rn.Ciphersuite.{Ciphersuite}
use mls4rn.Secrets.{Secret, Provider}
use mls4rn.SenderRatchet.{
  SecretTreeError, secret_reuse_error, RatchetKeyMaterial, Generation, DecryptionRatchet,
  SenderRatchetConfiguration, decryption_ratchet, ratchet_forward, skip_loop, take_head, then_take,
  take_past, take_entry, secret_for_decryption, window_index,
}
use mls4rn.SenderRatchet.Branches.{secret_for_decryption-elim, secret_for_decryption-behind}
use mls4rn.SenderRatchet.Chain.{keys_at, ratchet_forward-Steps}
use mls4rn.SenderRatchet.Once.{receiver, after_calls, after_calls-Window}
use mls4rn.SenderRatchet.Window.{
  Window, decryption_ratchet-Window, push-Window, skip_loop-Window, secret_for_decryption-Answers,
}

-- As many entries as generations behind the head, up to the tolerance.
abbrev IsFilled : ℕ → DecryptionRatchet → Type 0
IsFilled tolerance r = min tolerance r.ratchet_head.generation ≤ length r.past_secrets

module _ (p : Provider) (c : Ciphersuite) (s : Secret) (cfg : SenderRatchetConfiguration) where
  skip_loop-IsFilled :
      (n : ℕ) (r : DecryptionRatchet)
      → Window p c s r
      → IsFilled cfg.out_of_order_tolerance r
      → IsFilled cfg.out_of_order_tolerance (skip_loop p c n r).0
  unfolding skip_loop
  skip_loop-IsFilled zero r w f = f
  skip_loop-IsFilled (suc n) r w f = elim (Result-cases (ratchet_forward p c r.ratchet_head)) [
    | inr (x, failed) ↦ rw (failed, skip_loop) f
    | inl ((head, g, keys), done) ↦
        let st = ratchet_forward-Steps p c s r.ratchet_head head g keys w.on_chain done in
        rw (done, skip_loop)
          (skip_loop-IsFilled n _ (push-Window p c s r w head keys st (some keys) (λ k e. cc))
            (omega (arith, f, st.next)))
  ]

  take_head-IsFilled :
      (r : DecryptionRatchet)
      → Window p c s r
      → IsFilled cfg.out_of_order_tolerance r
      → IsFilled cfg.out_of_order_tolerance (take_head p c cfg r).0
  unfolding take_head
  take_head-IsFilled r w f = elim (Result-cases (ratchet_forward p c r.ratchet_head)) [
    | inr (x, failed) ↦ rw (failed, take_head) f
    | inl ((head, g, keys), done) ↦
        let st = ratchet_forward-Steps p c s r.ratchet_head head g keys w.on_chain done in
        rw (done, take_head)
          (omega
            (arith, f, st.next, length-take cfg.out_of_order_tolerance (none ∷ r.past_secrets)))
  ]

  then_take-IsFilled :
      (out : DecryptionRatchet × Result SecretTreeError (Unit {0}))
      → Window p c s out.0
      → IsFilled cfg.out_of_order_tolerance out.0
      → IsFilled cfg.out_of_order_tolerance (then_take p c cfg out).0
  then_take-IsFilled (r, ok u) w f = take_head-IsFilled r w f
  then_take-IsFilled (r, err e) w f = f

  take_past-IsFilled :
      (r : DecryptionRatchet) (i : Option ℕ)
      → IsFilled cfg.out_of_order_tolerance r
      → IsFilled cfg.out_of_order_tolerance (take_past p c r i).0
  take_past-IsFilled r none f = f
  take_past-IsFilled r (some i) f = filled (get_elem? r.past_secrets i)
    where
      filled :
          (entry : Option (Option RatchetKeyMaterial))
          → IsFilled cfg.out_of_order_tolerance (take_entry p c r i entry).0
      filled none = f
      filled (some none) = f
      filled (some (some keys)) = omega (arith, f, length-set r.past_secrets i none)

  secret_for_decryption-IsFilled :
      (r : DecryptionRatchet) (g : Generation)
      → Window p c s r
      → IsFilled cfg.out_of_order_tolerance r
      → IsFilled cfg.out_of_order_tolerance (secret_for_decryption p c r g cfg).0
  secret_for_decryption-IsFilled r g w f =
      secret_for_decryption-elim p c r g cfg (λ out. IsFilled cfg.out_of_order_tolerance out.0)
        (λ e. f)
        (λ h.
          then_take-IsFilled _ (skip_loop-Window p c s _ r w)
            (skip_loop-IsFilled (g - r.ratchet_head.generation) r w f))
        (λ h. take_past-IsFilled r (window_index r.ratchet_head.generation g) f)

  -- A new ratchet after calls for the generations, all under the configuration.
  abbrev pub receiver_under : List Generation → DecryptionRatchet
  receiver_under gs = receiver p c s (map (λ g. (g, cfg)) gs)

  after_calls-IsFilled :
      (r : DecryptionRatchet) (gs : List Generation)
      → Window p c s r
      → IsFilled cfg.out_of_order_tolerance r
      → IsFilled cfg.out_of_order_tolerance (after_calls p c s r (map (λ g. (g, cfg)) gs))
  after_calls-IsFilled r [] w f = f
  after_calls-IsFilled r (g ∷ gs) w f =
      after_calls-IsFilled (secret_for_decryption p c r g cfg).0 gs
        (secret_for_decryption-Answers p c s r g cfg w).window
        (secret_for_decryption-IsFilled r g w f)

  entry_outcome :
      (r : DecryptionRatchet) (i g : ℕ) (entry : Option RatchetKeyMaterial)
      → Window p c s r
      → g + suc i ≡ r.ratchet_head.generation
      → get_elem? r.past_secrets i ≡ some entry
      → ((keys : RatchetKeyMaterial) × ((take_entry p c r i (some entry)).1 ≡ ok keys)
          × (keys_at p c s g ≡ ok keys))
        ⊎ (take_entry p c r i (some entry) ≡ (r, err secret_reuse_error))
  entry_outcome r i g none w e m = inr refl
  entry_outcome r i g (some keys) w e m = inl (keys, refl, w.kept i g keys e m)

  -- On a new ratchet, after any calls under one configuration: a call for a generation behind the head,
  -- within `out_of_order_tolerance` and within 2 ^ 31, either returns the keys that the chain has for the
  -- generation, or is refused with `secret_reuse_error` and leaves the ratchet as it is.
  pub keys_or_reuse :
      (gs : List Generation) (g i : Generation)
      → g + suc i ≡ (receiver_under gs).ratchet_head.generation
      → i < cfg.out_of_order_tolerance
      → i < 2 ^ 31
      → ((keys : RatchetKeyMaterial) × ((secret_for_decryption p c (receiver_under gs) g cfg).1
            ≡ ok keys)
          × (keys_at p c s g ≡ ok keys))
        ⊎ (secret_for_decryption p c (receiver_under gs) g cfg
            ≡ (receiver_under gs, err secret_reuse_error))
  keys_or_reuse gs g i near tol low =
      let r = receiver_under gs in
      let w =
        after_calls-Window p c s _ (map (λ g. (g, cfg)) gs) (decryption_ratchet-Window p c s) in
      let f =
        after_calls-IsFilled (decryption_ratchet s) gs (decryption_ratchet-Window p c s)
          (omega arith) in
      let (entry, m) = get_elem?-some r.past_secrets i (omega (arith, f, near, tol)) in
      rw (secret_for_decryption-behind p c r g cfg i near tol low (w.on_chain.word), m)
        (entry_outcome r i g entry w near m)
