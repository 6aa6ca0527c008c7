-- ===== src/SenderRatchet/Skipped.antt =====
-- The generations that a call skips are held, and stay held under calls for others.
use mls4rn.Prelude.{
  ℕ, zero, suc, ◌+◌, ◌-◌, ◌≤◌, ◌<◌, ◌≡◌, ◌≢◌, refl, ap, inl, inr, Option, none, some, get_elem?,
  arith, ◌==◌, ==→≡, ==→≢, Bool-cases, Option-cases,
}
use mls4rn.Prelude.{Result, ok, err, Result-cases}
use mls4rn.Ciphersuite.{Ciphersuite}
use mls4rn.Secrets.{Secret, Provider}
use mls4rn.SenderRatchet.{
  SecretTreeError, RatchetKeyMaterial, Generation, DecryptionRatchet, SenderRatchetConfiguration,
  ratchet_forward, skip_loop, take_head, then_take, take_past, take_entry, secret_for_decryption,
  window_index,
}
use mls4rn.SenderRatchet.Branches.{secret_for_decryption-elim, window_index_lem}
use mls4rn.SenderRatchet.Chain.{ratchet_forward-Steps}
use mls4rn.SenderRatchet.Window.{Window, push-Window, skip_loop-Window}
use mls4rn.SenderRatchet.Held.{Held, push-Held, skipped-Held, take-Held, clear-Held}

module _ (p : Provider) (c : Ciphersuite) (s : Secret) where
  skip_loop-Held :
      (n tolerance g : ℕ) (r : DecryptionRatchet)
      → Window p c s r
      → Held tolerance g r
      → Held tolerance g (skip_loop p c n r).0
  unfolding skip_loop
  skip_loop-Held zero tolerance g r w he = he
  skip_loop-Held (suc n) tolerance g r w he =
      elim (Result-cases (ratchet_forward p c r.ratchet_head)) [
        | inr (x, failed) ↦ rw (failed, skip_loop) he
        | inl ((head, g', keys), done) ↦
            let st = ratchet_forward-Steps p c s r.ratchet_head head g' keys w.on_chain done in
            rw (done, skip_loop)
              (skip_loop-Held n tolerance g _
                (push-Window p c s r w head keys st (some keys) (λ k e. cc))
                (push-Held tolerance g r head (some keys) st.next he))
      ]

  -- The generations that a successful loop skips.
  skip_loop-skipped :
      (n tolerance g : ℕ) (r : DecryptionRatchet)
      → Window p c s r
      → (skip_loop p c n r).1 ≡ ok tt
      → r.ratchet_head.generation ≤ g
      → g < r.ratchet_head.generation + n
      → Held tolerance g (skip_loop p c n r).0
  unfolding skip_loop
  skip_loop-skipped zero tolerance g r w e le lt = absurd (omega (arith, le, lt))
  skip_loop-skipped (suc n) tolerance g r w e le lt =
      elim (Result-cases (ratchet_forward p c r.ratchet_head)) [
        | inr (x, failed) ↦ let bad : err x ≡ ok tt = rw (failed, skip_loop) at e in cc
        | inl ((head, g', keys), done) ↦
            let st = ratchet_forward-Steps p c s r.ratchet_head head g' keys w.on_chain done in
            let w' = push-Window p c s r w head keys st (some keys) (λ k e. cc) in
            elim (Bool-cases (g == r.ratchet_head.generation)) [
              | inl h ↦
                  rw (done, skip_loop, ==→≡ g r.ratchet_head.generation h)
                    (skip_loop-Held n tolerance _ _ w' (skipped-Held tolerance r head keys st.next))
              | inr h ↦
                  rw (done, skip_loop)
                    (skip_loop-skipped n tolerance g _ w' (rw (done, skip_loop) at e)
                      (omega (arith, le, ==→≢ g r.ratchet_head.generation h, st.next))
                      (omega (arith, lt, st.next)))
            ]
      ]

  take_head-Held :
      (cfg : SenderRatchetConfiguration) (g : ℕ) (r : DecryptionRatchet)
      → Window p c s r
      → Held cfg.out_of_order_tolerance g r
      → Held cfg.out_of_order_tolerance g (take_head p c cfg r).0
  unfolding take_head
  take_head-Held cfg g r w he = elim (Result-cases (ratchet_forward p c r.ratchet_head)) [
    | inr (x, failed) ↦ rw (failed, take_head) he
    | inl ((head, g', keys), done) ↦
        let st = ratchet_forward-Steps p c s r.ratchet_head head g' keys w.on_chain done in
        rw (done, take_head)
          (take-Held cfg.out_of_order_tolerance g _
            (push-Held cfg.out_of_order_tolerance g r head none st.next he))
  ]

  then_take-Held :
      (cfg : SenderRatchetConfiguration) (g : ℕ)
      (out : DecryptionRatchet × Result SecretTreeError (Unit {0}))
      → Window p c s out.0
      → Held cfg.out_of_order_tolerance g out.0
      → Held cfg.out_of_order_tolerance g (then_take p c cfg out).0
  then_take-Held cfg g (r, ok u) w he = take_head-Held cfg g r w he
  then_take-Held cfg g (r, err e) w he = he

  take_past-Held :
      (tolerance g g' : ℕ) (r : DecryptionRatchet)
      → g ≢ g'
      → Window p c s r
      → g' < r.ratchet_head.generation
      → Held tolerance g r
      → Held tolerance g (take_past p c r (window_index r.ratchet_head.generation g')).0
  take_past-Held tolerance g g' r ne w lt he =
      elim (Option-cases (window_index r.ratchet_head.generation g')) [
        | inl blank ↦ rw blank he
        | inr (i, found) ↦ rw found (
            held i (window_index_lem _ g' i lt (w.on_chain.word) found)
              (get_elem? r.past_secrets i))
      ]
    where
      held :
          (i : ℕ)
          → g' + suc i ≡ r.ratchet_head.generation
          → (entry : Option (Option RatchetKeyMaterial))
          → Held tolerance g (take_entry p c r i entry).0
      held i place none = he
      held i place (some none) = he
      held i place (some (some keys)) = clear-Held tolerance g g' i r place ne he

  pub secret_for_decryption-Held :
      (r : DecryptionRatchet) (g g' : Generation) (cfg : SenderRatchetConfiguration)
      → g ≢ g'
      → Window p c s r
      → Held cfg.out_of_order_tolerance g r
      → Held cfg.out_of_order_tolerance g (secret_for_decryption p c r g' cfg).0
  secret_for_decryption-Held r g g' cfg ne w he =
      secret_for_decryption-elim p c r g' cfg (λ out. Held cfg.out_of_order_tolerance g out.0)
        (λ e. he)
        (λ h.
          then_take-Held cfg g _ (skip_loop-Window p c s _ r w)
            (skip_loop-Held (g' - r.ratchet_head.generation) cfg.out_of_order_tolerance g r w he))
        (λ h. take_past-Held cfg.out_of_order_tolerance g g' r ne w h he)

  then_take-skipped :
      (cfg : SenderRatchetConfiguration) (n g : ℕ) (r : DecryptionRatchet) (k : RatchetKeyMaterial)
      (out : DecryptionRatchet × Result SecretTreeError (Unit {0}))
      → skip_loop p c n r ≡ out
      → Window p c s r
      → (then_take p c cfg out).1 ≡ ok k
      → r.ratchet_head.generation ≤ g
      → g < r.ratchet_head.generation + n
      → Held cfg.out_of_order_tolerance g (then_take p c cfg out).0
  then_take-skipped cfg n g r k (r', ok u) m w e le lt =
      take_head-Held cfg g r' (rw m at (skip_loop-Window p c s n r w))
        (rw m at (skip_loop-skipped n cfg.out_of_order_tolerance g r w (ap (λ out. out.1) m) le lt))
  then_take-skipped cfg n g r k (r', err x) m w e le lt = cc

  pub secret_for_decryption-skipped :
      (r : DecryptionRatchet) (g g' : Generation) (cfg : SenderRatchetConfiguration)
      (k : RatchetKeyMaterial)
      → Window p c s r
      → r.ratchet_head.generation ≤ g
      → g < g'
      → (secret_for_decryption p c r g' cfg).1 ≡ ok k
      → Held cfg.out_of_order_tolerance g (secret_for_decryption p c r g' cfg).0
  secret_for_decryption-skipped r g g' cfg k w le lt =
      secret_for_decryption-elim p c r g' cfg
        (λ out. out.1 ≡ ok k → Held cfg.out_of_order_tolerance g out.0) (λ e x. cc)
        (λ h x.
          then_take-skipped cfg (g' - r.ratchet_head.generation) g r k _ refl w x le
            (omega (arith, le, lt, h)))
        (λ h x. absurd (omega (arith, h, le, lt)))
