-- ===== src/SenderRatchet/Once.antt =====
-- The keys of a generation leave a `DecryptionRatchet` at most once.
use mls4rn.Prelude.{
  ℕ, zero, suc, ◌+◌, ◌-◌, ◌<◌, ◌≡◌, ◌≢◌, refl, sym, ◌∙◌, inl, inr, Option, none, some, List, [],
  ◌∷◌, get_elem?, arith, Option-cases,
}
use mls4rn.Prelude.{Result, ok, err, Result-cases}
use mls4rn.Ciphersuite.{Ciphersuite}
use mls4rn.Secrets.{Secret, Provider}
use mls4rn.SenderRatchet.{
  SecretTreeError, RatchetKeyMaterial, Generation, DecryptionRatchet, SenderRatchetConfiguration,
  decryption_ratchet, ratchet_forward, skip_loop, take_head, then_take, take_past, take_entry,
  secret_for_decryption, window_index,
}
use mls4rn.SenderRatchet.Branches.{secret_for_decryption-elim, window_index_lem}
use mls4rn.SenderRatchet.Chain.{keys_at, ratchet_forward-Steps}
use mls4rn.SenderRatchet.Window.{
  Window, decryption_ratchet-Window, push-Window, skip_loop-Window, skip_loop-count,
  secret_for_decryption-Answers,
}
use mls4rn.SenderRatchet.Spent.{
  Spent, push-Spent, take-Spent, clear-Spent, cleared-Spent, pushed-Spent,
}

module _ (p : Provider) (c : Ciphersuite) (s : Secret) where
  skip_loop-Spent :
      (n g : ℕ) (r : DecryptionRatchet) → Window p c s r → Spent g r → Spent g (skip_loop p c n r).0
  unfolding skip_loop
  skip_loop-Spent zero g r w sp = sp
  skip_loop-Spent (suc n) g r w sp = elim (Result-cases (ratchet_forward p c r.ratchet_head)) [
    | inr (x, failed) ↦ rw (failed, skip_loop) sp
    | inl ((head, g', keys), done) ↦
        let st = ratchet_forward-Steps p c s r.ratchet_head head g' keys w.on_chain done in
        rw (done, skip_loop)
          (skip_loop-Spent n g _ (push-Window p c s r w head keys st (some keys) (λ k e. cc))
            (push-Spent g r head (some keys) st.next sp))
  ]

  -- What a call for `g` does to the generations: it spends `g` where it succeeds, and no generation
  -- is recovered.
  record Spends (g : Generation) (r : DecryptionRatchet)
      (out : DecryptionRatchet × Result SecretTreeError RatchetKeyMaterial) : Type 0 where
    pub used : (k : RatchetKeyMaterial) → out.1 ≡ ok k → Spent g out.0
    pub stays : (g' : Generation) → Spent g' r → Spent g' out.0

  take_head-Spends :
      (cfg : SenderRatchetConfiguration) (r : DecryptionRatchet)
      → Window p c s r
      → Spends r.ratchet_head.generation r (take_head p c cfg r)
  unfolding take_head
  take_head-Spends cfg r w = elim (Result-cases (ratchet_forward p c r.ratchet_head)) [
    | inr (x, failed) ↦ rw (failed, take_head) (record { used = λ k e. cc; stays = λ g' sp. sp })
    | inl ((head, g, keys), done) ↦
        let st = ratchet_forward-Steps p c s r.ratchet_head head g keys w.on_chain done in
        rw (done, take_head)
          (record {
            used = λ k e. pushed-Spent cfg.out_of_order_tolerance r head st.next;
            stays = λ g' sp.
                take-Spent g' cfg.out_of_order_tolerance _ (push-Spent g' r head none st.next sp);
          })
  ]

  then_take-Spends :
      (cfg : SenderRatchetConfiguration) (g : ℕ) (r : DecryptionRatchet)
      (out : DecryptionRatchet × Result SecretTreeError (Unit {0}))
      → Window p c s out.0
      → (out.1 ≡ ok tt → out.0.ratchet_head.generation ≡ g)
      → ((g' : Generation) → Spent g' r → Spent g' out.0)
      → Spends g r (then_take p c cfg out)
  then_take-Spends cfg g r (r', ok u) w at_g keep =
      let next = take_head-Spends cfg r' w in
      record { used = rw (sym (at_g refl)) next.used; stays = λ g' sp. next.stays g' (keep g' sp) }
  then_take-Spends cfg g r (r', err e) w at_g keep = record { used = λ k x. cc; stays = keep }

  take_entry-Spends :
      (r : DecryptionRatchet) (i g : ℕ) (entry : Option (Option RatchetKeyMaterial))
      → g + suc i ≡ r.ratchet_head.generation
      → Spends g r (take_entry p c r i entry)
  take_entry-Spends r i g none e = record { used = λ k x. cc; stays = λ g' sp. sp }
  take_entry-Spends r i g (some none) e = record { used = λ k x. cc; stays = λ g' sp. sp }
  take_entry-Spends r i g (some (some keys)) e = record {
    used = λ k x. cleared-Spent g i r e;
    stays = λ g' sp. clear-Spent g' i r sp;
  }

  take_past-Spends :
      (r : DecryptionRatchet) (g : ℕ)
      → Window p c s r
      → g < r.ratchet_head.generation
      → Spends g r (take_past p c r (window_index r.ratchet_head.generation g))
  take_past-Spends r g w lt = elim (Option-cases (window_index r.ratchet_head.generation g)) [
    | inl blank ↦ rw blank (record { used = λ k e. cc; stays = λ g' sp. sp })
    | inr (i, found) ↦ rw found (
        take_entry-Spends r i g (get_elem? r.past_secrets i)
          (window_index_lem r.ratchet_head.generation g i lt (w.on_chain.word) found))
  ]

  secret_for_decryption-Spends :
      (r : DecryptionRatchet) (g : Generation) (cfg : SenderRatchetConfiguration)
      → Window p c s r
      → Spends g r (secret_for_decryption p c r g cfg)
  secret_for_decryption-Spends r g cfg w =
      secret_for_decryption-elim p c r g cfg (Spends g r)
        (λ e. record { used = λ k x. cc; stays = λ g' sp. sp })
        (λ h.
          then_take-Spends cfg g r (skip_loop p c (g - r.ratchet_head.generation) r)
            (skip_loop-Window p c s (g - r.ratchet_head.generation) r w)
            (λ e. skip_loop-count p c s (g - r.ratchet_head.generation) r w e ∙ omega (arith, h))
            (λ g' sp. skip_loop-Spent (g - r.ratchet_head.generation) g' r w sp))
        (λ h. take_past-Spends r g w h)

  take_past-refused :
      (r : DecryptionRatchet) (g : ℕ) (k : RatchetKeyMaterial)
      → Window p c s r
      → Spent g r
      → (take_past p c r (window_index r.ratchet_head.generation g)).1 ≢ ok k
  take_past-refused r g k w sp = elim (Option-cases (window_index r.ratchet_head.generation g)) [
    | inl blank ↦ rw blank (λ e. cc)
    | inr (i, found) ↦
        let place =
          window_index_lem r.ratchet_head.generation g i sp.behind (w.on_chain.word) found in
        rw found (refused i place (get_elem? r.past_secrets i) refl)
  ]
    where
      refused :
          (i : ℕ)
          → g + suc i ≡ r.ratchet_head.generation
          → (entry : Option (Option RatchetKeyMaterial)) → get_elem? r.past_secrets i ≡ entry
          → (take_entry p c r i entry).1 ≢ ok k
      refused i place none m = λ e. cc
      refused i place (some none) m = λ e. cc
      refused i place (some (some keys)) m = λ e. sp.gone i keys place m

  secret_for_decryption-refused :
      (r : DecryptionRatchet) (g : Generation) (cfg : SenderRatchetConfiguration)
      (k : RatchetKeyMaterial)
      → Window p c s r
      → Spent g r
      → (secret_for_decryption p c r g cfg).1 ≢ ok k
  secret_for_decryption-refused r g cfg k w sp =
      secret_for_decryption-elim p c r g cfg (λ out. out.1 ≢ ok k) (λ e x. cc)
        (λ h. absurd (omega (arith, h, sp.behind))) (λ h. take_past-refused r g k w sp)

  -- The ratchet after a sequence of calls, whatever they return.
  abbrev pub after_calls :
      DecryptionRatchet → List (Generation × SenderRatchetConfiguration) → DecryptionRatchet
  after_calls r [] = r
  after_calls r ((g, cfg) ∷ calls) = after_calls (secret_for_decryption p c r g cfg).0 calls

  -- A new ratchet after calls.
  abbrev pub receiver : List (Generation × SenderRatchetConfiguration) → DecryptionRatchet
  receiver calls = after_calls (decryption_ratchet s) calls

  pub after_calls-Window :
      (r : DecryptionRatchet) (calls : List (Generation × SenderRatchetConfiguration))
      → Window p c s r
      → Window p c s (after_calls r calls)
  after_calls-Window r [] w = w
  after_calls-Window r ((g, cfg) ∷ calls) w =
      after_calls-Window (secret_for_decryption p c r g cfg).0 calls
        (secret_for_decryption-Answers p c s r g cfg w).window

  after_calls-Spent :
      (r : DecryptionRatchet) (calls : List (Generation × SenderRatchetConfiguration))
      (g : Generation)
      → Window p c s r
      → Spent g r
      → Spent g (after_calls r calls)
  after_calls-Spent r [] g w sp = sp
  after_calls-Spent r ((g', cfg) ∷ calls) g w sp =
      after_calls-Spent (secret_for_decryption p c r g' cfg).0 calls g
        (secret_for_decryption-Answers p c s r g' cfg w).window
        ((secret_for_decryption-Spends r g' cfg w).stays g sp)

  -- On a new ratchet, after any calls: once a call has returned the keys of a generation, no later call
  -- returns keys for it, whatever calls are made in between and under whatever configurations.
  pub secret_for_decryption-once :
      (g : Generation) (cfg later : SenderRatchetConfiguration)
      (before between : List (Generation × SenderRatchetConfiguration))
      (keys keys' : RatchetKeyMaterial)
      → (secret_for_decryption p c (receiver before) g cfg).1 ≡ ok keys
      → (secret_for_decryption p c
          (after_calls (secret_for_decryption p c (receiver before) g cfg).0 between)
          g
          later).1
        ≢ ok keys'
  secret_for_decryption-once g cfg later before between keys keys' e =
      let r = receiver before in
      let w = after_calls-Window (decryption_ratchet s) before (decryption_ratchet-Window p c s) in
      let w' = (secret_for_decryption-Answers p c s r g cfg w).window in
      secret_for_decryption-refused _ g later keys' (after_calls-Window _ between w')
        (after_calls-Spent _ between g w' ((secret_for_decryption-Spends r g cfg w).used keys e))

  -- Whatever calls were made on a new ratchet, the keys that a call returns are those that the chain
  -- from its initial secret has for the requested generation.
  pub secret_for_decryption-of_chain :
      (g : Generation) (cfg : SenderRatchetConfiguration)
      (calls : List (Generation × SenderRatchetConfiguration)) (keys : RatchetKeyMaterial)
      → (secret_for_decryption p c (receiver calls) g cfg).1 ≡ ok keys
      → keys_at p c s g ≡ ok keys
  secret_for_decryption-of_chain g cfg calls keys e =
      let w = after_calls-Window _ calls (decryption_ratchet-Window p c s) in
      (secret_for_decryption-Answers p c s _ g cfg w).right keys e
