-- ===== src/SenderRatchet/Window.antt =====
-- The window of past secrets of a `DecryptionRatchet`: what it holds, and that a call returns the
-- keys of the generation that it was asked for.
use mls4rn.Prelude.{
  ℕ, zero, suc, ◌+◌, ◌-◌, ◌≤◌, ◌<◌, ◌≡◌, refl, sym, ◌∙◌, inl, inr, Option, none, some, ◌∷◌, length,
  get_elem?, set, take, arith, length-take, length-set, get_elem?-take-some, get_elem?-set_other,
  Option-cases,
}
use mls4rn.Prelude.{Result, ok, err, Result-cases}
use mls4rn.Ciphersuite.{Ciphersuite}
use mls4rn.Secrets.{Secret, Provider}
use mls4rn.SenderRatchet.{
  SecretTreeError, RatchetSecret, RatchetKeyMaterial, Generation, DecryptionRatchet,
  SenderRatchetConfiguration, decryption_ratchet, ratchet_forward, skip_loop, take_head, then_take,
  take_past, take_entry, secret_for_decryption, window_index,
}
use mls4rn.SenderRatchet.Branches.{secret_for_decryption-elim, window_index_lem}
use mls4rn.SenderRatchet.Chain.{OnChain, Steps, keys_at, secret_at, ratchet_forward-Steps}

module _ (p : Provider) (c : Ciphersuite) (s : Secret) where
  -- Entry `i` of the window belongs to the `i`-th generation behind the head.
  pub record Window (r : DecryptionRatchet) : Type 0 where
    pub on_chain : OnChain p c s r.ratchet_head
    pub kept :
        (i g : ℕ) (keys : RatchetKeyMaterial)
        → g + suc i ≡ r.ratchet_head.generation
        → get_elem? r.past_secrets i ≡ some (some keys)
        → keys_at p c s g ≡ ok keys
    pub size : length r.past_secrets ≤ r.ratchet_head.generation

  pub decryption_ratchet-Window : Window (decryption_ratchet s)
  unfolding secret_at
  decryption_ratchet-Window = record {
    on_chain = record { at_secret = refl; word = omega arith };
    kept = λ i g keys e m. cc;
    size = omega arith;
  }

  module _ (r : DecryptionRatchet) (w : Window r) (head : RatchetSecret) (keys : RatchetKeyMaterial)
      (st : Steps p c s r.ratchet_head head keys) where
    -- An entry for the generation that the step used, with its keys or blank, goes to the front.
    pub push-Window :
        (entry : Option RatchetKeyMaterial)
        → ((k : RatchetKeyMaterial) → entry ≡ some k → k ≡ keys)
        → Window (record { past_secrets = entry ∷ r.past_secrets; ratchet_head = head })
    push-Window entry own = record {
      on_chain = st.follows;
      kept = kept;
      size = omega (arith, w.size, st.next);
    }
      where
        kept :
            (i g : ℕ) (k : RatchetKeyMaterial)
            → g + suc i ≡ head.generation
            → get_elem? (entry ∷ r.past_secrets) i ≡ some (some k)
            → keys_at p c s g ≡ ok k
        kept zero g k e m =
            let same : k ≡ keys = own k (cc) in
            let here : g ≡ r.ratchet_head.generation = omega (arith, e, st.next) in
            rw (here, same) st.derived
        kept (suc i) g k e m = w.kept i g k (omega (arith, st.next, e)) m

  -- Dropping the oldest entries keeps what the window stands for.
  pub take-Window :
      (n : ℕ) (r : DecryptionRatchet)
      → Window r
      → Window (record r { past_secrets = take n r.past_secrets })
  take-Window n r w = record {
    on_chain = w.on_chain;
    kept = λ i g keys e m. w.kept i g keys e (get_elem?-take-some n i r.past_secrets m);
    size = omega (arith, length-take n r.past_secrets, w.size);
  }

  pub clear-Window :
      (j : ℕ) (r : DecryptionRatchet)
      → Window r
      → Window (record r { past_secrets = set r.past_secrets j none })
  clear-Window j r w = record {
    on_chain = w.on_chain;
    kept =
        λ i g keys e m. w.kept i g keys e (get_elem?-set_other r.past_secrets j i none m (λ e. cc));
    size = omega (arith, length-set r.past_secrets j none, w.size);
  }

  pub skip_loop-Window : (n : ℕ) (r : DecryptionRatchet) → Window r → Window (skip_loop p c n r).0
  unfolding skip_loop
  skip_loop-Window zero r w = w
  skip_loop-Window (suc n) r w = elim (Result-cases (ratchet_forward p c r.ratchet_head)) [
    | inr (e, failed) ↦ rw (failed, skip_loop) w
    | inl ((head, g, keys), done) ↦
        rw (done, skip_loop)
          (skip_loop-Window n _ (
            push-Window r w head keys
              (ratchet_forward-Steps p c s r.ratchet_head head g keys w.on_chain done) (some keys)
              (λ k e. cc)))
  ]

  pub skip_loop-count :
      (n : ℕ) (r : DecryptionRatchet)
      → Window r
      → (skip_loop p c n r).1 ≡ ok tt
      → (skip_loop p c n r).0.ratchet_head.generation ≡ r.ratchet_head.generation + n
  unfolding skip_loop
  skip_loop-count zero r w e = omega arith
  skip_loop-count (suc n) r w e = elim (Result-cases (ratchet_forward p c r.ratchet_head)) [
    | inr (x, failed) ↦ let bad : err x ≡ ok tt = rw (failed, skip_loop) at e in cc
    | inl ((head, g, keys), done) ↦
        let st = ratchet_forward-Steps p c s r.ratchet_head head g keys w.on_chain done in
        rw (done, skip_loop)
          (skip_loop-count n _ (push-Window r w head keys st (some keys) (λ k e. cc))
              (rw (done, skip_loop) at e)
            ∙ omega (arith, st.next))
  ]

  -- A call answers `g` if it keeps the window and returns no other keys than those of `g`.
  pub record Answers (g : Generation)
      (out : DecryptionRatchet × Result SecretTreeError RatchetKeyMaterial) : Type 0 where
    pub window : Window out.0
    pub right : (k : RatchetKeyMaterial) → out.1 ≡ ok k → keys_at p c s g ≡ ok k

  take_head-Answers :
      (cfg : SenderRatchetConfiguration) (r : DecryptionRatchet)
      → Window r
      → Answers r.ratchet_head.generation (take_head p c cfg r)
  unfolding take_head
  take_head-Answers cfg r w = elim (Result-cases (ratchet_forward p c r.ratchet_head)) [
    | inr (x, failed) ↦ rw (failed, take_head) (record { window = w; right = λ k e. cc })
    | inl ((head, g, keys), done) ↦
        let st = ratchet_forward-Steps p c s r.ratchet_head head g keys w.on_chain done in
        rw (done, take_head)
          (record {
            window =
                take-Window cfg.out_of_order_tolerance _
                  (push-Window r w head keys st none (λ k e. cc));
            right = λ k e. st.derived ∙ cc;
          })
  ]

  take_entry-Answers :
      (r : DecryptionRatchet) (i g : ℕ) (entry : Option (Option RatchetKeyMaterial))
      → Window r
      → get_elem? r.past_secrets i ≡ entry
      → g + suc i ≡ r.ratchet_head.generation
      → Answers g (take_entry p c r i entry)
  take_entry-Answers r i g none w m e = record { window = w; right = λ k x. cc }
  take_entry-Answers r i g (some none) w m e = record { window = w; right = λ k x. cc }
  take_entry-Answers r i g (some (some keys)) w m e = record {
    window = clear-Window i r w;
    right = λ k x. w.kept i g keys e m ∙ cc;
  }

  take_past-Answers :
      (r : DecryptionRatchet) (g : ℕ)
      → Window r
      → g < r.ratchet_head.generation
      → Answers g (take_past p c r (window_index r.ratchet_head.generation g))
  take_past-Answers r g w lt = elim (Option-cases (window_index r.ratchet_head.generation g)) [
    | inl blank ↦ rw blank (record { window = w; right = λ k x. cc })
    | inr (i, found) ↦ rw found (
        take_entry-Answers r i g (get_elem? r.past_secrets i) w refl
          (window_index_lem r.ratchet_head.generation g i lt w.on_chain.word found))
  ]

  then_take-Answers :
      (cfg : SenderRatchetConfiguration) (g : ℕ)
      (out : DecryptionRatchet × Result SecretTreeError (Unit {0}))
      → Window out.0
      → (out.1 ≡ ok tt → out.0.ratchet_head.generation ≡ g)
      → Answers g (then_take p c cfg out)
  then_take-Answers cfg g (r, ok u) w at_g = rw (sym (at_g refl)) (take_head-Answers cfg r w)
  then_take-Answers cfg g (r, err e) w at_g = record { window = w; right = λ k x. cc }

  pub secret_for_decryption-Answers :
      (r : DecryptionRatchet) (g : Generation) (cfg : SenderRatchetConfiguration)
      → Window r
      → Answers g (secret_for_decryption p c r g cfg)
  secret_for_decryption-Answers r g cfg w =
      secret_for_decryption-elim p c r g cfg (Answers g)
        (λ e. record { window = w; right = λ k x. cc })
        (λ h.
          then_take-Answers cfg g (skip_loop p c (g - r.ratchet_head.generation) r)
            (skip_loop-Window (g - r.ratchet_head.generation) r w)
            (λ e. skip_loop-count (g - r.ratchet_head.generation) r w e ∙ omega (arith, h)))
        (λ h. take_past-Answers r g w h)
