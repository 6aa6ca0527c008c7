-- ===== src/SenderRatchet/Branches.antt =====
-- The four ways through `secret_for_decryption`, and the index into the window.
use mls4rn.Prelude.{
  ℕ, suc, refl, false, true, get_elem?, some, arith, ◌^◌, ◌+◌, ◌-◌, ◌≤◌, ◌<◌, ◌≡◌, inl, inr,
  Bool-cases, ◌&&◌, ltb, leb, leb→le, leb→lt, u32, u32_max,
}
use mls4rn.Prelude.{Result, err}
use mls4rn.Ciphersuite.{Ciphersuite}
use mls4rn.Secrets.{Provider}
use mls4rn.SenderRatchet.{
  SecretTreeError, RatchetKeyMaterial, Generation, DecryptionRatchet, SenderRatchetConfiguration,
  skip_loop, then_take, take_past, take_entry, secret_for_decryption, window_index,
}

pub window_index_lem :
    (head g i : ℕ) → g < head → head ≤ u32_max → window_index head g ≡ some i → g + suc i ≡ head
unfolding window_index
window_index_lem head g i lt b e = ground arith

pub window_index-behind :
    (head g i : ℕ) → g + suc i ≡ head → i < 2 ^ 31 → head ≤ u32_max → window_index head g ≡ some i
unfolding window_index
window_index-behind head g i e low b = ground arith

module _ (p : Provider) (c : Ciphersuite) (r : DecryptionRatchet) (g : Generation)
    (cfg : SenderRatchetConfiguration) where
  pub secret_for_decryption-elim {ℓ} :
      (P : DecryptionRatchet × Result SecretTreeError RatchetKeyMaterial → Type ℓ)
      → ((e : SecretTreeError) → P (r, err e))
      → (r.ratchet_head.generation ≤ g
          → P (then_take p c cfg (skip_loop p c (g - r.ratchet_head.generation) r)))
      → (g < r.ratchet_head.generation
          → P (take_past p c r (window_index r.ratchet_head.generation g)))
      → P (secret_for_decryption p c r g cfg)
  unfolding secret_for_decryption
  secret_for_decryption-elim P failed forward behind =
      let head = r.ratchet_head.generation in
      let far = cfg.maximum_forward_distance in
      elim (Bool-cases (ltb head (u32_max - far) && ltb (u32 (head + far)) g)) [
        | inl h ↦ rw h (failed _)
        | inr h_n ↦ elim (Bool-cases (ltb g head && ltb cfg.out_of_order_tolerance (head - g))) [
          | inl h ↦ rw (h_n, h) (failed _)
          | inr h_n' ↦ elim (Bool-cases (leb head g)) [
            | inl h ↦ rw (h_n, h_n', h) (forward (leb→le head g h))
            | inr h_n'' ↦ rw (h_n, h_n', h_n'') (behind (leb→lt head g h_n''))
          ]
        ]
      ]

  -- Within the tolerance, the call looks at the window.
  pub secret_for_decryption-behind :
      (i : ℕ)
      → g + suc i ≡ r.ratchet_head.generation
      → i < cfg.out_of_order_tolerance
      → i < 2 ^ 31
      → r.ratchet_head.generation ≤ u32_max
      → secret_for_decryption p c r g cfg ≡ take_entry p c r i (get_elem? r.past_secrets i)
  unfolding secret_for_decryption
  secret_for_decryption-behind i e near low word =
      let head = r.ratchet_head.generation in
      let far = cfg.maximum_forward_distance in
      let not_far : (ltb head (u32_max - far) && ltb (u32 (head + far)) g) ≡ false = ground arith in
      let not_old : (ltb g head && ltb cfg.out_of_order_tolerance (head - g)) ≡ false =
        ground arith in
      let past : leb head g ≡ false = ground arith in
      rw (not_far, not_old, past, window_index-behind head g i e low word) refl

  -- Within the forward distance, the call goes on from the head.
  pub secret_for_decryption-ahead :
      r.ratchet_head.generation ≤ g
      → g ≤ r.ratchet_head.generation + cfg.maximum_forward_distance
      → secret_for_decryption p c r g cfg
        ≡ then_take p c cfg (skip_loop p c (g - r.ratchet_head.generation) r)
  unfolding secret_for_decryption
  secret_for_decryption-ahead le near =
      let head = r.ratchet_head.generation in
      let far = cfg.maximum_forward_distance in
      let not_far : (ltb head (u32_max - far) && ltb (u32 (head + far)) g) ≡ false = ground arith in
      let not_old : (ltb g head && ltb cfg.out_of_order_tolerance (head - g)) ≡ false =
        ground arith in
      let ahead : leb head g ≡ true = ground arith in rw (not_far, not_old, ahead) refl
