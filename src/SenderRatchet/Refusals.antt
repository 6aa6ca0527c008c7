-- ===== src/SenderRatchet/Refusals.antt =====
-- When a decryption ratchet refuses a generation for its distance.
use mls4rn.Prelude.{
  ℕ, zero, suc, ◌+◌, ◌-◌, ◌^◌, ◌≤◌, ◌<◌, ◌≡◌, refl, ◌⊎◌, inl, inr, true, false, Bool-cases, Option,
  some, none, Result, Result-cases, ok, err, ◌>>=◌, ok_or, ◌==◌, min, ltb, leb, leb→le, leb→lt,
  ◌&&◌, Option-cases, u32_max, get_elem?, arith, subst, u32, ◌∷◌,
}
use mls4rn.Ciphersuite.{Ciphersuite, hash_length, aead_key_length, aead_nonce_length}
use mls4rn.Secrets.{Secret, Bytes, codes, CryptoError, Provider, kdf_expand_label}
use mls4rn.SenderRatchet.{
  RatchetSecret, to_be_bytes, key_from_secret, SecretTreeError, too_distant_in_the_past,
  too_distant_in_the_future, panicked, RatchetKeyMaterial, Generation, DecryptionRatchet,
  SenderRatchetConfiguration, from_crypto, nonce_from_secret, derive_tree_secret, ratchet_forward,
  skip_loop, take_head, then_take, take_entry, window_index, secret_for_decryption,
}

beyond_reach :
    (head far g : ℕ)
    → (ltb head (u32_max - far) && ltb (u32 (head + far)) g) ≡ true
    → (head + far < u32_max) × (head + far < g)
beyond_reach head far g h = (ground arith, ground arith)

in_reach :
    (head far g : ℕ)
    → (ltb head (u32_max - far) && ltb (u32 (head + far)) g) ≡ false
    → (g ≤ head + far) ⊎ (u32_max ≤ head + far)
in_reach head far g h = elim (Bool-cases (leb g (head + far))) [
  | inl near ↦ inl (leb→le g (head + far) near)
  | inr beyond ↦ inr (ground arith)
]

too_old :
    (head g tolerance : ℕ)
    → (ltb g head && ltb tolerance (head - g)) ≡ true
    → g + min tolerance (2 ^ 31) < head
too_old head g tolerance h = ground arith

out_of_window :
    (head g tolerance : ℕ)
    → g < head
    → head ≤ u32_max
    → window_index head g ≡ none
    → g + min tolerance (2 ^ 31) < head
unfolding window_index
out_of_window head g tolerance lt word gone = ground arith

in_window :
    (head g tolerance i : ℕ)
    → g < head
    → head ≤ u32_max
    → (ltb g head && ltb tolerance (head - g)) ≡ false
    → window_index head g ≡ some i
    → head ≤ g + min tolerance (2 ^ 31)
unfolding window_index
in_window head g tolerance i lt word near place = ground arith

-- Whether an error is one of the two about a distance.
abbrev pub IsOther : SecretTreeError → Type 0
IsOther too_distant_in_the_past = ⊥
IsOther too_distant_in_the_future = ⊥
IsOther _ = Unit

-- The result is no refusal for a distance.
abbrev pub NotRefused : {A : Type 0} → Result SecretTreeError A → Type 0
NotRefused (ok a) = Unit
NotRefused (err e) = IsOther e

module _ {A B : Type 0} where
  -- A chain of results, from its first one.
  NotRefused-bind :
      (m : Result SecretTreeError A) (f : A → Result SecretTreeError B)
      → NotRefused m
      → ((a : A) → NotRefused (f a))
      → NotRefused (m >>= f)
  NotRefused-bind (ok a) f here there = there a
  NotRefused-bind (err e) f here there = here

from_crypto-NotRefused : {A : Type 0} (m : Result CryptoError A) → NotRefused (from_crypto m)
from_crypto-NotRefused (ok a) = tt
from_crypto-NotRefused (err e) = tt

nonce-NotRefused : {A : Type 0} (o : Option A) → NotRefused (ok_or o panicked)
nonce-NotRefused (some n) = tt
nonce-NotRefused none = tt

module _ (p : Provider) (c : Ciphersuite) where
  derive_tree_secret-NotRefused :
      (s : Secret) (label : Bytes) (g len : ℕ) → NotRefused (derive_tree_secret p c s label g len)
  unfolding derive_tree_secret
  derive_tree_secret-NotRefused s label g len =
      from_crypto-NotRefused (kdf_expand_label p c s label (to_be_bytes g) len)

  -- What `ratchet_forward` makes of its three secrets.
  abbrev Made : Type 0
  Made = RatchetSecret × Generation × RatchetKeyMaterial

  abbrev finish : RatchetSecret → Secret → Secret → Secret → Result SecretTreeError Made
  finish r nonce key next = ok_or (nonce_from_secret nonce) panicked >>= λ n. ok (
    record { secret = next; generation = u32 (r.generation + 1) },
    r.generation,
    (key_from_secret key c, n),
  )

  ratchet_forward-NotRefused : (r : RatchetSecret) → NotRefused (ratchet_forward p c r)
  unfolding ratchet_forward
  ratchet_forward-NotRefused r = elim (Bool-cases (r.generation == u32_max)) [
    | inl last ↦ rw last tt
    | inr more ↦
        let first =
          derive_tree_secret p c r.secret (codes "nonce") r.generation (aead_nonce_length c) in
        let second =
          derive_tree_secret p c r.secret (codes "key") r.generation (aead_key_length c) in
        let third = derive_tree_secret p c r.secret (codes "secret") r.generation (hash_length c) in
        rw more (
          NotRefused-bind first (λ nonce. second >>= λ key. third >>= finish r nonce key)
            (derive_tree_secret-NotRefused r.secret (codes "nonce") r.generation
              (aead_nonce_length c))
            (λ nonce.
              NotRefused-bind second (λ key. third >>= finish r nonce key)
                (derive_tree_secret-NotRefused r.secret (codes "key") r.generation
                  (aead_key_length c))
                (λ key.
                  NotRefused-bind third (finish r nonce key)
                    (derive_tree_secret-NotRefused r.secret (codes "secret") r.generation
                      (hash_length c))
                    (λ next.
                      NotRefused-bind (ok_or (nonce_from_secret nonce) panicked)
                        (λ n. ok (
                          record { secret = next; generation = u32 (r.generation + 1) },
                          r.generation,
                          (key_from_secret key c, n),
                        ))
                        (nonce-NotRefused (nonce_from_secret nonce)) (λ n. tt)))))
  ]

  skip_loop-NotRefused : (n : ℕ) (r : DecryptionRatchet) → NotRefused (skip_loop p c n r).1
  unfolding skip_loop
  skip_loop-NotRefused zero r = tt
  skip_loop-NotRefused (suc n) r = elim (Result-cases (ratchet_forward p c r.ratchet_head)) [
    | inl ((head, g, keys), e) ↦
        rw (skip_loop, e)
          (skip_loop-NotRefused n
            (record { past_secrets = some keys ∷ r.past_secrets; ratchet_head = head }))
    | inr (failure, e) ↦
        let other : IsOther failure =
          subst NotRefused e (ratchet_forward-NotRefused r.ratchet_head) in
        rw (skip_loop, e) other
  ]

  take_head-NotRefused :
      (cfg : SenderRatchetConfiguration) (r : DecryptionRatchet)
      → NotRefused (take_head p c cfg r).1
  unfolding take_head
  take_head-NotRefused cfg r = elim (Result-cases (ratchet_forward p c r.ratchet_head)) [
    | inl ((head, g, keys), e) ↦ rw (take_head, e) tt
    | inr (failure, e) ↦
        let other : IsOther failure =
          subst NotRefused e (ratchet_forward-NotRefused r.ratchet_head) in
        rw (take_head, e) other
  ]

  then_take-NotRefused :
      (cfg : SenderRatchetConfiguration)
      (out : DecryptionRatchet × Result SecretTreeError (Unit {0}))
      → NotRefused out.1
      → NotRefused (then_take p c cfg out).1
  then_take-NotRefused cfg (r, ok u) near = take_head-NotRefused cfg r
  then_take-NotRefused cfg (r, err e) near = near

  take_entry-NotRefused :
      (r : DecryptionRatchet) (i : ℕ) (entry : Option (Option RatchetKeyMaterial))
      → NotRefused (take_entry p c r i entry).1
  take_entry-NotRefused r i none = tt
  take_entry-NotRefused r i (some none) = tt
  take_entry-NotRefused r i (some (some keys)) = tt

  -- Let the generation of the head be a 32-bit value.
  -- A generation is refused as too far in the future if it is beyond the forward distance, unless the
  -- distance goes up to the last 32-bit value; as too far in the past if it is further behind the head
  -- than the tolerance or than 2 ^ 31. A refusal leaves the ratchet as it is. In all other cases the
  -- call does not report a distance: it gives keys, or fails for another reason.
  pub secret_for_decryption-refusals :
      (r : DecryptionRatchet) (g : Generation) (cfg : SenderRatchetConfiguration)
      → r.ratchet_head.generation ≤ u32_max
      → ((r.ratchet_head.generation + cfg.maximum_forward_distance < u32_max)
          × (r.ratchet_head.generation + cfg.maximum_forward_distance < g)
          × (secret_for_decryption p c r g cfg ≡ (r, err too_distant_in_the_future)))
        ⊎ ((g + min cfg.out_of_order_tolerance (2 ^ 31) < r.ratchet_head.generation)
            × (secret_for_decryption p c r g cfg ≡ (r, err too_distant_in_the_past)))
        ⊎ (((g ≤ r.ratchet_head.generation + cfg.maximum_forward_distance)
              ⊎ (u32_max ≤ r.ratchet_head.generation + cfg.maximum_forward_distance))
            × (r.ratchet_head.generation ≤ g + min cfg.out_of_order_tolerance (2 ^ 31))
            × NotRefused (secret_for_decryption p c r g cfg).1)
  unfolding secret_for_decryption
  secret_for_decryption-refusals r g cfg word =
      let head = r.ratchet_head.generation in
      let far = cfg.maximum_forward_distance in
      let tolerance = cfg.out_of_order_tolerance in
      elim (Bool-cases (ltb head (u32_max - far) && ltb (u32 (head + far)) g)) [
        | inl beyond ↦
            let (room, out) = beyond_reach head far g beyond in inl (room, out, rw beyond refl)
        | inr reach ↦ elim (Bool-cases (ltb g head && ltb tolerance (head - g))) [
          | inl old ↦ inr (inl (too_old head g tolerance old, rw (reach, old) refl))
          | inr near ↦ elim (Bool-cases (leb head g)) [
            | inl ahead ↦
                let le = leb→le head g ahead in
                inr (
                  inr (
                    in_reach head far g reach,
                    omega (arith, le),
                    rw (reach, near, ahead)
                        (then_take-NotRefused cfg (skip_loop p c (g - head) r)
                          (skip_loop-NotRefused (g - head) r)),
                  ))
            | inr behind ↦
                let lt = leb→lt head g behind in
                elim (Option-cases (window_index head g)) [
                  | inl gone ↦ inr (
                      inl (
                        out_of_window head g tolerance lt word gone,
                        rw (reach, near, behind, gone) refl,
                      ))
                  | inr (i, place) ↦ inr (
                      inr (
                        in_reach head far g reach,
                        in_window head g tolerance i lt word near place,
                        rw (reach, near, behind, place)
                            (take_entry-NotRefused r i (get_elem? r.past_secrets i)),
                      ))
                ]
          ]
        ]
      ]
