-- ===== src/SecretTree/Calls.antt =====
-- The calls of a `SecretTree` keep what it stands for, and return the keys that belong to the leaf.
use mls4rn.Prelude.{ℕ, ◌≤◌, ◌≡◌, ◌∙◌, ap, inl, inr, Bool-cases, leb, Option, none, some, get_elem?}
use mls4rn.Prelude.{ok, ok_or}
use mls4rn.Prelude.Actions.{lift, read}
use mls4rn.Prelude.Outcomes.{Does, bind-Does, lift-Does, read-Does, return-Does, fail-Does}
use mls4rn.Ciphersuite.{Ciphersuite}
use mls4rn.Secrets.{Secret, Provider}
use mls4rn.SenderRatchet.{
  SecretTreeError, index_out_of_bounds, ratchet_type_error, SenderRatchet, encryption, decryption,
  RatchetSecret, RatchetKeyMaterial, Generation, SenderRatchetConfiguration, ratchet_forward,
}
use mls4rn.SenderRatchet as Ratchets
use mls4rn.SenderRatchet.Chain.{OnChain, keys_at, ratchet_forward-Steps, ratchet_forward-Computes}
use mls4rn.SenderRatchet.Window.{secret_for_decryption-Answers}
use mls4rn.SecretTree.{
  SecretTree, SecretType, set_ratchet, ratchet_opt, ratchet_mut, sender_ratchets, present, ensure,
  decrypt_with, encrypt_with, secret_for_decryption, secret_for_encryption,
}
use mls4rn.SecretTree.Derived.{ratchet_root}
use mls4rn.SecretTree.Rooted.{Rooted, IsRatchet, Nothing, set_ratchet-Does}
use mls4rn.SecretTree.Initialized.{ensure-Does}
use mls4rn.TreeMath.Index.{LeafNodeIndex}
use mls4rn.TreeMath.Size.{leaf_count}
use mls4rn.TreeMath.Navigation.{root}

present-some {ℓ} :
    {E : Type ℓ} (o : Option (Option SenderRatchet)) (e : E) (r : SenderRatchet)
    → ok_or (present o) e ≡ ok r
    → ok_or o e ≡ ok (some r)
present-some none e r h = cc
present-some (some none) e r h = cc
present-some (some (some x)) e r h = cc

module _ (p : Provider) (c : Ciphersuite) (s : Secret) (h : ℕ) (small : h ≤ 30) where
  abbrev Kept : SecretTree → Type 0
  Kept = Rooted p c s h

  -- Keys of generation `g` of the ratchet that belongs to a leaf.
  abbrev pub KeysOf : SecretType → LeafNodeIndex → Generation → RatchetKeyMaterial → Type 0
  KeysOf type i g keys =
      (root : Secret) × (ratchet_root p c s h type i ≡ ok root) × (keys_at p c root g ≡ ok keys)

  abbrev RatchetOf : SecretType → LeafNodeIndex → SenderRatchet → Type 0
  RatchetOf type i r =
      (root : Secret) × (ratchet_root p c s h type i ≡ ok root) × IsRatchet p c s h root r

  ratchet_mut-Does :
      (i : LeafNodeIndex) (type : SecretType)
      → Does Kept (RatchetOf type i) (read (ratchet_mut i type))
  unfolding ratchet_mut ratchet_opt
  ratchet_mut-Does i type = read-Does Kept (RatchetOf type i) (ratchet_mut i type) (λ t r k e.
      k.ratchets type i r
        (present-some (get_elem? (sender_ratchets t type) i) index_out_of_bounds r e))

  decrypt_with-Does :
      (i : LeafNodeIndex) (type : SecretType) (g : Generation) (cfg : SenderRatchetConfiguration)
      (r : SenderRatchet)
      → RatchetOf type i r
      → Does Kept (KeysOf type i g) (decrypt_with p c i type g cfg r)
  decrypt_with-Does i type g cfg (encryption r) of =
      fail-Does Kept (KeysOf type i g) ratchet_type_error
  decrypt_with-Does i type g cfg (decryption r) (root, known, window) =
      let answers = secret_for_decryption-Answers p c root r g cfg window in
      let out = Ratchets.secret_for_decryption p c r g cfg in
      bind-Does Kept (Nothing p c s h) (set_ratchet i type (decryption out.0)) (λ u. lift out.1)
        (set_ratchet-Does p c s h i type root (decryption out.0) known answers.window)
        (λ u told.
          lift-Does Kept (KeysOf type i g) out.1 (λ keys e. (root, known, answers.right keys e)))

  encrypt_with-Does :
      (i : LeafNodeIndex) (type : SecretType) (r : SenderRatchet)
      → RatchetOf type i r
      → Does Kept (λ out. KeysOf type i out.0 out.1) (encrypt_with p c i type r)
  encrypt_with-Does i type (decryption r) of =
      fail-Does Kept (λ out. KeysOf type i out.0 out.1) ratchet_type_error
  encrypt_with-Does i type (encryption r) (root, known, on) =
      bind-Does Kept (λ step. OnChain p c root step.0 × (keys_at p c root step.1 ≡ ok step.2)) _ _
        (lift-Does Kept _ (ratchet_forward p c r) (λ step e.
          let st = ratchet_forward-Steps p c root r step.0 step.1 step.2 on e in
          let m = ratchet_forward-Computes p c r step.0 step.1 step.2 e in
          (st.follows, ap (keys_at p c root) m.number ∙ st.derived)))
        (λ step made.
          bind-Does Kept (Nothing p c s h) _ _
            (set_ratchet-Does p c s h i type root (encryption step.0) known made.0)
            (λ u told.
              return-Does Kept (λ out. KeysOf type i out.0 out.1) (step.1, step.2)
                (root, known, made.1)))

  pub secret_for_decryption-Does :
      (i : LeafNodeIndex) (type : SecretType) (g : Generation) (cfg : SenderRatchetConfiguration)
      → Does Kept (KeysOf type i g) (secret_for_decryption p c i type g cfg)
  unfolding secret_for_decryption
  secret_for_decryption-Does i type g cfg t k = elim (Bool-cases (leb (leaf_count t.size) i)) [
    | inl out ↦ rw out (record { keeps = k; gives = λ keys e. cc })
    | inr in_tree ↦ rw in_tree (
        bind-Does Kept (λ found. Unit {0}) (read (ratchet_opt i type)) _
          (read-Does Kept (λ found. Unit {0}) (ratchet_opt i type) (λ t a k e. tt))
          (λ found told.
            bind-Does Kept (Nothing p c s h) (ensure p c i found) _
              (ensure-Does p c s h i found small)
              (λ u told.
                bind-Does Kept (RatchetOf type i) (read (ratchet_mut i type)) _
                  (ratchet_mut-Does i type) (λ r of. decrypt_with-Does i type g cfg r of)))
          t k)
  ]

  pub secret_for_encryption-Does :
      (i : LeafNodeIndex) (type : SecretType)
      → Does Kept (λ out. KeysOf type i out.0 out.1) (secret_for_encryption p c i type)
  unfolding secret_for_encryption
  secret_for_encryption-Does i type =
      bind-Does Kept (λ found. Unit {0}) (read (ratchet_opt i type)) _
        (read-Does Kept (λ found. Unit {0}) (ratchet_opt i type) (λ t a k e. tt))
        (λ found told.
          bind-Does Kept (Nothing p c s h) (ensure p c i found) _
            (ensure-Does p c s h i found small)
            (λ u told.
              bind-Does Kept (RatchetOf type i) (read (ratchet_mut i type)) _
                (ratchet_mut-Does i type) (λ r of. encrypt_with-Does i type r of)))
