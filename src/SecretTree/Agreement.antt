-- ===== src/SecretTree/Agreement.antt =====
-- Whatever is asked of the trees of two members, and in whatever order, they return the same keys.
use mls4rn.Prelude.{
  ℕ, zero, suc, ◌-◌, ◌^◌, ◌≤◌, ◌≡◌, ◌≢◌, refl, ◌∙◌, ap, List, [], ◌∷◌, none, some, get_elem?,
  replicate, arith,
}
use mls4rn.Prelude.{ok, ok_or}
use mls4rn.Ciphersuite.{Ciphersuite}
use mls4rn.Secrets.{Secret, Provider}
use mls4rn.SenderRatchet.{
  index_out_of_bounds, SenderRatchet, RatchetKeyMaterial, Generation, SenderRatchetConfiguration,
}
use mls4rn.SenderRatchet.Chain.{keys_at}
use mls4rn.SecretTree.{
  SecretTree, SecretType, handshake_secret, application_secret, get_node, ratchet_opt,
  secret_for_decryption, secret_for_encryption, secret_tree, blank_tree,
}
use mls4rn.SecretTree.Derived.{ratchet_root, expected, expected-at, secret_below, Derived}
use mls4rn.SecretTree.Rooted.{Rooted, IsRatchet, set_node-Does}
use mls4rn.SecretTree.Calls.{secret_for_decryption-Does, secret_for_encryption-Does}
use mls4rn.TreeMath.Index.{TreeNodeIndex, LeafNodeIndex}
use mls4rn.TreeMath.Size.{leaf_count}
use mls4rn.TreeMath.Navigation.{root}
use mls4rn.TreeMath.Sizes.{root-full}

no_entry {ℓ κ} :
    {A : Type ℓ} {E : Type κ} (n i : ℕ) (e : E) (a : A)
    → ok_or (get_elem? (replicate n none) i) e ≢ ok (some a)
no_entry zero i e a found = cc
no_entry (suc n) zero e a found = cc
no_entry (suc n) (suc i) e a found = no_entry n i e a found

-- A call of one of the two methods.
pub data Call : Type 0 where
  decrypt : LeafNodeIndex → SecretType → Generation → SenderRatchetConfiguration → Call
  encrypt : LeafNodeIndex → SecretType → Call

module _ (p : Provider) (c : Ciphersuite) where
  abbrev pub after_call : SecretTree → Call → SecretTree
  after_call t (decrypt i type g cfg) = (secret_for_decryption p c i type g cfg t).0
  after_call t (encrypt i type) = (secret_for_encryption p c i type t).0

  -- The tree after a sequence of calls, whatever they return.
  abbrev pub after_calls : SecretTree → List Call → SecretTree
  after_calls t [] = t
  after_calls t (call ∷ calls) = after_calls (after_call t call) calls

  module _ (s : Secret) (h : ℕ) (small : h ≤ 30) where
    blank_tree-Rooted : (own : LeafNodeIndex) → Rooted p c s h (blank_tree (2 ^ suc h - 1) own)
    unfolding get_node ratchet_opt
    blank_tree-Rooted own = record { full = refl; nodes = nodes; ratchets = ratchets }
      where
        count : ℕ
        count = leaf_count (2 ^ suc h - 1)

        nodes : Derived p c s h (blank_tree (2 ^ suc h - 1) own)
        nodes (TreeNodeIndex.leaf i) n e = absurd (no_entry count i index_out_of_bounds n e)
        nodes (TreeNodeIndex.parent i) n e = absurd (no_entry count i index_out_of_bounds n e)

        ratchets :
            (type : SecretType) (i : LeafNodeIndex) (r : SenderRatchet)
            → ratchet_opt i type (blank_tree (2 ^ suc h - 1) own) ≡ ok (some r)
            → (root : Secret) × (ratchet_root p c s h type i ≡ ok root) × IsRatchet p c s h root r
        ratchets handshake_secret i r e = absurd (no_entry count i index_out_of_bounds r e)
        ratchets application_secret i r e = absurd (no_entry count i index_out_of_bounds r e)

    expected-root : expected p c s h (root (2 ^ suc h - 1)) ≡ ok s
    unfolding secret_below
    expected-root =
        let depth : h - h ≡ 0 = omega arith in
        ap (expected p c s h) (root-full h small)
        ∙ expected-at p c s h h 0 small (0, omega arith, omega arith)
        ∙ ap (λ d. secret_below p c s d 0) depth

    secret_tree-Rooted : (own : LeafNodeIndex) → Rooted p c s h (secret_tree s (2 ^ suc h - 1) own)
    unfolding secret_tree
    secret_tree-Rooted own =
        (set_node-Does p c s h (root (2 ^ suc h - 1)) (some (record { secret = s }))
          (λ n e. expected-root ∙ cc) _ (blank_tree-Rooted own)).keeps

    after_call-Rooted :
        (t : SecretTree) (call : Call) → Rooted p c s h t → Rooted p c s h (after_call t call)
    after_call-Rooted t (decrypt i type g cfg) k =
        (secret_for_decryption-Does p c s h small i type g cfg t k).keeps
    after_call-Rooted t (encrypt i type) k =
        (secret_for_encryption-Does p c s h small i type t k).keeps

    after_calls-Rooted :
        (t : SecretTree) (calls : List Call)
        → Rooted p c s h t
        → Rooted p c s h (after_calls t calls)
    after_calls-Rooted t [] k = k
    after_calls-Rooted t (call ∷ calls) k =
        after_calls-Rooted (after_call t call) calls (after_call-Rooted t call k)

    -- The tree of a member after calls.
    abbrev pub member_tree : LeafNodeIndex → List Call → SecretTree
    member_tree own calls = after_calls (secret_tree s (2 ^ suc h - 1) own) calls

    member_tree-Rooted :
        (own : LeafNodeIndex) (calls : List Call) → Rooted p c s h (member_tree own calls)
    member_tree-Rooted own calls = after_calls-Rooted _ calls (secret_tree-Rooted own)

    -- Two members with the encryption secret of one epoch, in a full tree of height at most 30, after any
    -- calls on either side: the keys that one returns for the encryption by leaf `i` under generation
    -- `g` are the keys that the other returns for the decryption of leaf `i` and `g`.
    pub members_agree :
        (own own' i : LeafNodeIndex) (type : SecretType) (g : Generation)
        (cfg : SenderRatchetConfiguration) (calls calls' : List Call)
        (keys keys' : RatchetKeyMaterial)
        → (secret_for_encryption p c i type (member_tree own calls)).1 ≡ ok (g, keys)
        → (secret_for_decryption p c i type g cfg (member_tree own' calls')).1 ≡ ok keys'
        → keys ≡ keys'
    members_agree own own' i type g cfg calls calls' keys keys' sent received =
        let (root, known, mine) =
          (secret_for_encryption-Does p c s h small i type _ (member_tree-Rooted own calls)).gives
            (g, keys) sent in
        let (root', known', yours) =
          (secret_for_decryption-Does p c s h small i type g cfg _
              (member_tree-Rooted own' calls')).gives
            keys' received in
        let same : root ≡ root' = cc in
        let known_keys : keys_at p c root' g ≡ ok keys = rw same at mine in cc

    -- Whatever calls a member has made, the keys that the tree returns for a decryption are those that the
    -- chain from the ratchet secret of the leaf has for the generation; and this secret is derived from
    -- the encryption secret along the path to the leaf.
    pub decryption_of_root :
        (own i : LeafNodeIndex) (type : SecretType) (g : Generation)
        (cfg : SenderRatchetConfiguration) (calls : List Call) (keys : RatchetKeyMaterial)
        → (secret_for_decryption p c i type g cfg (member_tree own calls)).1 ≡ ok keys
        → (ratchet_secret : Secret) × (ratchet_root p c s h type i ≡ ok ratchet_secret)
          × (keys_at p c ratchet_secret g ≡ ok keys)
    decryption_of_root own i type g cfg calls keys received =
        (secret_for_decryption-Does p c s h small i type g cfg _
            (member_tree-Rooted own calls)).gives
          keys received
