-- ===== src/SecretTree/Derived.antt =====
-- The secrets that the encryption secret determines for every node, and that the tree holds no others.
use mls4rn.Prelude.Powers.{two_pow_suc}
use mls4rn.Prelude.{
  ℕ, zero, suc, ◌+◌, ◌-◌, ◌*◌, ◌/◌, ◌%◌, ◌^◌, ◌≤◌, ◌<◌, ◌≡◌, refl, sym, ◌⊎◌, ◌∙◌, ap, inl, inr,
  ◌==◌, Bool, true, false, Bool-cases, ltb, Option, some, List, [], ◌∷◌, length, get_elem?, set,
  arith,
}
use mls4rn.Prelude.{Result, ok, ◌>>=◌, ok_or}
use mls4rn.Ciphersuite.{Ciphersuite, hash_length}
use mls4rn.Secrets.{Bytes, Secret, CryptoError, Provider, kdf_expand_label, codes}
use mls4rn.SenderRatchet.{derive_child_secrets, index_out_of_bounds}
use mls4rn.SecretTree.{
  SecretType, handshake_secret, application_secret, SecretTree, SecretTreeNode, get_node, set_node,
}
use mls4rn.TreeMath.Index.{LeafNodeIndex, TreeNodeIndex, ParentNodeIndex, node_u32}
use mls4rn.TreeMath.Navigation.{left, right, level}
use mls4rn.TreeMath.Shape.{
  at, node_form, node-suc, left-node, right-node, level-node, node-above, node_u32-at,
  level-lt-of_node,
}
use mls4rn.TreeMath.Inside.{Inside, Inside-of_node, Inside-fits, Inside-left, Inside-right}

-- An entry that is found after a write is the written one, or was there before.
pub written {ℓ κ} :
    {A : Type ℓ} {E : Type κ} {a : A} (e : E) (xs : List (Option A)) (i m : ℕ) (entry : Option A)
    → ok_or (get_elem? (set xs i entry) m) e ≡ ok (some a)
    → ((i ≡ m) × (entry ≡ some a)) ⊎ (ok_or (get_elem? xs m) e ≡ ok (some a))
written e [] i m entry found = inr found
written e (x ∷ xs) zero zero entry found = inl (refl, cc)
written e (x ∷ xs) zero (suc m) entry found = inr found
written e (x ∷ xs) (suc i) zero entry found = inr found
written e (x ∷ xs) (suc i) (suc m) entry found = elim (written e xs i m entry found) [
  | inl (same, is) ↦ inl (ap suc same, is)
  | inr old ↦ inr old
]

-- The labels of the two ratchets.
abbrev pub label : SecretType → Bytes
label handshake_secret = codes "handshake"
label application_secret = codes "application"

module _ (p : Provider) (c : Ciphersuite) (s : Secret) where
  abbrev side : Bool → Secret × Secret → Secret
  side true both = both.0
  side false both = both.1

  -- The secret `d` levels below the root, at offset `j` of its level.
  unfoldable pub secret_below : ℕ → ℕ → Result CryptoError Secret
  secret_below zero j = ok s
  secret_below (suc d) j = do
    above ← secret_below d (j / 2)
    both ← derive_child_secrets p c above
    ok (side (j % 2 == 0) both)

  secret_below-children :
      (d j : ℕ) (above l r : Secret)
      → secret_below d j ≡ ok above
      → derive_child_secrets p c above ≡ ok (l, r)
      → (secret_below (suc d) (j * 2) ≡ ok l) × (secret_below (suc d) (j * 2 + 1) ≡ ok r)
  unfolding secret_below
  secret_below-children d j above l r known derived =
      let half : j * 2 / 2 ≡ j = omega arith in
      let half' : (j * 2 + 1) / 2 ≡ j = omega arith in
      let even : (j * 2 % 2 == 0) ≡ true = ground arith in
      let odd : ((j * 2 + 1) % 2 == 0) ≡ false = ground arith in
      (rw (half, known, derived, even) refl, rw (half', known, derived, odd) refl)

  module _ (h : ℕ) where
    -- The secret of a node in a tree of height `h`.
    unfoldable pub expected : TreeNodeIndex → Result CryptoError Secret
    expected x = secret_below (h - level (node_u32 x)) (node_u32 x / 2 ^ suc (level (node_u32 x)))

    -- The initial secret of a leaf's ratchet.
    unfoldable pub ratchet_root : SecretType → LeafNodeIndex → Result CryptoError Secret
    ratchet_root type i = do
      leaf ← expected (TreeNodeIndex.leaf i)
      kdf_expand_label p c leaf (label type) [] (hash_length c)

    -- Every secret in a node is the one that belongs there.
    abbrev pub Derived : SecretTree → Type 0
    Derived t =
        (x : TreeNodeIndex) (n : SecretTreeNode)
        → get_node t x ≡ ok (some n)
        → expected x ≡ ok n.secret

    pub expected-at : (k j : ℕ) → h ≤ 30 → Inside h k j → expected (at k j) ≡ secret_below (h - k) j
    unfolding expected
    expected-at k j small inside =
        let fits = Inside-fits h k j small inside in
        let low = level-lt-of_node k j 31 fits in
        rw
          (
            node_u32-at k j (omega (arith, fits)),
            level-node k j (omega (arith, low)),
            node-above k j,
          )
          refl

    pub children :
        (i : ParentNodeIndex) (above l r : Secret)
        → h ≤ 30
        → i < 2 ^ h - 1
        → expected (TreeNodeIndex.parent i) ≡ ok above
        → derive_child_secrets p c above ≡ ok (l, r)
        → (expected (left i) ≡ ok l) × (expected (right i) ≡ ok r)
    children i above l r small low known derived =
        let (k, j, e) = node_form i in
        let inside : Inside h (suc k) j =
          Inside-of_node h (suc k) j (omega (arith, low, e, node-suc k j, two_pow_suc h)) in
        let fits = Inside-fits h (suc k) j small inside in
        let here : secret_below (h - suc k) j ≡ ok above =
          sym (expected-at (suc k) j small inside) ∙ (rw e at known) in
        let depth : h - k ≡ suc (h - suc k) = omega (arith, inside.1) in
        let (left_made, right_made) = secret_below-children (h - suc k) j above l r here derived in
        rw (e, left-node k j fits, right-node k j fits)
          (
            expected-at k (j * 2) small (Inside-left h k j inside)
                ∙ ap (λ d. secret_below d (j * 2)) depth
                ∙ left_made,
            expected-at k (j * 2 + 1) small (Inside-right h k j inside)
                ∙ ap (λ d. secret_below d (j * 2 + 1)) depth
                ∙ right_made,
          )

    -- A write of a secret that belongs there, or of a blank, keeps what the tree stands for.
    pub set_node-Derived :
        (x : TreeNodeIndex) (entry : Option SecretTreeNode) (t : SecretTree)
        → ((n : SecretTreeNode) → entry ≡ some n → expected x ≡ ok n.secret)
        → Derived t
        → Derived (set_node x entry t).0
    unfolding set_node get_node
    set_node-Derived (TreeNodeIndex.leaf i) entry t own d =
        elim (Bool-cases (ltb i (length t.leaf_nodes))) [ inr h ↦ rw h d | inl h ↦ rw h new ]
      where
        new : Derived (record t { leaf_nodes = set t.leaf_nodes i entry })
        new (TreeNodeIndex.parent m) n e = d (TreeNodeIndex.parent m) n e
        new (TreeNodeIndex.leaf m) n e =
            elim (written index_out_of_bounds t.leaf_nodes i m entry e) [
              | inl (same, is) ↦
                  ap (λ (q : ℕ). expected (TreeNodeIndex.leaf q)) (sym same) ∙ own n is
              | inr old ↦ d (TreeNodeIndex.leaf m) n old
            ]
    set_node-Derived (TreeNodeIndex.parent i) entry t own d =
        elim (Bool-cases (ltb i (length t.parent_nodes))) [ inr h ↦ rw h d | inl h ↦ rw h new ]
      where
        new : Derived (record t { parent_nodes = set t.parent_nodes i entry })
        new (TreeNodeIndex.leaf m) n e = d (TreeNodeIndex.leaf m) n e
        new (TreeNodeIndex.parent m) n e =
            elim (written index_out_of_bounds t.parent_nodes i m entry e) [
              | inl (same, is) ↦
                  ap (λ (q : ℕ). expected (TreeNodeIndex.parent q)) (sym same) ∙ own n is
              | inr old ↦ d (TreeNodeIndex.parent m) n old
            ]
