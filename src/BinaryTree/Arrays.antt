-- ===== src/BinaryTree/Arrays.antt =====
-- The two constructors of a tree: from the array of all nodes, and from leaves and parents.
use mls4rn.Prelude.{
  ℕ, ◌+◌, ◌%◌, ◌≡◌, refl, ap, inl, inr, Bool-cases, ◌==◌, ==→≡, ≡→==, ≢→==, ltb, List, [], ◌∷◌,
  length, arith, Result, ok, err, ◌>>=◌, IfOk,
}
use mls4rn.TreeMath.Size.{max_tree_size}
use mls4rn.BinaryTree.Tree.{
  Default, ABinaryTreeError, ABinaryTree, TreeNode, leaf, parent, push_leaf, push_parent,
  with_defaults, split_nodes, new, from_components,
}

module _ {L P : Type 0} where
  -- The array representation: leaves and parents take turns.
  unfoldable pub alternate : List L → List P → List (TreeNode L P)
  alternate [] parents = []
  alternate (l ∷ leaves) [] = leaf l ∷ []
  alternate (l ∷ leaves) (p ∷ parents) = leaf l ∷ parent p ∷ alternate leaves parents

  length-alternate :
      (leaves : List L) (parents : List P)
      → length leaves ≡ length parents + 1
      → length (alternate leaves parents) ≡ length leaves + length parents
  unfolding alternate
  length-alternate [] parents e = absurd (omega arith)
  length-alternate (l ∷ []) [] e = refl
  length-alternate (l ∷ m ∷ leaves) [] e = absurd (omega arith)
  length-alternate (l ∷ leaves) (p ∷ parents) e =
      omega (arith, length-alternate leaves parents (omega arith))

  split_nodes-alternate :
      (i : ℕ) (leaves : List L) (parents : List P)
      → i % 2 ≡ 0
      → length leaves ≡ length parents + 1
      → split_nodes i (alternate leaves parents) ≡ ok (leaves, parents)
  unfolding alternate split_nodes
  split_nodes-alternate i [] parents even e = absurd (omega arith)
  split_nodes-alternate i (l ∷ []) [] even e = rw (≡→== (i % 2) 0 even) refl
  split_nodes-alternate i (l ∷ m ∷ leaves) [] even e = absurd (omega arith)
  split_nodes-alternate i (l ∷ leaves) (p ∷ parents) even e =
      rw
        (
          split_nodes-alternate (i + 1 + 1) leaves parents (omega arith) (omega arith),
          ≡→== (i % 2) 0 even,
          ≡→== ((i + 1) % 2) 1 (omega arith),
        )
        refl

  -- For one leaf more than parents, the array in which they take turns and the two vectors give the
  -- same tree, or the same error where they are too many.
  pub new-alternate :
      ⦃l : Default L⦄ ⦃p : Default P⦄ (leaves : List L) (parents : List P)
      → length leaves ≡ length parents + 1
      → new (alternate leaves parents) ≡ from_components leaves parents
  unfolding new from_components
  new-alternate leaves parents e =
      let odd : (length leaves + length parents) % 2 ≡ 1 = omega arith in
      rw
        (
          length-alternate leaves parents e,
          split_nodes-alternate 0 leaves parents (omega arith) e,
          ≡→== (length leaves) (length parents + 1) e,
          ≡→== ((length leaves + length parents) % 2) 1 odd,
        )
        refl

  abbrev Alternates : List (TreeNode L P) → List L × List P → Type 0
  Alternates nodes out = (nodes ≡ alternate out.0 out.1) × (length out.0 ≡ length out.1 + 1)

  abbrev AlternatesTree : List (TreeNode L P) → ABinaryTree L P → Type 0
  AlternatesTree nodes t = Alternates nodes (t.leaf_nodes, t.parent_nodes)

  split_nodes-Alternates :
      (i : ℕ) (nodes : List (TreeNode L P))
      → i % 2 ≡ 0
      → length nodes % 2 ≡ 1
      → IfOk (Alternates nodes) (split_nodes i nodes)
  unfolding split_nodes alternate
  split_nodes-Alternates i [] even odd = absurd (omega arith)
  split_nodes-Alternates i (parent p ∷ nodes) even odd = rw (≢→== (i % 2) 1 (omega arith)) tt
  split_nodes-Alternates i (leaf l ∷ []) even odd = rw (≡→== (i % 2) 0 even) (refl, refl)
  split_nodes-Alternates i (leaf l ∷ leaf m ∷ nodes) even odd =
      rw (≡→== (i % 2) 0 even, ≢→== ((i + 1) % 2) 0 (omega arith)) tt
  split_nodes-Alternates i (leaf l ∷ parent p ∷ nodes) even odd =
      rw (≡→== (i % 2) 0 even, ≡→== ((i + 1) % 2) 1 (omega arith))
        (extend (split_nodes (i + 1 + 1) nodes)
          (split_nodes-Alternates (i + 1 + 1) nodes (omega arith) (omega arith)))
    where
      extend :
          (r : Result ABinaryTreeError (List L × List P))
          → IfOk (Alternates nodes) r
          → IfOk (Alternates (leaf l ∷ parent p ∷ nodes)) ((r >>= push_parent p) >>= push_leaf l)
      extend (ok out) h = (ap (λ ns. leaf l ∷ parent p ∷ ns) h.0, omega (arith, h.1))
      extend (err e) h = tt

  -- An array that is accepted is one in which the leaves and the parents of the tree take turns,
  -- with one leaf more than parents.
  pub new-Alternates :
      ⦃l : Default L⦄ ⦃p : Default P⦄ (nodes : List (TreeNode L P))
      → IfOk (AlternatesTree nodes) (new nodes)
  unfolding new
  new-Alternates nodes = elim (Bool-cases (ltb max_tree_size (length nodes))) [
    | inl large ↦ rw large tt
    | inr fits ↦ elim (Bool-cases (length nodes % 2 == 1)) [
      | inr even ↦ rw (fits, even) tt
      | inl odd ↦
          rw (fits, odd)
            (build (split_nodes 0 nodes)
              (split_nodes-Alternates 0 nodes (omega arith) (==→≡ (length nodes % 2) 1 odd)))
    ]
  ]
    where
      build :
          (r : Result ABinaryTreeError (List L × List P))
          → IfOk (Alternates nodes) r
          → IfOk (AlternatesTree nodes) (r >>= with_defaults)
      build (ok out) h = h
      build (err e) h = tt
