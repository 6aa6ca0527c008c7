-- ===== src/TreeSync/Returns.antt =====
-- A tree that is trimmed and then grown again.
use mls4rn.Prelude.{
  ℕ, zero, suc, ◌≤◌, ◌<◌, ◌≡◌, ◌≢◌, refl, sym, ◌∙◌, ap, inl, inr, Bool-cases, ◌==◌, ≢→==, le→ltb,
  lt→ltb, none, some, arith, ok,
}
use mls4rn.TreeMath.Index.{LeafNodeIndex}
use mls4rn.TreeMath.Size.{leaf_is_left, min_tree_size}
use mls4rn.BinaryTree.Tree.{leaf_by_index}
use mls4rn.BinaryTree.Diff.{leaf, leaf_count, shrink_tree}
use mls4rn.BinaryTree.Sound.{IsSound}
use mls4rn.TreeSync.Nodes.{blank_node}
use mls4rn.TreeSync.Diff.{
  TreeSyncDiff, or_unchanged, trim_loop, trim_tree, free_leaf_index, add_leaf, rightmost_full_leaf,
}
use mls4rn.TreeSync.LastFull.{leaf-outside}
use mls4rn.TreeSync.Trim.{trim_tree-leaf}
use mls4rn.TreeSync.Additions.{add_leaf-leaf}

module _ {LeafNode : Type 0} where
  original-trim_loop :
      (fuel : ℕ) (i : LeafNodeIndex) (d : TreeSyncDiff LeafNode)
      → (trim_loop fuel i d).original_tree ≡ d.original_tree
  unfolding trim_loop
  original-trim_loop zero i d = refl
  original-trim_loop (suc fuel) i d = elim (Bool-cases (leaf_is_left d.size i)) [
    | inl more ↦ rw more (original-trim_loop fuel i (or_unchanged d (shrink_tree d)) ∙ shrunk)
    | inr done ↦ rw done refl
  ]
    where
      shrunk : (or_unchanged d (shrink_tree d)).original_tree ≡ d.original_tree
      shrunk = unfold shrink_tree in ground arith

  original-trim_tree : (d : TreeSyncDiff LeafNode) → (trim_tree d).original_tree ≡ d.original_tree
  unfolding trim_tree
  original-trim_tree d = elim (Bool-cases (leaf_count d == min_tree_size)) [
    | inl one ↦ rw one refl
    | inr more ↦ rw more (original-trim_loop 32 (rightmost_full_leaf d) d)
  ]

  -- A leaf of the part that has grown, as the original tree has it.
  regrown_leaf :
      (d d' : TreeSyncDiff LeafNode) (node : LeafNode) (k : LeafNodeIndex)
      → IsSound d
      → add_leaf (trim_tree d) node ≡ some (ok (d', free_leaf_index (trim_tree d)))
      → leaf_count (trim_tree d) ≤ k
      → k < leaf_count d'
      → free_leaf_index (trim_tree d) ≢ k
      → leaf d' k ≡ leaf_by_index d.original_tree k
  regrown_leaf d d' node k s added out inside other =
      elim (add_leaf-leaf (trim_tree d) node (trim_tree-leaf d k s).0) [
        | inl stopped ↦ cc
        | inr (path, e, found, a) ↦
            let same : d' ≡ e = cc in
            ap (λ (x : TreeSyncDiff LeafNode). leaf x k) same
            ∙ a.leaves k
            ∙ (rw
                (
                  ≢→== (free_leaf_index (trim_tree d)) k other,
                  le→ltb k (leaf_count (trim_tree d)) out,
                  ← same,
                  lt→ltb k (leaf_count d') inside,
                  original-trim_tree d,
                )
                refl)
      ]

  -- In a sound diff, a leaf that trimming puts outside of the tree is blank before and after the
  -- trimming. If a leaf is then added at another index and the tree grows over it, it is the one that the original tree has at its
  -- index, so that a member of the original tree whom the diff has removed is there again.
  pub trimmed_leaf_returns :
      (d d' : TreeSyncDiff LeafNode) (node : LeafNode) (k : LeafNodeIndex)
      → IsSound d
      → add_leaf (trim_tree d) node ≡ some (ok (d', free_leaf_index (trim_tree d)))
      → leaf_count (trim_tree d) ≤ k
      → k < leaf_count d'
      → free_leaf_index (trim_tree d) ≢ k
      → (leaf d k ≡ none)
        × (leaf (trim_tree d) k ≡ none)
        × (leaf d' k ≡ leaf_by_index d.original_tree k)
  trimmed_leaf_returns d d' node k s added out inside other =
      let (sound, same, _) = trim_tree-leaf d k s in
      let blank = leaf-outside (trim_tree d) k sound out in
      (sym same ∙ blank, blank, regrown_leaf d d' node k s added out inside other)
