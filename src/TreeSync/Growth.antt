-- ===== src/TreeSync/Growth.antt =====
-- The loop of `add_leaf` grows the tree until a leaf is in it.

use mls4rn.Prelude.{
  ℕ, zero, suc, ◌+◌, ◌-◌, ◌/◌, ◌^◌, ◌≤◌, ◌<◌, ◌≡◌, refl, ◌∙◌, ap, ◌⊎◌, inl, inr, Bool-cases, ltb,
  leb, ltb→le, leb→lt, if◌then◌else◌, none, some, arith, ok, err,
}
use mls4rn.Prelude.Powers.{two_pow_suc}
use mls4rn.TreeMath.Index.{LeafNodeIndex, ParentNodeIndex}
use mls4rn.TreeMath.Inside.{IsFull}
use mls4rn.TreeMath.Size.{inc, max_tree_size}
use mls4rn.TreeMath.Sizes.{full_counts}
use mls4rn.BinaryTree.Tree.{leaf_by_index, ABinaryTree}
use mls4rn.BinaryTree.Diff.{tree_too_large, leaf, parent, leaf_count, grow_tree}
use mls4rn.BinaryTree.Sound.{IsSound, height-lt, half_max, grow_tree-IsSound}
use mls4rn.BinaryTree.Edits.{IsSound-ok}
use mls4rn.TreeSync.Nodes.{TreeSyncLeafNode, TreeSyncParentNode, blank_node}
use mls4rn.TreeSync.Diff.{TreeSyncDiff, tree_full, grow_loop}

module _ {LeafNode : Type 0} where
  -- `d'` is `d`, grown to hold leaf `i`.
  pub record Grown (i : LeafNodeIndex) (d d' : TreeSyncDiff LeafNode) : Type 0 where
    pub sound : IsSound d'
    pub reached : i < leaf_count d'
    pub larger : leaf_count d ≤ leaf_count d'
    pub leaves :
        (j : LeafNodeIndex)
        → leaf d' j ≡ (
            if ltb j (leaf_count d)
            then leaf d j
            else if ltb j (leaf_count d')
            then leaf_by_index d.original_tree j
            else none)
    pub tree : d'.original_tree ≡ d.original_tree
    pub parents : (j : ParentNodeIndex) → parent d' j ≡ parent d j

  here :
      (i : LeafNodeIndex) (d : TreeSyncDiff LeafNode) → IsSound d → i < leaf_count d → Grown i d d
  unfolding leaf
  here i d s lt = record {
    sound = s;
    reached = lt;
    larger = omega arith;
    leaves = λ j. ground (arith, s.leaf_map.bounded j, s.default_leaf);
    tree = refl;
    parents = λ j. refl;
  }

  leaf-grow_tree :
      (d d' : TreeSyncDiff LeafNode) (j : LeafNodeIndex)
      → IsSound d
      → grow_tree d ≡ ok d'
      → leaf_count d ≤ leaf_count d'
      → leaf d' j ≡ (
          if ltb j (leaf_count d)
          then leaf d j
          else if ltb j (leaf_count d')
          then leaf_by_index d.original_tree j
          else none)
  unfolding grow_tree leaf
  leaf-grow_tree d d' j s e more = ground (arith, s.leaf_map.bounded j, s.default_leaf)

  parent-grow_tree :
      (d d' : TreeSyncDiff LeafNode) (j : ParentNodeIndex)
      → grow_tree d ≡ ok d'
      → parent d' j ≡ parent d j
  unfolding grow_tree parent
  parent-grow_tree d d' j e = ground arith

  -- A full tree of less than the greatest height grows by one level.
  grow_tree-IsFull :
      (d : TreeSyncDiff LeafNode) (h : ℕ)
      → IsFull h d.size
      → (grow_tree d ≡ err tree_too_large)
        ⊎ ((d' : TreeSyncDiff LeafNode) × (grow_tree d ≡ ok d')
            × IsFull (suc h) d'.size
            × (leaf_count d ≤ leaf_count d')
            × (d'.original_tree ≡ d.original_tree))
  unfolding grow_tree
  grow_tree-IsFull d h (small, e) = elim (Bool-cases (ltb (max_tree_size / 2) d.size)) [
    | inl large ↦ inl (rw large refl)
    | inr fits ↦
        let low : h < 30 =
          height-lt (max_tree_size / 2) h d.size (ltb→le _ _ fits) half_max (small, e) in
        let (_, _, taller, _) = full_counts h low in
        let grown : inc d.size ≡ 2 ^ suc (suc h) - 1 = ap inc e ∙ taller in
        inr (
          record d { size = inc d.size },
          rw fits refl,
          (low, grown),
          omega (arith, grown, e, two_pow_suc (suc h)),
          refl,
        )
  ]

  Grown-next :
      (i : LeafNodeIndex) (d e f : TreeSyncDiff LeafNode)
      → IsSound d
      → grow_tree d ≡ ok e
      → leaf_count d ≤ leaf_count e
      → e.original_tree ≡ d.original_tree
      → Grown i e f
      → Grown i d f
  Grown-next i d e f s step more same g = record {
    sound = g.sound;
    reached = g.reached;
    larger = omega (arith, more, g.larger);
    leaves = λ j. g.leaves j ∙ joined j;
    tree = g.tree ∙ same;
    parents = λ j. g.parents j ∙ parent-grow_tree d e j step;
  }
    where
      joined :
          (j : LeafNodeIndex)
          → (if ltb j (leaf_count e)
              then leaf e j
              else if ltb j (leaf_count f)
              then leaf_by_index e.original_tree j
              else none)
            ≡ (if ltb j (leaf_count d)
                then leaf d j
                else if ltb j (leaf_count f)
                then leaf_by_index d.original_tree j
                else none)
      joined j = ground (
        arith,
        leaf-grow_tree d e j s step more,
        ap (λ (t : ABinaryTree (TreeSyncLeafNode LeafNode) TreeSyncParentNode). leaf_by_index t j)
            same,
        g.larger,
        more,
      )

  -- There are enough rounds: the loop fails for want of room, or reaches the leaf.
  pub grow_loop_lem :
      (fuel h : ℕ) (i : LeafNodeIndex) (d : TreeSyncDiff LeafNode)
      → IsFull h d.size
      → 31 ≤ fuel + h
      → IsSound d
      → (grow_loop fuel i d ≡ some (err tree_full))
        ⊎ ((d' : TreeSyncDiff LeafNode) × (grow_loop fuel i d ≡ some (ok d')) × Grown i d d')
  unfolding grow_loop
  grow_loop_lem zero h i d full enough s = absurd (omega (arith, full.0))
  grow_loop_lem (suc fuel) h i d full enough s = elim (Bool-cases (leb (leaf_count d) i)) [
    | inr inside ↦ inr (d, rw inside refl, here i d s (leb→lt (leaf_count d) i inside))
    | inl outside ↦ elim (grow_tree-IsFull d h full) [
      | inl e ↦ inl (rw (outside, e, grow_loop) refl)
      | inr (d', e, full', more, same) ↦
          let sound = IsSound-ok (grow_tree d) d' (grow_tree-IsSound d s) e in
          elim (grow_loop_lem fuel (suc h) i d' full' (omega arith) sound) [
            | inl stopped ↦ inl (rw (outside, e, grow_loop) stopped)
            | inr (f, found, g) ↦
                inr (f, rw (outside, e, grow_loop) found, Grown-next i d d' f s e more same g)
          ]
    ]
  ]
