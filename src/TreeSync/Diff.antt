-- ===== src/TreeSync/Diff.antt =====
-- diff.rs: leaves are updated, blanked and added, and the tree is trimmed.
use mathlib.Core.Option
use mls4rn.Prelude.{
  ℕ, zero, suc, ◌+◌, ◌==◌, leb, if◌then◌else◌, u32, Option, none, some, List, [], ◌∷◌, Result, ok,
  err,
}
use mls4rn.TreeMath.Index.{LeafNodeIndex, ParentNodeIndex}
use mls4rn.TreeMath.Size.{min_tree_size, leaf_is_left}
use mls4rn.BinaryTree.Diff.{
  AbDiff, ABinaryTreeDiffError, leaves, leaf_count, shrink_tree, grow_tree, replace_leaf,
  parent_mut, direct_path, set_direct_path_to_node,
}
use mls4rn.TreeSync.Nodes.{TreeSyncLeafNode, TreeSyncParentNode, add_unmerged_leaf}

pub data TreeSyncAddLeaf : Type 0 where
  tree_full : TreeSyncAddLeaf

abbrev pub TreeSyncDiff : Type 0 → Type 0
TreeSyncDiff LeafNode = AbDiff (TreeSyncLeafNode LeafNode) TreeSyncParentNode

module _ {LeafNode : Type 0} where
  -- The loop of `rightmost_full_leaf`, from the index `i` found so far.
  unfoldable pub last_full :
      LeafNodeIndex → List (LeafNodeIndex × TreeSyncLeafNode LeafNode) → LeafNodeIndex
  last_full i [] = i
  last_full i ((k, none) ∷ rest) = last_full i rest
  last_full i ((k, some node) ∷ rest) = last_full k rest

  unfoldable pub rightmost_full_leaf : TreeSyncDiff LeafNode → LeafNodeIndex
  rightmost_full_leaf d = last_full 0 (leaves d)

  -- A call of `shrink_tree` whose result is only asserted in debug builds.
  abbrev pub or_unchanged :
      TreeSyncDiff LeafNode
      → Result ABinaryTreeDiffError (TreeSyncDiff LeafNode)
      → TreeSyncDiff LeafNode
  or_unchanged d (ok d') = d'
  or_unchanged d (err e) = d

  -- The `while` of `trim_tree`, for at most `fuel` rounds.
  unfoldable pub trim_loop : ℕ → LeafNodeIndex → TreeSyncDiff LeafNode → TreeSyncDiff LeafNode
  trim_loop zero i d = d
  trim_loop (suc fuel) i d =
      let rest = trim_loop fuel i (or_unchanged d (shrink_tree d)) in
      if leaf_is_left d.size i then rest else d

  -- A tree has at most 31 levels.
  unfoldable pub trim_tree : TreeSyncDiff LeafNode → TreeSyncDiff LeafNode
  trim_tree d = if leaf_count d == min_tree_size then d else trim_loop 32 (rightmost_full_leaf d) d

  -- `none` if the direct path does not end.
  unfoldable pub update_leaf :
      TreeSyncDiff LeafNode → LeafNode → LeafNodeIndex → Option (TreeSyncDiff LeafNode)
  update_leaf d node i = set_direct_path_to_node (replace_leaf d i (some node)) i none

  unfoldable pub blank_leaf : TreeSyncDiff LeafNode → LeafNodeIndex → Option (TreeSyncDiff LeafNode)
  blank_leaf d i = set_direct_path_to_node (replace_leaf d i none) i none

  -- The loop of `free_leaf_index`, after `count` full leaves.
  unfoldable pub first_blank : ℕ → List (LeafNodeIndex × TreeSyncLeafNode LeafNode) → LeafNodeIndex
  first_blank count [] = count
  first_blank count ((k, none) ∷ rest) = k
  first_blank count ((k, some node) ∷ rest) = first_blank (u32 (count + 1)) rest

  unfoldable pub free_leaf_index : TreeSyncDiff LeafNode → LeafNodeIndex
  free_leaf_index d = first_blank 0 (leaves d)

  -- The `while` of `add_leaf`, for at most `fuel` rounds; `none` if the leaf is not reached.
  unfoldable pub grow_loop :
      ℕ
      → LeafNodeIndex
      → TreeSyncDiff LeafNode
      → Option (Result TreeSyncAddLeaf (TreeSyncDiff LeafNode))
  grow_loop zero i d = if leb (leaf_count d) i then none else some (ok d)
  grow_loop (suc fuel) i d =
      let rest : Option (Result TreeSyncAddLeaf (TreeSyncDiff LeafNode)) = elim (grow_tree d) [
        | ok d' ↦ grow_loop fuel i d'
        | err e ↦ some (err tree_full)
      ] in
      if leb (leaf_count d) i then rest else some (ok d)

  -- The loop over the direct path at the end of `add_leaf`.
  unfoldable pub add_unmerged :
      LeafNodeIndex → TreeSyncDiff LeafNode → List ParentNodeIndex → TreeSyncDiff LeafNode
  add_unmerged i d [] = d
  add_unmerged i d (p ∷ path) =
      add_unmerged i (parent_mut d p (Option.map (add_unmerged_leaf i))) path

  abbrev pub with_leaf :
      LeafNodeIndex
      → LeafNode
      → TreeSyncDiff LeafNode
      → Option (Result TreeSyncAddLeaf (TreeSyncDiff LeafNode × LeafNodeIndex))
  with_leaf i node d =
      let d' = replace_leaf d i (some node) in
      Option.map (λ path. ok (add_unmerged i d' path, i)) (direct_path d' i)

  abbrev pub if_grown :
      LeafNodeIndex
      → LeafNode
      → Option (Result TreeSyncAddLeaf (TreeSyncDiff LeafNode))
      → Option (Result TreeSyncAddLeaf (TreeSyncDiff LeafNode × LeafNodeIndex))
  if_grown i node none = none
  if_grown i node (some (err e)) = some (err e)
  if_grown i node (some (ok d)) = with_leaf i node d

  -- The caller drops the diff on an error. 32 rounds pass the greatest size.
  unfoldable pub add_leaf :
      TreeSyncDiff LeafNode
      → LeafNode
      → Option (Result TreeSyncAddLeaf (TreeSyncDiff LeafNode × LeafNodeIndex))
  add_leaf d node = let i = free_leaf_index d in if_grown i node (grow_loop 32 i d)
