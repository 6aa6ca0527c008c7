-- ===== src/BinaryTree/Tests.antt =====
-- Runs on a tree with four leaves.
use mls4rn.Prelude.{ℕ, ◌≡◌, refl, [], ◌∷◌, ltb, if◌then◌else◌, ok, arith, ◌<<◌}
use mls4rn.SortedIter.{next, next_item, collect}
use mls4rn.SortedIter.Step.{Ascending}
use mls4rn.TreeMath.Size.{tree_size as size_of_nodes, log2, leading_zeros, bit_length, inc, dec}
use mls4rn.BinaryTree.Map.{get, insert, retain, key}
use mls4rn.BinaryTree.Tree.{
  Default, unwrap_or, ABinaryTree, tree_size, enumerate, resize_with, tree_leaf, tree_parent,
  leaves as leaves_of_tree,
}
use mls4rn.BinaryTree.Diff.{
  AbDiff, staged, merge_diff, empty_diff, grow_tree, shrink_tree, replace_leaf, leaf, parent,
  leaves, raw_leaves, overwrite, parent_count,
}
use mls4rn.BinaryTree.Sound.{IsTree, IsSound}
use mls4rn.BinaryTree.Edits.{Edits, none_yet, after, leaf_replaced, Edits-IsSound}
use mls4rn.BinaryTree.Merge.{merge_diff-answers, leaves-leaf}

instance abbrev blank : Default ℕ
blank = record { default = 0 }

abbrev small_tree : ABinaryTree ℕ ℕ
small_tree = record {
  leaf_nodes = 10 ∷ 11 ∷ 12 ∷ 13 ∷ [];
  parent_nodes = 20 ∷ 21 ∷ 22 ∷ [];
  default_leaf = 0;
  default_parent = 0;
}

small_tree-IsTree : IsTree small_tree
small_tree-IsTree = record {
  nodes = omega arith;
  has_leaf = omega arith;
  default_leaf = refl;
  default_parent = refl;
}

abbrev edited : AbDiff ℕ ℕ
edited = record {
  original_tree = small_tree;
  leaf_diff = (3, 99) ∷ [];
  parent_diff = [];
  size = 7;
  default_leaf = 0;
  default_parent = 0;
}

edits : Edits (empty_diff small_tree) edited
unfolding empty_diff replace_leaf tree_size size_of_nodes log2 leading_zeros bit_length ◌<<◌ insert
edits = after none_yet (leaf_replaced 3 99 (omega arith) refl)

Edits-IsSound_example : IsSound edited
Edits-IsSound_example = Edits-IsSound small_tree-IsTree edits

merge_diff-answers_example :
    (tree_leaf (merge_diff small_tree (staged edited)) 3 ≡ leaf edited 3)
    × (tree_parent (merge_diff small_tree (staged edited)) 1
        ≡ (if ltb 1 (parent_count edited) then parent edited 1 else 0))
merge_diff-answers_example = merge_diff-answers edited 3 1 Edits-IsSound_example

leaves-leaf_example :
    Ascending key 0 (leaves edited) × (unwrap_or (get 3 (leaves edited)) 0 ≡ leaf edited 3)
leaves-leaf_example = leaves-leaf edited 3 Edits-IsSound_example

listed : leaves edited ≡ (0, 10) ∷ (1, 11) ∷ (2, 12) ∷ (3, 99) ∷ []
unfolding leaves raw_leaves collect next next_item leaves_of_tree enumerate
listed = refl

merged :
    merge_diff small_tree (staged edited)
    ≡ record small_tree { leaf_nodes = 10 ∷ 11 ∷ 12 ∷ 99 ∷ [] }
unfolding merge_diff staged overwrite resize_with
merged = refl

abbrev shrunk : AbDiff ℕ ℕ
shrunk = record edited { leaf_diff = []; size = 3 }

shrinks : shrink_tree edited ≡ ok shrunk
unfolding shrink_tree dec retain
shrinks = refl

grows : grow_tree shrunk ≡ ok (record shrunk { size = 7 })
unfolding grow_tree inc ◌<<◌
grows = refl
