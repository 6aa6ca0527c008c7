-- ===== src/BinaryTree/Diff.antt =====
-- diff.rs: changes to a tree that are kept beside it, and `ABinaryTree::merge_diff` of tree.rs.

use mathlib.Core.Option
use mls4rn.Prelude.{
  ℕ, ◌/◌, ltb, leb, if◌then◌else◌, Option, none, some, List, [], ◌∷◌, set, Result, ok, err,
}
use mls4rn.SortedIter.{sorted_iter, collect}
use mls4rn.TreeMath.Index.{LeafNodeIndex, ParentNodeIndex, TreeNodeIndex}
use mls4rn.TreeMath.Size.{
  TreeSize, max_tree_size, min_tree_size, leaf_count as leaves_of, parent_count as parents_of, inc,
  dec,
}
use mls4rn.TreeMath.Navigation.{left, right, root as root_of}
use mls4rn.TreeMath.Paths.{
  direct_path as path_to_root, copath as copath_of, lowest_common_ancestor as common_ancestor_of,
}
use mls4rn.BinaryTree.Map.{BTreeMap, key, get, insert, retain}
use mls4rn.BinaryTree.Tree.{
  ABinaryTreeError, Default, default, ABinaryTree, tree_size, leaf_by_index, parent_by_index,
  leaves as leaves_of_tree, parents as parents_of_tree, resize_with,
}

pub data ABinaryTreeDiffError : Type 0 where
  library_error tree_too_large tree_too_small : ABinaryTreeDiffError
  tree_error : ABinaryTreeError → ABinaryTreeDiffError

pub record StagedAbDiff (L P : Type 0) : Type 0 where
  pub leaf_diff : BTreeMap L
  pub parent_diff : BTreeMap P
  pub size : TreeSize

pub record AbDiff (L P : Type 0) : Type 0 where
  pub original_tree : ABinaryTree L P
  pub leaf_diff : BTreeMap L
  pub parent_diff : BTreeMap P
  pub size : TreeSize
  pub default_leaf : L
  pub default_parent : P

-- The loop of `merge_diff` over one map. A write out of range changes nothing.
unfoldable pub overwrite : {A : Type 0} → BTreeMap A → List A → List A
overwrite [] xs = xs
overwrite ((i, a) ∷ m) xs = overwrite m (set xs i a)

module _ {L P : Type 0} where
  -- `From<AbDiff> for StagedAbDiff`
  unfoldable pub staged : AbDiff L P → StagedAbDiff L P
  staged d = record { leaf_diff = d.leaf_diff; parent_diff = d.parent_diff; size = d.size }

  unfoldable pub merge_diff :
      ⦃l : Default L⦄ ⦃p : Default P⦄ → ABinaryTree L P → StagedAbDiff L P → ABinaryTree L P
  merge_diff t d = record t {
    leaf_nodes = overwrite d.leaf_diff (resize_with (leaves_of d.size) t.leaf_nodes);
    parent_nodes = overwrite d.parent_diff (resize_with (parents_of d.size) t.parent_nodes);
  }

  unfoldable pub empty_diff : ⦃l : Default L⦄ ⦃p : Default P⦄ → ABinaryTree L P → AbDiff L P
  empty_diff t = record {
    original_tree = t;
    leaf_diff = [];
    parent_diff = [];
    size = tree_size t;
    default_leaf = default;
    default_parent = default;
  }

  unfoldable pub raw_leaves : ABinaryTree L P → BTreeMap L → ℕ → List (LeafNodeIndex × L)
  raw_leaves t diff count = collect key count (sorted_iter diff (leaves_of_tree t) count)

  unfoldable pub raw_parents : ABinaryTree L P → BTreeMap P → ℕ → List (ParentNodeIndex × P)
  raw_parents t diff count = collect key count (sorted_iter diff (parents_of_tree t) count)

  unfoldable pub staged_leaves : StagedAbDiff L P → ABinaryTree L P → List (LeafNodeIndex × L)
  staged_leaves s t = raw_leaves t s.leaf_diff (leaves_of s.size)

  unfoldable pub staged_parents : StagedAbDiff L P → ABinaryTree L P → List (ParentNodeIndex × P)
  staged_parents s t = raw_parents t s.parent_diff (parents_of s.size)

  module _ (d : AbDiff L P) where
    abbrev pub leaf_count : ℕ
    leaf_count = leaves_of d.size

    abbrev pub parent_count : ℕ
    parent_count = parents_of d.size

    unfoldable pub grow_tree : Result ABinaryTreeDiffError (AbDiff L P)
    grow_tree =
        if ltb (max_tree_size / 2) d.size
        then err tree_too_large
        else ok record d { size = inc d.size }

    -- The half on the left, without the changes that are now outside.
    abbrev pub cut_down : AbDiff L P
    cut_down = record d {
      size = dec d.size;
      leaf_diff = retain (λ i. ltb i (leaves_of (dec d.size))) d.leaf_diff;
      parent_diff = retain (λ i. ltb i (parents_of (dec d.size))) d.parent_diff;
    }

    unfoldable pub shrink_tree : Result ABinaryTreeDiffError (AbDiff L P)
    shrink_tree = if leb d.size min_tree_size then err tree_too_small else ok cut_down

    unfoldable pub replace_leaf : LeafNodeIndex → L → AbDiff L P
    replace_leaf i new_leaf = record d { leaf_diff = insert i new_leaf d.leaf_diff }

    unfoldable pub replace_parent : ParentNodeIndex → P → AbDiff L P
    replace_parent i node = record d { parent_diff = insert i node d.parent_diff }

    unfoldable pub leaves : List (LeafNodeIndex × L)
    leaves = raw_leaves d.original_tree d.leaf_diff leaf_count

    unfoldable pub parents : List (ParentNodeIndex × P)
    parents = raw_parents d.original_tree d.parent_diff parent_count

    unfoldable pub direct_path : LeafNodeIndex → Option (List ParentNodeIndex)
    direct_path i = path_to_root i d.size

    unfoldable pub copath : LeafNodeIndex → Option (List TreeNodeIndex)
    copath i = copath_of i d.size

    unfoldable pub lowest_common_ancestor : LeafNodeIndex → LeafNodeIndex → ParentNodeIndex
    lowest_common_ancestor i j = common_ancestor_of i j

    unfoldable pub subtree_root_copath_node : LeafNodeIndex → LeafNodeIndex → TreeNodeIndex
    subtree_root_copath_node i j =
        let top = common_ancestor_of i j in if ltb j i then left top else right top

    unfoldable pub root : TreeNodeIndex
    root = root_of d.size

    unfoldable pub leaf : LeafNodeIndex → L
    leaf i = elim (get i d.leaf_diff) [
      | some node ↦ node
      | none ↦ if leb leaf_count i then d.default_leaf else leaf_by_index d.original_tree i
    ]

    unfoldable pub parent : ParentNodeIndex → P
    parent i = elim (get i d.parent_diff) [
      | some node ↦ node
      | none ↦ parent_by_index d.original_tree i
    ]

    -- What the caller writes through the reference is `edit`.
    unfoldable pub parent_mut : ParentNodeIndex → (P → P) → AbDiff L P
    parent_mut i edit = elim (get i d.parent_diff) [
      | some node ↦ replace_parent i (edit node)
      | none ↦ replace_parent i (edit (parent_by_index d.original_tree i))
    ]

  -- The loop of `set_direct_path_to_node`.
  unfoldable pub replace_all : AbDiff L P → List ParentNodeIndex → P → AbDiff L P
  replace_all d [] node = d
  replace_all d (i ∷ path) node = replace_all (replace_parent d i node) path node

  -- `none` if the direct path does not end.
  unfoldable pub set_direct_path_to_node : AbDiff L P → LeafNodeIndex → P → Option (AbDiff L P)
  set_direct_path_to_node d i node = Option.map (λ path. replace_all d path node) (direct_path d i)
