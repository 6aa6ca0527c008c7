-- ===== src/TreeSync/Tests.antt =====
-- Runs on a group with six members in a tree of eight leaves. A leaf node is a number here.

use mls4rn.Prelude.{
  length, get_elem?, ◌^◌, All, ℕ, suc, ◌≤◌, ◌/◌, ◌≡◌, ◌⊎◌, refl, List, [], ◌∷◌, Option, none, some,
  ok, err, arith, ◌<<◌, ◌>>◌,
}
use mls4rn.SortedIter.{next, next_item, collect}
use mls4rn.TreeMath.Index.{ParentNodeIndex, LeafNodeIndex, tree_node}
use mls4rn.TreeMath.Size.{
  tree_size as size_of_nodes, log2, leading_zeros, bit_length, inc, dec, leaf_is_left,
}
use mls4rn.TreeMath.Navigation.{root, level, level_loop, parent as parent_of}
use mls4rn.TreeMath.Shape.{node}
use mls4rn.TreeMath.Paths.{direct_path as path_to_root, direct_path_loop}
use mls4rn.BinaryTree.Map.{get, insert, retain}
use mls4rn.BinaryTree.Tree.{
  ABinaryTree, tree_size, enumerate, leaf_by_index, parent_by_index, leaves as leaves_of_tree,
}
use mls4rn.BinaryTree.Diff.{
  empty_diff, grow_tree, shrink_tree, replace_leaf, replace_parent, parent_mut, leaf, leaves,
  raw_leaves, leaf_count, direct_path,
}
use mls4rn.BinaryTree.Sound.{IsTree, IsSound}
use mls4rn.BinaryTree.Edits.{Edits, none_yet, after, leaf_replaced, parent_replaced, Edits-IsSound}
use mls4rn.TreeSync.Nodes.{ParentNode, blank_node}
use mls4rn.TreeSync.Diff.{
  TreeSyncDiff, tree_full, trim_tree, trim_loop, rightmost_full_leaf, last_full, free_leaf_index,
  first_blank, update_leaf, blank_leaf, add_leaf, grow_loop, add_unmerged,
}
use mls4rn.TreeSync.Trim.{trim_tree-leaf}
use mls4rn.TreeSync.Leaves.{Rewritten, update_leaf-blank_leaf}
use mls4rn.TreeSync.Additions.{Added, add_leaf-leaf}
use mls4rn.TreeSync.Returns.{trimmed_leaf_returns}
use mls4rn.TreeSync.Resolution.{Resolution, filtered_direct_path, filtered_copath_resolutions}
use mls4rn.TreeSync.Resolved.{Reaches}
use mls4rn.TreeSync.Shown.{AllShown}
use mls4rn.TreeSync.Reached.{filtered_direct_path-Reaches}

abbrev group : ABinaryTree (Option ℕ) (Option ParentNode)
group = record {
  leaf_nodes = some 10 ∷ some 11 ∷ some 12 ∷ some 13 ∷ some 14 ∷ some 15 ∷ none ∷ none ∷ [];
  parent_nodes = none ∷ none ∷ none ∷ none ∷ none ∷ none ∷ none ∷ [];
  default_leaf = none;
  default_parent = none;
}

group-IsTree : IsTree group
group-IsTree = record {
  nodes = omega arith;
  has_leaf = omega arith;
  default_leaf = refl;
  default_parent = refl;
}

-- Without the members 4 and 5.
abbrev removed : TreeSyncDiff ℕ
removed = record {
  original_tree = group;
  leaf_diff = (4, none) ∷ (5, none) ∷ [];
  parent_diff = [];
  size = 15;
  default_leaf = none;
  default_parent = none;
}

edits : Edits (empty_diff group) removed
unfolding empty_diff replace_leaf tree_size size_of_nodes log2 leading_zeros bit_length ◌<<◌ insert
edits =
    after (after none_yet (leaf_replaced 4 none (omega arith) refl))
      (leaf_replaced 5 none (omega arith) refl)

removed-IsSound : IsSound removed
removed-IsSound = Edits-IsSound group-IsTree edits

abbrev cut : TreeSyncDiff ℕ
cut = record removed { leaf_diff = []; size = 7 }

trims : trim_tree removed ≡ cut
unfolding trim_tree trim_loop rightmost_full_leaf last_full leaves raw_leaves collect next next_item
    leaves_of_tree enumerate leaf_is_left shrink_tree retain dec
trims = refl

abbrev joined : TreeSyncDiff ℕ
joined = record removed { leaf_diff = (4, some 20) ∷ []; size = 15 }

abbrev joined_paths : TreeSyncDiff ℕ
joined_paths = record joined { parent_diff = (3, none) ∷ (4, none) ∷ (5, none) ∷ [] }

free_index : free_leaf_index cut ≡ 4
unfolding free_leaf_index first_blank leaves raw_leaves collect next next_item leaves_of_tree
    enumerate
free_index = refl

joins : add_leaf cut 20 ≡ some (ok (joined_paths, 4))
unfolding add_leaf grow_loop free_leaf_index first_blank leaves raw_leaves collect next next_item
    leaves_of_tree enumerate grow_tree inc ◌<<◌ ◌>>◌ replace_leaf insert direct_path path_to_root
    direct_path_loop root level level_loop parent_of tree_node log2 leading_zeros bit_length
    add_unmerged parent_mut replace_parent get parent_by_index
joins = refl

trimmed_and_joined :
    add_leaf (trim_tree removed) 20 ≡ some (ok (joined_paths, free_leaf_index (trim_tree removed)))
trimmed_and_joined = rw (trims, free_index) joins

-- The member 5, who was removed, is in the tree again.
trimmed_leaf_returns_example :
    (leaf removed 5 ≡ none)
    × (leaf (trim_tree removed) 5 ≡ none)
    × (leaf joined_paths 5 ≡ leaf_by_index group 5)
trimmed_leaf_returns_example =
    trimmed_leaf_returns removed joined_paths 20 5 removed-IsSound trimmed_and_joined
      (rw trims (omega arith)) (omega arith) (rw (trims, free_index) (omega arith))

trim_tree-leaf_example :
    IsSound (trim_tree removed)
    × (leaf (trim_tree removed) 3 ≡ leaf removed 3)
    × ((leaf_count (trim_tree removed) ≡ 1)
        ⊎ ((j : LeafNodeIndex) × (node : ℕ) × (leaf_count (trim_tree removed) / 2 ≤ j)
            × (leaf (trim_tree removed) j ≡ some node)))
trim_tree-leaf_example = trim_tree-leaf removed 3 removed-IsSound

update_leaf-blank_leaf_example :
    (path : List ParentNodeIndex) × (direct_path removed 3 ≡ some path)
    × ((d : TreeSyncDiff ℕ) × (update_leaf removed 30 3 ≡ some d)
        × Rewritten 3 (some 30) path removed d)
    × ((d : TreeSyncDiff ℕ) × (blank_leaf removed 3 ≡ some d) × Rewritten 3 none path removed d)
update_leaf-blank_leaf_example = update_leaf-blank_leaf removed 3 30 removed-IsSound (omega arith)

add_leaf-leaf_example :
    (add_leaf removed 20 ≡ some (err tree_full))
    ⊎ ((path : List ParentNodeIndex) × (d : TreeSyncDiff ℕ) × (add_leaf removed 20
          ≡ some (ok (d, free_leaf_index removed)))
        × Added (free_leaf_index removed) 20 path removed d)
add_leaf-leaf_example = add_leaf-leaf removed 20 removed-IsSound

-- The node above the leaves 2 and 3 has a key that the member 3 does not know yet.
abbrev keyed_node : ParentNode
keyed_node = record { encryption_key = 7 ∷ []; parent_hash = []; unmerged_leaves = 3 ∷ [] }

abbrev keyed : TreeSyncDiff ℕ
keyed = record removed { parent_diff = (2, some keyed_node) ∷ [] }

keyed-IsSound : IsSound keyed
unfolding replace_parent insert
keyed-IsSound =
    Edits-IsSound group-IsTree
      (after edits (parent_replaced 2 (some keyed_node) (omega arith) refl))

third_member : leaf keyed 3 ≡ some 13
unfolding leaf get leaf_by_index
third_member = refl

filtered_direct_path-Reaches_example :
    (path : List ParentNodeIndex) × (rs : List (Resolution ℕ)) × (n k : ℕ) × (r : Resolution ℕ)
    × (filtered_direct_path keyed 0 ≡ some path)
    × (filtered_copath_resolutions keyed 0 (1 ∷ []) ≡ some rs)
    × (length path ≡ length rs)
    × (get_elem? path n ≡ some (node k (0 / 2 ^ suc k)))
    × (3 / 2 ^ suc k ≡ 0 / 2 ^ suc k)
    × (get_elem? rs n ≡ some r)
    × Reaches 3 r
    × All (AllShown keyed (1 ∷ [])) rs
filtered_direct_path-Reaches_example =
    filtered_direct_path-Reaches keyed 0 3 (1 ∷ []) keyed-IsSound (omega arith) (omega arith)
      (omega arith) (13, third_member) refl
