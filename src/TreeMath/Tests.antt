-- ===== src/TreeMath/Tests.antt =====
-- Runs of the index arithmetic, those of the source's own tests among them.
use mls4rn.Prelude.{
  ◌≡◌, ◌≢◌, refl, some, [], ◌∷◌, List, ℕ, suc, ◌-◌, ◌/◌, ◌^◌, ◌<◌, ◌≤◌, arith, length, get_elem?,
  ◌<<◌, ◌>>◌,
}
use mls4rn.TreeMath.Index.{TreeNodeIndex, tree_node}
use mls4rn.TreeMath.Size.{tree_size, log2, leading_zeros, bit_length}
use mls4rn.TreeMath.Index.{ParentNodeIndex, node_u32, parent_to_tree_index}
use mls4rn.TreeMath.Size.{leaf_count, parent_count, inc, dec}
use mls4rn.TreeMath.Inside.{IsFull}
use mls4rn.TreeMath.Shape.{node, at}
use mls4rn.TreeMath.Family.{family}
use mls4rn.TreeMath.Sizes.{tree_size_smallest, full_counts}
use mls4rn.TreeMath.DirectPath.{direct_path_lem, ancestors as ancestors_above}
use mls4rn.TreeMath.Copath.{Covers, copath_complete}
use mls4rn.TreeMath.Disjoint.{copath_disjoint}
use mls4rn.TreeMath.CommonPath.{common_ancestor}
use mls4rn.TreeMath.Navigation.{level, root, left, right, parent, sibling}
use mls4rn.TreeMath.Paths.{
  direct_path, direct_path_loop, ancestor_loop, common_prefix, copath, lowest_common_ancestor,
  common_direct_path,
}

sizes :
    tree_size 1 ∷ tree_size 3 ∷ tree_size 5 ∷ tree_size 9 ∷ tree_size 17 ∷ []
    ≡ 1 ∷ 3 ∷ 7 ∷ 15 ∷ 31 ∷ []
unfolding tree_size log2 leading_zeros bit_length ◌<<◌
sizes = refl

levels :
    level 0 ∷ level 1 ∷ level 3 ∷ level 7 ∷ level 11 ∷ level 0x7fff_ffff ∷ []
    ≡ 0 ∷ 1 ∷ 2 ∷ 3 ∷ 2 ∷ 31 ∷ []
unfolding level ◌>>◌
levels = refl

children :
    (left 3 ≡ TreeNodeIndex.parent 1)
    × (right 3 ≡ TreeNodeIndex.parent 5)
    × (left 2 ≡ TreeNodeIndex.leaf 2)
unfolding left right level tree_node ◌<<◌ ◌>>◌
children = (refl, refl, refl)

paths : direct_path 5 15 ≡ some (4 ∷ 5 ∷ 3 ∷ [])
unfolding direct_path direct_path_loop parent root level log2 leading_zeros bit_length tree_node
    ◌<<◌ ◌>>◌
paths = refl

copaths :
    copath 5 15 ≡ some (TreeNodeIndex.leaf 4 ∷ TreeNodeIndex.parent 6 ∷ TreeNodeIndex.parent 1 ∷ [])
unfolding copath direct_path direct_path_loop sibling left right parent root level log2
    leading_zeros bit_length tree_node ◌<<◌ ◌>>◌
copaths = refl

ancestors :
    lowest_common_ancestor 4 7 ∷ lowest_common_ancestor 0 1 ∷ lowest_common_ancestor 3 4 ∷ []
    ≡ 5 ∷ 0 ∷ 3 ∷ []
unfolding lowest_common_ancestor ancestor_loop level ◌<<◌ ◌>>◌
ancestors = refl

common : common_direct_path 4 7 15 ≡ some (5 ∷ 3 ∷ [])
unfolding common_direct_path common_prefix direct_path direct_path_loop parent root level log2
    leading_zeros bit_length tree_node ◌<<◌ ◌>>◌
common = refl

family_example :
    (parent (left 3) ≡ 3)
    × (parent (right 3) ≡ 3)
    × (sibling (left 3) ≡ right 3)
    × (sibling (right 3) ≡ left 3)
    × (node_u32 (left 3) < parent_to_tree_index 3)
    × (parent_to_tree_index 3 < node_u32 (right 3))
family_example = family 3 (omega arith)

tree_size_smallest_example :
    ((h : ℕ) × IsFull h (tree_size 5)) × (5 ≤ tree_size 5) × (tree_size 5 ≤ 2 ^ suc 2 - 1)
tree_size_smallest_example = tree_size_smallest 5 2 (omega arith) (omega arith) (omega arith)

full_counts_example : (leaf_count 7 ≡ 4) × (parent_count 7 ≡ 3) × (inc 7 ≡ 15) × (dec 15 ≡ 7)
full_counts_example = full_counts 2 (omega arith)

direct_path_lem_example :
    (path : List ParentNodeIndex) × (direct_path 5 (2 ^ suc 3 - 1) ≡ some path)
    × (length path ≡ 3)
    × (get_elem? path 1 ≡ some (node 1 (5 / 2 ^ suc 1)))
direct_path_lem_example = direct_path_lem 3 1 5 (omega arith) (omega arith) (omega arith)

copath_complete_example :
    (path : List TreeNodeIndex) × (n j : ℕ) × (copath 5 (2 ^ suc 3 - 1) ≡ some path)
    × (length path ≡ 3)
    × (get_elem? path n ≡ some (at n j))
    × Covers n j 2
copath_complete_example =
    copath_complete 3 5 2 (omega arith) (omega arith) (omega arith) (omega arith) (omega arith)

copath_disjoint_example : (◌≡◌ {A = ℕ} 2 2) × ◌≢◌ {A = ℕ} 2 5
copath_disjoint_example =
    copath_disjoint 3 2 2 2 0 2 0 5 2
      (TreeNodeIndex.leaf 4 ∷ TreeNodeIndex.parent 6 ∷ TreeNodeIndex.parent 1 ∷ []) (omega arith)
      (omega arith) (omega arith) copaths refl refl refl refl

common_ancestor_example :
    (n : ℕ) × (n < 3)
    × (4 / 2 ^ n ≢ 7 / 2 ^ n)
    × (4 / 2 ^ suc n ≡ 7 / 2 ^ suc n)
    × (lowest_common_ancestor 4 7 ≡ node n (4 / 2 ^ suc n))
    × (common_direct_path 4 7 (2 ^ suc 3 - 1) ≡ some (ancestors_above (3 - n) n (4 / 2 ^ n)))
common_ancestor_example =
    common_ancestor 3 4 7 (omega arith) (omega arith) (omega arith) (omega arith)
