-- ===== src/TreeMath/Paths.antt =====
-- treemath.rs: direct paths, copaths and common ancestors.
use mls4rn.Prelude.Options.{◌>>=◌}
use mathlib.Core.Option
use mls4rn.Prelude.{
  ℕ, zero, suc, ◌+◌, ◌-◌, ◌==◌, leb, ◌&&◌, if◌then◌else◌, u32, sub32, ◌<<◌, ◌>>◌, Option, none,
  some, List, [], ◌∷◌, ◌++◌, map, reverse,
}
use mls4rn.TreeMath.Index.{
  LeafNodeIndex, ParentNodeIndex, TreeNodeIndex, leaf_to_tree_index, parent_to_tree_index,
  parent_from_tree_index, tree_node, node_u32,
}
use mls4rn.TreeMath.Size.{TreeSize}
use mls4rn.TreeMath.Navigation.{level, root, parent, sibling}

-- `while x != r`, for at most `fuel` rounds; `none` if the root is not met.
unfoldable pub direct_path_loop : ℕ → ℕ → ℕ → Option (List ParentNodeIndex)
direct_path_loop zero x r = if x == r then some [] else none
direct_path_loop (suc fuel) x r =
    let p = parent (tree_node x) in
    let rest = Option.map (◌∷◌ p) (direct_path_loop fuel (parent_to_tree_index p) r) in
    if x == r then some [] else rest

unfoldable pub direct_path : LeafNodeIndex → TreeSize → Option (List ParentNodeIndex)
direct_path i s = direct_path_loop 32 (leaf_to_tree_index i) (node_u32 (root s))

-- `Vec::pop`, with the removed element dropped.
abbrev pub pop {ℓ} : {A : Type ℓ} → List A → List A
pop [] = []
pop (x ∷ []) = []
pop (x ∷ y ∷ xs) = x ∷ pop (y ∷ xs)

unfoldable pub copath : LeafNodeIndex → TreeSize → Option (List TreeNodeIndex)
copath i s =
    Option.map
      (λ path. map sibling (TreeNodeIndex.leaf i ∷ [] ++ map TreeNodeIndex.parent (pop path)))
      (direct_path i s)

-- `while xn != yn { xn >>= 1; yn >>= 1; k += 1 }`, for at most `fuel` rounds: the last `xn` and `k`.
unfoldable pub ancestor_loop : ℕ → ℕ → ℕ → ℕ → ℕ × ℕ
ancestor_loop zero xn yn k = (xn, k)
ancestor_loop (suc fuel) xn yn k =
    let rest = ancestor_loop fuel (xn >> 1) (yn >> 1) (k + 1) in if xn == yn then (xn, k) else rest

-- The two branches for an index inside the subtree of the other, and the search upwards. A word is
-- 0 after 32 rounds.
unfoldable pub lowest_common_ancestor : LeafNodeIndex → LeafNodeIndex → ParentNodeIndex
lowest_common_ancestor i j =
    let x = leaf_to_tree_index i in
    let y = leaf_to_tree_index j in
    let lx = level x + 1 in
    let ly = level y + 1 in
    if leb lx ly && (x >> ly == y >> ly)
    then parent_from_tree_index y
    else if leb ly lx && (x >> lx == y >> lx)
    then parent_from_tree_index x
    else let (xn, k) = ancestor_loop 32 x y 0 in
      parent_from_tree_index (sub32 (u32 ((xn << k) + (1 << (k - 1)))) 1)

-- The longest common prefix: the loop over both paths from the root, up to the first difference.
unfoldable pub common_prefix : List ParentNodeIndex → List ParentNodeIndex → List ParentNodeIndex
common_prefix [] ys = []
common_prefix (x ∷ xs) [] = []
common_prefix (x ∷ xs) (y ∷ ys) = if x == y then x ∷ common_prefix xs ys else []

unfoldable pub common_direct_path :
    LeafNodeIndex → LeafNodeIndex → TreeSize → Option (List ParentNodeIndex)
common_direct_path i j s = do
  xs ← direct_path i s
  ys ← direct_path j s
  some (reverse (common_prefix (reverse xs) (reverse ys)))
