-- ===== src/TreeMath/Navigation.antt =====
-- treemath.rs: levels, the root, children, parents and siblings.
use Prim.Native.Nat.{Ordering, bit_and, bit_or, bit_xor, compare}
use mls4rn.Prelude.{ℕ, zero, suc, ◌+◌, ◌-◌, ◌==◌, if◌then◌else◌, sub32, ◌<<◌, ◌>>◌}
use mls4rn.TreeMath.Index.{
  ParentNodeIndex, TreeNodeIndex, parent_to_tree_index, parent_from_tree_index, tree_node, node_u32,
}
use mls4rn.TreeMath.Size.{TreeSize, log2}

-- `while ((x >> k) & 0x01) == 1 { k += 1 }`, for at most `fuel` rounds.
unfoldable pub level_loop : ℕ → ℕ → ℕ → ℕ
level_loop zero x k = k
level_loop (suc fuel) x k =
    let rest = level_loop fuel x (k + 1) in if bit_and (x >> k) 1 == 1 then rest else k

-- A word has 32 digits, so that 32 rounds meet a zero digit, unless all are ones.
unfoldable pub level : ℕ → ℕ
unfolding level_loop
level x = if bit_and x 1 == 0 then 0 else level_loop 32 x 0

unfoldable pub root : TreeSize → TreeNodeIndex
root s = tree_node (sub32 (1 << log2 s) 1)

-- The level of a parent is at least 1.
unfoldable pub left : ParentNodeIndex → TreeNodeIndex
left i = let x = parent_to_tree_index i in let k = level x in tree_node (bit_xor x (1 << (k - 1)))

unfoldable pub right : ParentNodeIndex → TreeNodeIndex
right i = let x = parent_to_tree_index i in let k = level x in tree_node (bit_xor x (3 << (k - 1)))

unfoldable pub parent : TreeNodeIndex → ParentNodeIndex
parent n =
    let x = node_u32 n in
    let k = level x in
    let b = bit_and (x >> (k + 1)) 1 in
    parent_from_tree_index (bit_xor (bit_or x (1 << k)) (b << (k + 1)))

-- The `match` on how a node compares with its parent.
abbrev pub other_child : Ordering → ParentNodeIndex → TreeNodeIndex
other_child Ordering.lt p = right p
other_child Ordering.gt p = left p
other_child Ordering.eq p = left p

unfoldable pub sibling : TreeNodeIndex → TreeNodeIndex
sibling n = let p = parent n in other_child (compare (node_u32 n) (parent_to_tree_index p)) p
