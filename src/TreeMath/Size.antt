-- ===== src/TreeMath/Size.antt =====
-- treemath.rs: `log2`, and the size of a tree.
use mls4rn.Prelude.{
  ℕ, zero, suc, ◌+◌, ◌-◌, ◌*◌, ◌/◌, Bool, ◌==◌, ltb, leb, if◌then◌else◌, u32, sub32, ◌<<◌,
}
use mls4rn.TreeMath.Index.{LeafNodeIndex, TreeNodeIndex, node_u32}

abbrev pub TreeSize : Type 0
TreeSize = ℕ

abbrev pub max_tree_size : ℕ
max_tree_size = 1 << 30

abbrev pub min_tree_size : ℕ
min_tree_size = 1

-- The number of binary digits of `x`, as far as `rounds` go.
unfoldable pub bit_length : ℕ → ℕ → ℕ
bit_length zero x = 0
bit_length (suc rounds) x = if x == 0 then 0 else suc (bit_length rounds (x / 2))

-- `u32::leading_zeros`
unfoldable pub leading_zeros : ℕ → ℕ
leading_zeros x = 32 - bit_length 32 x

unfoldable pub log2 : ℕ → ℕ
log2 x = if x == 0 then 0 else 31 - leading_zeros x

-- `TreeSize::new`
unfoldable pub tree_size : ℕ → TreeSize
tree_size nodes = sub32 (1 << (log2 nodes + 1)) 1

unfoldable pub from_leaf_count : ℕ → TreeSize
from_leaf_count leaves = tree_size (u32 (leaves * 2))

abbrev pub leaf_count : TreeSize → ℕ
leaf_count s = s / 2 + 1

abbrev pub parent_count : TreeSize → ℕ
parent_count s = s / 2

unfoldable pub leaf_is_left : TreeSize → LeafNodeIndex → Bool
leaf_is_left s i = ltb i (leaf_count s / 2)

unfoldable pub inc : TreeSize → TreeSize
inc s = u32 (s * 2 + 1)

-- `s.div_ceil(2) - 1`
unfoldable pub dec : TreeSize → TreeSize
dec s = if leb 2 s then (s + 1) / 2 - 1 else 0

unfoldable pub is_node_in_tree : TreeNodeIndex → TreeSize → Bool
is_node_in_tree n s = ltb (node_u32 n) s

unfoldable pub node_width : ℕ → ℕ
node_width n = if n == 0 then 0 else 2 * (n - 1) + 1
