-- ===== src/TreeMath/Index.antt =====
-- treemath.rs: leaf and parent indices, and the index of a node in the array.
use Prim.Native.Nat.{compare, Ordering}
use mls4rn.Prelude.{ℕ, ◌+◌, ◌*◌, ◌/◌, ◌%◌, ◌==◌, if◌then◌else◌, u32, sub32}

abbrev pub LeafNodeIndex : Type 0
LeafNodeIndex = ℕ

abbrev pub ParentNodeIndex : Type 0
ParentNodeIndex = ℕ

pub data TreeNodeIndex : Type 0 where
  leaf : LeafNodeIndex → TreeNodeIndex
  parent : ParentNodeIndex → TreeNodeIndex

abbrev pub leaf_to_tree_index : LeafNodeIndex → ℕ
leaf_to_tree_index i = u32 (i * 2)

abbrev pub leaf_from_tree_index : ℕ → LeafNodeIndex
leaf_from_tree_index n = n / 2

abbrev pub parent_to_tree_index : ParentNodeIndex → ℕ
parent_to_tree_index i = u32 (i * 2 + 1)

abbrev pub parent_from_tree_index : ℕ → ParentNodeIndex
parent_from_tree_index n = sub32 n 1 / 2

-- `TreeNodeIndex::new`
unfoldable pub tree_node : ℕ → TreeNodeIndex
tree_node n =
    if n % 2 == 0
    then TreeNodeIndex.leaf (leaf_from_tree_index n)
    else TreeNodeIndex.parent (parent_from_tree_index n)

-- `TreeNodeIndex::u32`
abbrev pub node_u32 : TreeNodeIndex → ℕ
node_u32 (leaf i) = leaf_to_tree_index i
node_u32 (parent i) = parent_to_tree_index i

-- `Ord for TreeNodeIndex`
abbrev pub node_cmp : TreeNodeIndex → TreeNodeIndex → Ordering
node_cmp a b = compare (node_u32 a) (node_u32 b)
