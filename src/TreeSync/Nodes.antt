-- ===== src/TreeSync/Nodes.antt =====
-- parent_node.rs and treesync_node.rs: the nodes of the ratchet tree.
use mls4rn.Prelude.{ℕ, ltb, if◌then◌else◌, Option, none, List, [], ◌∷◌}
use mls4rn.TreeMath.Index.{LeafNodeIndex}
use mls4rn.BinaryTree.Tree.{Default}

abbrev pub Bytes : Type 0
Bytes = List ℕ

-- `UnmergedLeaves`, a sorted list.
abbrev pub UnmergedLeaves : Type 0
UnmergedLeaves = List LeafNodeIndex

pub record ParentNode : Type 0 where
  pub encryption_key : Bytes
  pub parent_hash : Bytes
  pub unmerged_leaves : UnmergedLeaves

-- `From<EncryptionKey> for ParentNode`
abbrev pub parent_of_key : Bytes → ParentNode
parent_of_key key = record { encryption_key = key; parent_hash = []; unmerged_leaves = [] }

-- `UnmergedLeaves::add`: the binary search in a sorted list gives the place before the first leaf
-- that is not smaller.
unfoldable pub add_sorted : LeafNodeIndex → UnmergedLeaves → UnmergedLeaves
add_sorted i [] = i ∷ []
add_sorted i (j ∷ leaves) = if ltb j i then j ∷ add_sorted i leaves else i ∷ j ∷ leaves

abbrev pub add_unmerged_leaf : LeafNodeIndex → ParentNode → ParentNode
add_unmerged_leaf i p = record p { unmerged_leaves = add_sorted i p.unmerged_leaves }

-- The structs with the one field `node`.
abbrev pub TreeSyncLeafNode : Type 0 → Type 0
TreeSyncLeafNode LeafNode = Option LeafNode

abbrev pub TreeSyncParentNode : Type 0
TreeSyncParentNode = Option ParentNode

-- `blank` of both, which is their default.
instance abbrev pub blank_node : {A : Type 0} → Default (Option A)
blank_node = record { default = none }
