-- ===== src/TreeSync/Resolution.antt =====
-- diff.rs: resolutions, and the filtered direct path and copath.

use mls4rn.Prelude.Options.{◌>>=◌}
use mls4rn.Prelude.{
  ℕ, zero, suc, ◌==◌, Bool, true, false, if◌then◌else◌, Option, none, some, List, [], ◌∷◌, ◌++◌,
}
use mls4rn.Prelude.Equality.{contains, nat_Eq}
use mls4rn.TreeMath.Index.{LeafNodeIndex, ParentNodeIndex, TreeNodeIndex}
use mls4rn.TreeMath.Size.{min_tree_size}
use mls4rn.TreeMath.Navigation.{left, right}
use mls4rn.BinaryTree.Diff.{leaf as leaf_of, parent as parent_of, leaf_count, direct_path, copath}
use mls4rn.TreeSync.Nodes.{ParentNode}
use mls4rn.TreeSync.Diff.{TreeSyncDiff}

pub data NodeReference (LeafNode : Type 0) : Type 0 where
  leaf : LeafNode → NodeReference LeafNode
  parent : ParentNode → NodeReference LeafNode

-- A resolution is a list of nodes with their indices.
abbrev pub Resolution : Type 0 → Type 0
Resolution LeafNode = List (TreeNodeIndex × NodeReference LeafNode)

module _ {A B : Type 0} where
  -- The loop over a path: `none` if it is so for one of the nodes.
  unfoldable pub try_map : (A → Option B) → List A → Option (List B)
  try_map f [] = some []
  try_map f (x ∷ xs) = f x >>= λ y. try_map f xs >>= λ ys. some (y ∷ ys)

abbrev pub is_empty : {A : Type 0} → List A → Bool
is_empty [] = true
is_empty (x ∷ xs) = false

-- `zip` and `filter_map`: what stands beside a list that is not empty.
unfoldable pub beside_full : {A B : Type 0} → List A → List (List B) → List A
beside_full (x ∷ xs) (r ∷ rs) =
    let rest = beside_full xs rs in if is_empty r then rest else x ∷ rest
beside_full _ _ = []

module _ {LeafNode : Type 0} where
  -- A leaf as its own resolution.
  abbrev pub leaf_entry : LeafNodeIndex → Option LeafNode → Resolution LeafNode
  leaf_entry i (some node) = (TreeNodeIndex.leaf i, NodeReference.leaf node) ∷ []
  leaf_entry i none = []

  module _ (d : TreeSyncDiff LeafNode) (excluded : List LeafNodeIndex) where
    -- The arm for a leaf. An unmerged leaf is treated in the same way, since the assertion that it is
    -- not blank is made in debug builds only.
    unfoldable pub leaf_resolution : LeafNodeIndex → Resolution LeafNode
    leaf_resolution i = if contains excluded i then [] else leaf_entry i (leaf_of d i)

    -- The loop over the unmerged leaves of a node.
    unfoldable pub unmerged_resolution : List LeafNodeIndex → Resolution LeafNode
    unmerged_resolution [] = []
    unmerged_resolution (i ∷ leaves) = leaf_resolution i ++ unmerged_resolution leaves

    -- `none` if the recursion is deeper than `fuel`.
    unfoldable pub resolution : ℕ → TreeNodeIndex → Option (Resolution LeafNode)
    resolution zero x = none
    resolution (suc fuel) (TreeNodeIndex.leaf i) = some (leaf_resolution i)
    resolution (suc fuel) (TreeNodeIndex.parent i) = elim (parent_of d i) [
      | some node ↦ some (
          (TreeNodeIndex.parent i, NodeReference.parent node)
          ∷ unmerged_resolution node.unmerged_leaves)
      | none ↦ resolution fuel (left i) >>= λ l. resolution fuel (right i) >>= λ r. some (l ++ r)
    ]

  -- The filter of `filtered_copath_resolutions` on one resolution.
  unfoldable pub without : List LeafNodeIndex → Resolution LeafNode → Resolution LeafNode
  without excluded [] = []
  without excluded ((TreeNodeIndex.leaf i, node) ∷ rest) =
      let kept = without excluded rest in
      if contains excluded i then kept else (TreeNodeIndex.leaf i, node) ∷ kept
  without excluded ((TreeNodeIndex.parent i, node) ∷ rest) =
      (TreeNodeIndex.parent i, node) ∷ without excluded rest

  -- The loop of `filtered_copath_resolutions` over the resolutions.
  unfoldable pub filter_resolutions :
      List LeafNodeIndex → List (Resolution LeafNode) → List (Resolution LeafNode)
  filter_resolutions excluded [] = []
  filter_resolutions excluded (r ∷ rs) =
      let rest = filter_resolutions excluded rs in
      if is_empty r then rest else without excluded r ∷ rest

  module _ (d : TreeSyncDiff LeafNode) (i : LeafNodeIndex) where
    -- A tree has at most 31 levels.
    unfoldable pub copath_resolutions : Option (List (Resolution LeafNode))
    copath_resolutions =
        if leaf_count d == min_tree_size
        then some []
        else copath d i >>= λ path. try_map (resolution d [] 32) path

    unfoldable pub filtered_direct_path : Option (List ParentNodeIndex)
    filtered_direct_path =
        direct_path d i >>= λ path. copath_resolutions >>= λ rs. some (beside_full path rs)

    unfoldable pub filtered_copath : Option (List TreeNodeIndex)
    filtered_copath = copath d i >>= λ path. copath_resolutions >>= λ rs. some (beside_full path rs)

    unfoldable pub filtered_copath_resolutions :
        List LeafNodeIndex → Option (List (Resolution LeafNode))
    filtered_copath_resolutions exclusion_list =
        if leaf_count d == 1
        then some []
        else copath d i >>= λ path.
            try_map (resolution d [] 32) path >>= λ rs. some (filter_resolutions exclusion_list rs)
