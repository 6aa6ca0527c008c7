-- ===== src/TreeSync/Leaves.antt =====
-- Updates, removals and additions of leaves.

use mls4rn.Prelude.{
  ◌<◌, ◌≡◌, refl, ◌∙◌, subst, ◌==◌, if◌then◌else◌, none, some, List, [], ◌∷◌, arith,
}
use mls4rn.TreeMath.Index.{LeafNodeIndex, ParentNodeIndex}
use mls4rn.BinaryTree.Map.{get-insert}
use mls4rn.BinaryTree.Diff.{
  leaf, parent, leaf_count, replace_leaf, direct_path, set_direct_path_to_node, replace_all,
  replace_parent,
}
use mls4rn.BinaryTree.Sound.{IsSound, replace_leaf-IsSound}
use mls4rn.BinaryTree.Paths.{
  contains, set_direct_path_to_node-IsSound, parent-replace_all, leaf-replace_all,
}
use mls4rn.TreeSync.Nodes.{TreeSyncLeafNode, TreeSyncParentNode, blank_node}
use mls4rn.TreeSync.Diff.{TreeSyncDiff, update_leaf, blank_leaf}

module _ {LeafNode : Type 0} where
  pub leaf-replace_leaf :
      (d : TreeSyncDiff LeafNode) (i j : LeafNodeIndex) (node : TreeSyncLeafNode LeafNode)
      → leaf (replace_leaf d i node) j ≡ (if i == j then node else leaf d j)
  unfolding leaf replace_leaf
  leaf-replace_leaf d i j node = ground (arith, get-insert i j node d.leaf_diff)

  pub size-replace_leaf :
      (d : TreeSyncDiff LeafNode) (i : LeafNodeIndex) (content : TreeSyncLeafNode LeafNode)
      → (replace_leaf d i content).size ≡ d.size
  unfolding replace_leaf
  size-replace_leaf d i content = refl

  pub parent-replace_leaf :
      (d : TreeSyncDiff LeafNode) (i : LeafNodeIndex) (content : TreeSyncLeafNode LeafNode)
      (j : ParentNodeIndex)
      → parent (replace_leaf d i content) j ≡ parent d j
  unfolding replace_leaf parent
  parent-replace_leaf d i content j = refl

  size-replace_all :
      (d : TreeSyncDiff LeafNode) (path : List ParentNodeIndex) (content : TreeSyncParentNode)
      → (replace_all d path content).size ≡ d.size
  unfolding replace_all replace_parent
  size-replace_all d [] content = refl
  size-replace_all d (j ∷ path) content = size-replace_all (replace_parent d j content) path content

  -- The leaf `i` holds `node`, the nodes of `path` are blank, and all else is as in `d`.
  pub record Rewritten (i : LeafNodeIndex) (node : TreeSyncLeafNode LeafNode)
      (path : List ParentNodeIndex) (d d' : TreeSyncDiff LeafNode) : Type 0 where
    pub sound : IsSound d'
    pub size : d'.size ≡ d.size
    pub leaves : (j : LeafNodeIndex) → leaf d' j ≡ (if i == j then node else leaf d j)
    pub parents :
        (j : ParentNodeIndex) → parent d' j ≡ (if contains path j then none else parent d j)

  write_leaf :
      (d : TreeSyncDiff LeafNode) (i : LeafNodeIndex) (node : TreeSyncLeafNode LeafNode)
      → IsSound d
      → i < leaf_count d
      → (path : List ParentNodeIndex) × (direct_path d i ≡ some path)
        × (d' : TreeSyncDiff LeafNode) × (set_direct_path_to_node (replace_leaf d i node) i none
            ≡ some d')
        × Rewritten i node path d d'
  write_leaf d i node s lt =
      let e = replace_leaf d i node in
      let (path, found, written, sound) =
        set_direct_path_to_node-IsSound e i none (inside lt) (replace_leaf-IsSound d i node lt s) in
      (
        path,
        same_path found,
        replace_all e path none,
        written,
        record {
          sound = sound;
          size = size-replace_all e path none ∙ size-replace_leaf d i node;
          leaves = λ j. leaf-replace_all e path none j ∙ leaf-replace_leaf d i j node;
          parents = λ j. parent-replace_all e path j none ∙ same_parent path j;
        },
      )
    where
      inside : i < leaf_count d → i < leaf_count (replace_leaf d i node)
      inside h = unfold replace_leaf in h

      same_path :
          {path : List ParentNodeIndex}
          → direct_path (replace_leaf d i node) i ≡ some path
          → direct_path d i ≡ some path
      same_path h = unfold replace_leaf direct_path in h

      same_parent :
          (path : List ParentNodeIndex) (j : ParentNodeIndex)
          → (if contains path j then none else parent (replace_leaf d i node) j)
            ≡ (if contains path j then none else parent d j)
      same_parent path j = unfold replace_leaf parent in refl

  -- Updating and blanking a leaf in the tree of a sound diff, be it full or blank: the direct path of
  -- the leaf is found, the leaf is the new one or blank, the nodes of the path are blank, all other
  -- nodes stay as they are, and the size of the tree stays, since nothing is trimmed.
  pub update_leaf-blank_leaf :
      (d : TreeSyncDiff LeafNode) (i : LeafNodeIndex) (node : LeafNode)
      → IsSound d
      → i < leaf_count d
      → (path : List ParentNodeIndex) × (direct_path d i ≡ some path)
        × ((d' : TreeSyncDiff LeafNode) × (update_leaf d node i ≡ some d')
            × Rewritten i (some node) path d d')
        × ((d' : TreeSyncDiff LeafNode) × (blank_leaf d i ≡ some d') × Rewritten i none path d d')
  unfolding update_leaf blank_leaf
  update_leaf-blank_leaf d i node s lt =
      let (path, found, d1, updated, r1) = write_leaf d i (some node) s lt in
      let (path', found', d2, blanked, r2) = write_leaf d i none s lt in
      let same : path' ≡ path = cc in
      (path, found, (d1, updated, r1), (d2, blanked, subst (λ q. Rewritten i none q d d2) same r2))
