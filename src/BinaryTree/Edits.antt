-- ===== src/BinaryTree/Edits.antt =====
-- The changes that a diff goes through from the tree on.
use mls4rn.Prelude.{◌<◌, ◌≡◌, subst, some, Result, ok, err, IfOk}
use mls4rn.TreeMath.Index.{LeafNodeIndex, ParentNodeIndex}
use mls4rn.BinaryTree.Tree.{Default, ABinaryTree}
use mls4rn.BinaryTree.Diff.{
  AbDiff, empty_diff, grow_tree, shrink_tree, replace_leaf, replace_parent, parent_mut,
  set_direct_path_to_node, replace_all, leaf_count, parent_count,
}
use mls4rn.BinaryTree.Sound.{
  IsTree, IsSound, empty_diff-IsSound, grow_tree-IsSound, shrink_tree-IsSound, replace_leaf-IsSound,
  replace_parent-IsSound, parent_mut-IsSound,
}
use mls4rn.BinaryTree.Paths.{set_direct_path_to_node-IsSound}

module _ {L P : Type 0} where
  -- A call that changes the diff, with the debug assertions of the source on the index.
  pub data Edit (d : AbDiff L P) : AbDiff L P → Type 0 where
    grown : {d' : AbDiff L P} → grow_tree d ≡ ok d' → Edit d d'
    shrunk : {d' : AbDiff L P} → shrink_tree d ≡ ok d' → Edit d d'
    leaf_replaced :
        {d' : AbDiff L P} (i : LeafNodeIndex) (node : L)
        → i < leaf_count d
        → d' ≡ replace_leaf d i node
        → Edit d d'
    parent_replaced :
        {d' : AbDiff L P} (i : ParentNodeIndex) (node : P)
        → i < parent_count d
        → d' ≡ replace_parent d i node
        → Edit d d'
    parent_edited :
        {d' : AbDiff L P} (i : ParentNodeIndex) (edit : P → P)
        → i < parent_count d
        → d' ≡ parent_mut d i edit
        → Edit d d'
    path_replaced :
        {d' : AbDiff L P} (i : LeafNodeIndex) (node : P)
        → i < leaf_count d
        → set_direct_path_to_node d i node ≡ some d'
        → Edit d d'

  pub data Edits (d : AbDiff L P) : AbDiff L P → Type 0 where
    none_yet : Edits d d
    after : {e f : AbDiff L P} → Edits d e → Edit e f → Edits d f

module _ {L P : Type 0} ⦃l : Default L⦄ ⦃p : Default P⦄ where
  pub IsSound-ok :
      {E : Type 0} (r : Result E (AbDiff L P)) (d : AbDiff L P)
      → IfOk IsSound r
      → r ≡ ok d
      → IsSound d
  IsSound-ok (ok d') d sound e = let same : d' ≡ d = cc in subst IsSound same sound
  IsSound-ok (err failure) d sound e = cc

  Edit-IsSound : {d d' : AbDiff L P} → Edit d d' → IsSound d → IsSound d'
  Edit-IsSound {d} {d'} (grown e) s = IsSound-ok (grow_tree d) d' (grow_tree-IsSound d s) e
  Edit-IsSound {d} {d'} (shrunk e) s = IsSound-ok (shrink_tree d) d' (shrink_tree-IsSound d s) e
  Edit-IsSound {d} (leaf_replaced i node lt e) s = rw e (replace_leaf-IsSound d i node lt s)
  Edit-IsSound {d} (parent_replaced i node lt e) s = rw e (replace_parent-IsSound d i node lt s)
  Edit-IsSound {d} (parent_edited i edit lt e) s = rw e (parent_mut-IsSound d i edit lt s)
  Edit-IsSound {d} {d'} (path_replaced i node lt e) s =
      let (path, _, written, sound) = set_direct_path_to_node-IsSound d i node lt s in
      let same : replace_all d path node ≡ d' = cc in subst IsSound same sound

  Edits-IsSound_from : {d d' : AbDiff L P} → Edits d d' → IsSound d → IsSound d'
  Edits-IsSound_from none_yet s = s
  Edits-IsSound_from (after before e) s = Edit-IsSound e (Edits-IsSound_from before s)

  -- Whatever sequence of changes is made to the diff of a tree, its keys stay in order and inside
  -- the tree, and its size stays that of a full tree.
  pub Edits-IsSound :
      {t : ABinaryTree L P} {d : AbDiff L P} → IsTree t → Edits (empty_diff t) d → IsSound d
  Edits-IsSound {t} tree es = Edits-IsSound_from es (empty_diff-IsSound t tree)
