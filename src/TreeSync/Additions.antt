-- ===== src/TreeSync/Additions.antt =====
-- `add_leaf`: growing the tree as far as the new leaf needs, and what is in it then.
use mathlib.Core.Option
use mls4rn.Prelude.{
  ◌||◌, ◌/◌, ◌<◌, ◌≡◌, refl, sym, ◌∙◌, ap, subst, ◌⊎◌, inl, inr, Bool, true, false, ◌==◌, ==→≡, ltb,
  if◌then◌else◌, none, some, List, [], ◌∷◌, arith, ok, err, All,
}
use mls4rn.TreeMath.Index.{LeafNodeIndex, ParentNodeIndex}
use mls4rn.TreeMath.Size.{leaf_count as leaves_of}
use mls4rn.BinaryTree.Tree.{leaf_by_index}
use mls4rn.BinaryTree.Diff.{
  leaf, parent, leaf_count, parent_count, replace_leaf, parent_mut, direct_path,
}
use mls4rn.BinaryTree.Sound.{IsSound, replace_leaf-IsSound, parent_mut-IsSound}
use mls4rn.TreeMath.Paths.{direct_path as path_to_root}
use mls4rn.BinaryTree.Paths.{
  path_inside, path-Distinct, contains, Distinct, size-parent_mut, leaf-parent_mut,
  parent-parent_mut,
}
use mls4rn.TreeSync.Nodes.{TreeSyncParentNode, blank_node, add_unmerged_leaf}
use mls4rn.TreeSync.Leaves.{leaf-replace_leaf, size-replace_leaf, parent-replace_leaf}
use mls4rn.TreeSync.Diff.{
  TreeSyncDiff, tree_full, free_leaf_index, add_unmerged, with_leaf, add_leaf,
}
use mls4rn.TreeSync.Growth.{Grown, grow_loop_lem}

-- A leaf is entered among the unmerged leaves of a node that is not blank.
abbrev pub enter : LeafNodeIndex → TreeSyncParentNode → TreeSyncParentNode
enter i = Option.map (add_unmerged_leaf i)

module _ {LeafNode : Type 0} where
  add_unmerged-IsSound :
      (i : LeafNodeIndex) (d : TreeSyncDiff LeafNode) (path : List ParentNodeIndex)
      → All (λ p. p < parent_count d) path
      → IsSound d
      → IsSound (add_unmerged i d path)
  unfolding add_unmerged
  add_unmerged-IsSound i d [] inside s = s
  add_unmerged-IsSound i d (p ∷ path) inside s =
      add_unmerged-IsSound i (parent_mut d p (enter i)) path
        (subst (λ n. All (λ q. q < n / 2) path) (sym (size-parent_mut d p (enter i))) inside.1)
        (parent_mut-IsSound d p (enter i) inside.0 s)

  size-add_unmerged :
      (i : LeafNodeIndex) (d : TreeSyncDiff LeafNode) (path : List ParentNodeIndex)
      → (add_unmerged i d path).size ≡ d.size
  unfolding add_unmerged
  size-add_unmerged i d [] = refl
  size-add_unmerged i d (p ∷ path) =
      size-add_unmerged i (parent_mut d p (enter i)) path ∙ size-parent_mut d p (enter i)

  leaf-add_unmerged :
      (i j : LeafNodeIndex) (d : TreeSyncDiff LeafNode) (path : List ParentNodeIndex)
      → leaf (add_unmerged i d path) j ≡ leaf d j
  unfolding add_unmerged
  leaf-add_unmerged i j d [] = refl
  leaf-add_unmerged i j d (p ∷ path) =
      leaf-add_unmerged i j (parent_mut d p (enter i)) path ∙ leaf-parent_mut d p (enter i) j

  parent-add_unmerged :
      (i : LeafNodeIndex) (j : ParentNodeIndex) (d : TreeSyncDiff LeafNode)
      (path : List ParentNodeIndex)
      → Distinct path
      → parent (add_unmerged i d path) j
        ≡ (if contains path j then enter i (parent d j) else parent d j)
  unfolding add_unmerged
  parent-add_unmerged i j d [] apart = refl
  parent-add_unmerged i j d (p ∷ path) apart =
      parent-add_unmerged i j (parent_mut d p (enter i)) path apart.1
      ∙ (rw (parent-parent_mut d p j (enter i)) (joined (p == j) refl))
    where
      joined :
          (t : Bool)
          → (p == j) ≡ t
          → (if contains path j
              then enter i (if t then enter i (parent d p) else parent d j)
              else if t
              then enter i (parent d p)
              else parent d j)
            ≡ (if t || contains path j then enter i (parent d j) else parent d j)
      joined true e = let same = ==→≡ p j e in rw (← same, apart.0) refl
      joined false e = refl

  -- What `d'` is after the leaf `i` is added to `d`, with `path` above it.
  pub record Added (i : LeafNodeIndex) (node : LeafNode) (path : List ParentNodeIndex)
      (d d' : TreeSyncDiff LeafNode) : Type 0 where
    pub sound : IsSound d'
    pub reached : i < leaf_count d'
    pub found : direct_path d' i ≡ some path
    pub leaves :
        (j : LeafNodeIndex)
        → leaf d' j ≡ (
            if i == j
            then some node
            else if ltb j (leaf_count d)
            then leaf d j
            else if ltb j (leaf_count d')
            then leaf_by_index d.original_tree j
            else none)
    pub parents :
        (j : ParentNodeIndex)
        → parent d' j ≡ (if contains path j then enter i (parent d j) else parent d j)

  add_to_grown :
      (i : LeafNodeIndex) (node : LeafNode) (d e : TreeSyncDiff LeafNode)
      → Grown i d e
      → (path : List ParentNodeIndex) × (d' : TreeSyncDiff LeafNode) × (with_leaf i node e
          ≡ some (ok (d', i)))
        × Added i node path d d'
  add_to_grown i node d e g =
      let f = replace_leaf e i (some node) in
      let s : IsSound f = replace_leaf-IsSound e i (some node) g.reached g.sound in
      let (h, full) = s.full in
      let in_tree : i < leaf_count f = inside g.reached in
      let (path, found, within) = path_inside f.size h i full in_tree in
      let found' : direct_path f i ≡ some path = unfold direct_path in found in
      let d' = add_unmerged i f path in
      let size : d'.size ≡ f.size = size-add_unmerged i f path in
      (
        path,
        d',
        ap (Option.map (λ (p : List ParentNodeIndex). ok (add_unmerged i f p, i))) found',
        record {
          sound = add_unmerged-IsSound i f path within s;
          reached = subst (λ n. i < leaves_of n) (sym size) in_tree;
          found = unfold direct_path in (ap (path_to_root i) size ∙ found);
          leaves = λ j.
              leaf-add_unmerged i j f path
              ∙ leaf-replace_leaf e i j (some node)
              ∙ (rw (size ∙ size-replace_leaf e i (some node), g.leaves j) refl);
          parents = λ j.
              parent-add_unmerged i j f path (path-Distinct f.size h i path full in_tree found)
              ∙ ap (λ p. if contains path j then enter i p else p)
                  (parent-replace_leaf e i (some node) j ∙ g.parents j);
        },
      )
    where
      inside : i < leaf_count e → i < leaf_count (replace_leaf e i (some node))
      inside h = unfold replace_leaf in h

  -- Adding to a sound diff ends. It fails for want of room, or the new leaf stands at the free index
  -- in a sound diff whose size has grown as far as needed. The leaf is entered into the nodes of its
  -- direct path that are not blank, and all else is as before, except that a leaf of the part that
  -- has grown is the one that the original tree has there.
  pub add_leaf-leaf :
      (d : TreeSyncDiff LeafNode) (node : LeafNode)
      → IsSound d
      → (add_leaf d node ≡ some (err tree_full))
        ⊎ ((path : List ParentNodeIndex) × (d' : TreeSyncDiff LeafNode) × (add_leaf d node
              ≡ some (ok (d', free_leaf_index d)))
            × Added (free_leaf_index d) node path d d')
  unfolding add_leaf
  add_leaf-leaf d node s =
      let i = free_leaf_index d in
      let (h, full) = s.full in
      elim (grow_loop_lem 32 h i d full (omega arith) s) [
        | inl stopped ↦ inl (rw stopped refl)
        | inr (e, grown, g) ↦
            let (path, d', added, a) = add_to_grown i node d e g in
            inr (path, d', (rw grown added), a)
      ]
