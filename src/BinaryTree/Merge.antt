-- ===== src/BinaryTree/Merge.antt =====
-- What is read from a diff, from its iterators and from the tree after the merge.
use mls4rn.Prelude.{
  ltb, ltb→lt, ltb→le, pow-le-of_le, inl, inr, Bool-cases, ℕ, ◌+◌, ◌^◌, ◌≤◌, ◌<◌, ◌≡◌, refl, sym,
  ◌∙◌, ap, ltb, ltb→le, if◌then◌else◌, Option, none, some, List, length, get_elem?, arith, Bool,
  true, false,
}
use mls4rn.SortedIter.{sorted_iter, collect}
use mls4rn.SortedIter.Step.{Ascending, find, or_else as first_of}
use mls4rn.SortedIter.Prefix.{collect-find_below}
use mls4rn.SortedIter.Merge.{collect-Ascending}
use mls4rn.TreeMath.Index.{LeafNodeIndex, ParentNodeIndex}
use mls4rn.TreeMath.Size.{leaf_count as leaves_of}
use mls4rn.BinaryTree.Map.{BTreeMap, key, get}
use mls4rn.BinaryTree.Tree.{
  Default, default, unwrap_or, resize_with, enumerate, tree_leaf, tree_parent, leaf_by_index,
  parent_by_index, leaves as leaves_of_tree,
}
use mls4rn.BinaryTree.Diff.{
  AbDiff, staged, merge_diff, overwrite, leaf, parent, leaves, raw_leaves, leaf_count, parent_count,
}
use mls4rn.BinaryTree.Lookup.{
  value_of, or_else, get_elem?-overwrite, get_elem?-resize_with, length-resize_with, get-find,
  enumerate-Ascending, get-enumerate,
}
use mls4rn.Prelude.Powers.{two_pow_suc, two_pow_pos}
use mls4rn.TreeMath.Inside.{IsFull}
use mls4rn.BinaryTree.Outside.{iterated-outside}
use mls4rn.BinaryTree.Sound.{IsWithin, IsSound}

full_bound : (s h : ℕ) → IsFull h s → leaves_of s ≤ 2 ^ 32
full_bound s h (small, e) =
    omega (arith, e, two_pow_suc h, two_pow_pos h, pow-le-of_le {k = h} {m = 30} small)

-- One of the two vectors of the merged tree.
module _ {A : Type 0} ⦃d : Default A⦄ where
  pub merged_lem :
      (n j : ℕ) (m : BTreeMap A) (xs : List A)
      → IsWithin n m
      → get_elem? (overwrite m (resize_with n xs)) j
        ≡ (if ltb j n then or_else (get j m) (or_else (get_elem? xs j) (some default)) else none)
  merged_lem n j m xs w =
      get_elem?-overwrite 0 m (resize_with n xs) j w.sorted
        (λ k h. w.bounded k (omega (arith, length-resize_with n xs, h)))
      ∙ (rw (get_elem?-resize_with n j xs) (split (ltb j n) refl))
    where
      split :
          (t : Bool)
          → ltb j n ≡ t
          → or_else (get j m) (if t then or_else (get_elem? xs j) (some default) else none)
            ≡ (if t then or_else (get j m) (or_else (get_elem? xs j) (some default)) else none)
      split true e = refl
      split false e = rw (w.bounded j (ltb→le j n e)) refl

  value_of-first_of :
      (x y : Option (ℕ × A)) → value_of (first_of key x y) ≡ or_else (value_of x) (value_of y)
  value_of-first_of none y = refl
  value_of-first_of (some e) y = refl

  -- The merge of a map and of an enumerated vector, up to the count.
  pub iterated_lem :
      (n k : ℕ) (m : BTreeMap A) (xs : List A)
      → IsWithin n m
      → length xs ≤ 2 ^ 32
      → k < n
      → get k (collect key n (sorted_iter m (enumerate 0 xs) n))
        ≡ or_else (get k m) (get_elem? xs k)
  iterated_lem n k m xs w fits lt =
      let 0+k : 0 + k ≡ k = omega arith in
      let at_k : get k (enumerate 0 xs) ≡ get_elem? xs k =
        ap (λ (i : ℕ). get i (enumerate 0 xs)) (sym 0+k) ∙ get-enumerate 0 k xs (omega arith) in
      get-find k (collect key n (sorted_iter m (enumerate 0 xs) n))
      ∙ ap value_of (
          collect-find_below key n k (sorted_iter m (enumerate 0 xs) n) w.sorted
            (enumerate-Ascending 0 xs (omega arith)) lt (omega arith))
      ∙ value_of-first_of (find key k m) (find key k (enumerate 0 xs))
      ∙ (rw (← get-find k m, ← get-find k (enumerate 0 xs), at_k) refl)

module _ {L P : Type 0} ⦃l : Default L⦄ ⦃p : Default P⦄ where
  -- After the merge of a sound diff, the tree has under every index the leaf that the diff shows, and
  -- the parent that it shows if the index is within the parent count, or else the default.
  pub merge_diff-answers :
      (d : AbDiff L P) (i : LeafNodeIndex) (j : ParentNodeIndex)
      → IsSound d
      → (tree_leaf (merge_diff d.original_tree (staged d)) i ≡ leaf d i)
        × (tree_parent (merge_diff d.original_tree (staged d)) j
            ≡ (if ltb j (parent_count d) then parent d j else default))
  unfolding merge_diff staged tree_leaf tree_parent leaf parent leaf_by_index parent_by_index
  merge_diff-answers d i j s = (
    ground (
      arith,
      merged_lem (leaf_count d) i d.leaf_diff d.original_tree.leaf_nodes s.leaf_map,
      s.leaf_map.bounded i,
      s.tree.default_leaf,
      s.default_leaf,
    ),
    ground (
      arith,
      merged_lem (parent_count d) j d.parent_diff d.original_tree.parent_nodes s.parent_map,
      s.tree.default_parent,
    ),
  )

  -- The leaves that the iterator of a sound diff lists come in the order of their indices, and under
  -- every index the list has the leaf that the diff shows, or nothing where the diff shows the
  -- default.
  pub leaves-leaf :
      (d : AbDiff L P) (k : LeafNodeIndex)
      → IsSound d
      → Ascending key 0 (leaves d) × (unwrap_or (get k (leaves d)) default ≡ leaf d k)
  unfolding leaves raw_leaves leaves_of_tree leaf leaf_by_index
  leaves-leaf d k s = (
    collect-Ascending key (leaf_count d) 0
        (sorted_iter d.leaf_diff (enumerate 0 d.original_tree.leaf_nodes) (leaf_count d))
        s.leaf_map.sorted
        (enumerate-Ascending 0 d.original_tree.leaf_nodes (omega (arith, s.tree.nodes))),
    elim (Bool-cases (ltb k (leaf_count d))) [
      | inl inside ↦ ground (
        arith,
        iterated_lem (leaf_count d) k d.leaf_diff d.original_tree.leaf_nodes s.leaf_map
            (omega (arith, s.tree.nodes)) (ltb→lt k (leaf_count d) inside),
        s.tree.default_leaf,
      )
      | inr out ↦
          let le = ltb→le k (leaf_count d) out in
          ground (
            arith,
            iterated-outside (leaf_count d) 0 (leaf_count d) k d.leaf_diff
                d.original_tree.leaf_nodes s.leaf_map.sorted s.leaf_map.bounded
                (omega (arith, s.tree.nodes)) (omega arith) le
                (full_bound d.size s.full.0 s.full.1),
            s.leaf_map.bounded k le,
            s.default_leaf,
          )
    ],
  )
