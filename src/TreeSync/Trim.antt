-- ===== src/TreeSync/Trim.antt =====
-- `trim_tree`: the loop ends, and no leaf changes.
use mls4rn.Prelude.{
  ℕ, zero, suc, ◌-◌, ◌*◌, ◌/◌, ◌^◌, ◌≤◌, ◌<◌, ◌≡◌, refl, sym, ◌∙◌, ap, ◌⊎◌, inl, inr, Bool, true,
  false, Bool-cases, ◌==◌, ==→≡, ltb, ltb→lt, ltb→le, le→ltb, if◌then◌else◌, none, some, arith, ok,
}
use mls4rn.Prelude.Powers.{two_pow_suc, two_pow_pos}
use mls4rn.TreeMath.Index.{LeafNodeIndex}
use mls4rn.TreeMath.Inside.{IsFull}
use mls4rn.TreeMath.Size.{leaf_count as leaves_of, leaf_is_left, dec, min_tree_size}
use mls4rn.TreeMath.Sizes.{full_counts}
use mls4rn.BinaryTree.Map.{get, get-retain}
use mls4rn.BinaryTree.Tree.{unwrap_or}
use mls4rn.BinaryTree.Diff.{leaves, leaf, leaf_count, cut_down, shrink_tree}
use mls4rn.BinaryTree.Sound.{IsSound, shrink_tree-IsSound}
use mls4rn.BinaryTree.Edits.{IsSound-ok}
use mls4rn.BinaryTree.Merge.{leaves-leaf}
use mls4rn.TreeSync.Nodes.{blank_node}
use mls4rn.TreeSync.Diff.{
  TreeSyncDiff, last_full, rightmost_full_leaf, or_unchanged, trim_loop, trim_tree,
}
use mls4rn.TreeSync.LastFull.{lt→leb_false, last_full-full, leaf-after_last}

module _ {LeafNode : Type 0} where
  leaf-shrink_tree :
      (d d' : TreeSyncDiff LeafNode) (k : LeafNodeIndex)
      → IsSound d
      → shrink_tree d ≡ ok d'
      → leaves_of (dec d.size) ≤ leaf_count d
      → leaf d' k ≡ (if ltb k (leaves_of (dec d.size)) then leaf d k else none)
  unfolding shrink_tree leaf
  leaf-shrink_tree d d' k s e fewer =
      ground (arith, get-retain (λ i. ltb i (leaves_of (dec d.size))) k d.leaf_diff, s.default_leaf)

  shrink_tree-full :
      (d : TreeSyncDiff LeafNode) (h : ℕ)
      → IsFull (suc h) d.size
      → (d' : TreeSyncDiff LeafNode) × (shrink_tree d ≡ ok d')
        × (d'.size ≡ 2 ^ suc h - 1)
        × (leaves_of (dec d.size) * 2 ≡ leaf_count d)
  unfolding shrink_tree
  shrink_tree-full d h (small, e) =
      let (fewer, _, _, shorter) = full_counts h (omega arith) in
      let less : dec d.size ≡ 2 ^ suc h - 1 = ap dec e ∙ shorter in
      let tall = two_pow_suc (suc h) in
      let low = two_pow_suc h in
      (
        cut_down d,
        rw (lt→leb_false d.size min_tree_size (omega (arith, e, tall, low, two_pow_pos h))) refl,
        less,
        omega (arith, less, e, tall, low, two_pow_pos h),
      )

  -- What the trimmed diff `t` of `d` is, for the last full leaf `r`.
  pub record Trimmed (r : LeafNodeIndex) (d t : TreeSyncDiff LeafNode) : Type 0 where
    pub sound : IsSound t
    pub same : (k : LeafNodeIndex) → leaf t k ≡ leaf d k
    pub tight : leaf_count t / 2 ≤ r

  trim_loop_lem :
      (fuel h : ℕ) (r : LeafNodeIndex) (d : TreeSyncDiff LeafNode)
      → IsFull h d.size
      → h ≤ fuel
      → IsSound d
      → ((k : LeafNodeIndex) → r < k → leaf d k ≡ none)
      → Trimmed r d (trim_loop fuel r d)
  unfolding trim_loop leaf_is_left
  trim_loop_lem zero zero r d (small, e) le s after = record {
    sound = s;
    same = λ k. refl;
    tight = omega (arith, e);
  }
  trim_loop_lem zero (suc h) r d f le s after = absurd (omega arith)
  trim_loop_lem (suc fuel) zero r d (small, e) le s after =
      rw (le→ltb r (leaf_count d / 2) (omega (arith, e)))
        record { sound = s; same = λ k. refl; tight = omega (arith, e) }
  trim_loop_lem (suc fuel) (suc h) r d (small, e) le s after =
      elim (Bool-cases (ltb r (leaf_count d / 2))) [
        | inr right ↦
            rw right
              record { sound = s; same = λ k. refl; tight = ltb→le r (leaf_count d / 2) right }
        | inl left ↦ rw left (
            let (d', e', size, half) = shrink_tree-full d h (small, e) in
            let shrunk : or_unchanged d (shrink_tree d) ≡ d' = ap (or_unchanged d) e' in
            let sound : IsSound d' = IsSound-ok (shrink_tree d) d' (shrink_tree-IsSound d s) e' in
            let kept : ((k : LeafNodeIndex) → leaf d' k ≡ leaf d k) = λ k.
              leaf-shrink_tree d d' k s e' (omega (arith, half))
              ∙ same_leaf k (ltb k (leaves_of (dec d.size))) refl
                  (λ out. after k (omega (arith, out, half, ltb→lt r (leaf_count d / 2) left))) in
            let t =
              trim_loop_lem fuel h r d' (omega arith, size) (omega arith) sound
                (λ k lt. kept k ∙ after k lt) in
            rw shrunk record { sound = t.sound; same = λ k. t.same k ∙ kept k; tight = t.tight })
      ]
    where
      same_leaf :
          (k : LeafNodeIndex) (b : Bool)
          → ltb k (leaves_of (dec d.size)) ≡ b
          → (leaves_of (dec d.size) ≤ k → leaf d k ≡ none)
          → (if b then leaf d k else none) ≡ leaf d k
      same_leaf k true t out = refl
      same_leaf k false t out = sym (out (ltb→le k (leaves_of (dec d.size)) t))

  -- The last full leaf is full, or there is none and the index is 0.
  leaf-last :
      (d : TreeSyncDiff LeafNode)
      → IsSound d
      → (rightmost_full_leaf d ≡ 0)
        ⊎ ((node : LeafNode) × (leaf d (rightmost_full_leaf d) ≡ some node))
  unfolding rightmost_full_leaf
  leaf-last d s = found (last_full-full 0 0 (leaves d) (leaves-leaf d 0 s).0)
    where
      found :
          (last_full 0 (leaves d) ≡ 0)
            ⊎ ((node : LeafNode) × (0 ≤ last_full 0 (leaves d))
                × (get (last_full 0 (leaves d)) (leaves d) ≡ some (some node)))
          → (last_full 0 (leaves d) ≡ 0)
            ⊎ ((node : LeafNode) × (leaf d (last_full 0 (leaves d)) ≡ some node))
      found (inl e) = inl e
      found (inr (node, le, e)) =
          inr
            (node, sym (leaves-leaf d (last_full 0 (leaves d)) s).1 ∙ ap (λ o. unwrap_or o none) e)

  full_half :
      {d : TreeSyncDiff LeafNode} (t : TreeSyncDiff LeafNode)
      → Trimmed (rightmost_full_leaf d) d t
      → (rightmost_full_leaf d ≡ 0)
        ⊎ ((node : LeafNode) × (leaf d (rightmost_full_leaf d) ≡ some node))
      → (leaf_count t ≡ 1)
        ⊎ ((j : LeafNodeIndex) × (node : LeafNode) × (leaf_count t / 2 ≤ j)
            × (leaf t j ≡ some node))
  full_half t trimmed (inl e) = inl (omega (arith, e, trimmed.tight))
  full_half {d} t trimmed (inr (node, e)) =
      inr (rightmost_full_leaf d, node, trimmed.tight, trimmed.same (rightmost_full_leaf d) ∙ e)

  -- Trimming a sound diff changes no leaf, whether in the tree or outside of it, and leaves a sound
  -- diff that has one leaf only or has a full leaf in the right half of its leaves.
  pub trim_tree-leaf :
      (d : TreeSyncDiff LeafNode) (k : LeafNodeIndex)
      → IsSound d
      → IsSound (trim_tree d)
        × (leaf (trim_tree d) k ≡ leaf d k)
        × ((leaf_count (trim_tree d) ≡ 1)
            ⊎ ((j : LeafNodeIndex) × (node : LeafNode) × (leaf_count (trim_tree d) / 2 ≤ j)
                × (leaf (trim_tree d) j ≡ some node)))
  unfolding trim_tree
  trim_tree-leaf d k s = elim (Bool-cases (leaf_count d == min_tree_size)) [
    | inl one ↦ rw one (s, refl, inl (==→≡ (leaf_count d) 1 one))
    | inr more ↦ rw more (
        let (h, full) = s.full in
        let t =
          trim_loop_lem 32 h (rightmost_full_leaf d) d full (omega (arith, full.0)) s
            (λ k lt. leaf-after_last d k s lt) in
        (t.sound, t.same k, full_half (trim_loop 32 (rightmost_full_leaf d) d) t (leaf-last d s)))
  ]
