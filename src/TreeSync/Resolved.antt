-- ===== src/TreeSync/Resolved.antt =====
-- The resolution of a node ends, and every member under the node holds the key of one of its entries.

use mls4rn.Prelude.{
  ℕ, zero, suc, ◌+◌, ◌*◌, ◌/◌, ◌^◌, ◌≤◌, ◌<◌, ◌≡◌, refl, ◌⊎◌, inl, inr, true, false, ==→≡,
  Bool-cases, Option-cases, ◌==◌, Option, none, some, List, [], ◌∷◌, ◌++◌, arith,
}
use mls4rn.Prelude.Equality.{contains, nat_Eq}
use mls4rn.Prelude.Powers.{div-two_pow_suc}
use mls4rn.TreeMath.Index.{LeafNodeIndex, ParentNodeIndex, TreeNodeIndex}
use mls4rn.TreeMath.Shape.{node, at, left-node, right-node}
use mls4rn.TreeMath.Inside.{Inside, Inside-fits, Inside-left, Inside-right}
use mls4rn.TreeMath.Copath.{Covers}
use mls4rn.BinaryTree.Diff.{leaf, parent}
use mls4rn.TreeMath.Navigation.{left, right}
use mls4rn.TreeSync.Nodes.{ParentNode}
use mls4rn.TreeSync.Diff.{TreeSyncDiff}
use mls4rn.TreeSync.Resolution.{
  NodeReference, Resolution, leaf_resolution, unmerged_resolution, resolution,
}

false-true : false ≡ true → ⊥
false-true h = cc

module _ {LeafNode : Type 0} where
  -- The member at leaf `m` holds the key of the entry: it is the leaf `m`, or a node above the leaf that
  -- does not have it among its unmerged leaves.
  abbrev pub IsHeld : LeafNodeIndex → TreeNodeIndex × NodeReference LeafNode → Type 0
  IsHeld m e =
      (e.0 ≡ TreeNodeIndex.leaf m)
      ⊎ ((k j : ℕ) × (content : ParentNode) × (e
            ≡ (TreeNodeIndex.parent (node k j), NodeReference.parent content))
          × Covers (suc k) j m
          × (contains content.unmerged_leaves m ≡ false))

  -- The member at leaf `m` holds one of the keys.
  abbrev pub Reaches : LeafNodeIndex → Resolution LeafNode → Type 0
  Reaches m [] = ⊥
  Reaches m (e ∷ es) = IsHeld m e ⊎ Reaches m es

  Reaches-append_left :
      (m : LeafNodeIndex) (r s : Resolution LeafNode) → Reaches m r → Reaches m (r ++ s)
  Reaches-append_left m (e ∷ r) s (inl over) = inl over
  Reaches-append_left m (e ∷ r) s (inr later) = inr (Reaches-append_left m r s later)
  Reaches-append_left m [] s h = absurd h

  Reaches-append_right :
      (m : LeafNodeIndex) (r s : Resolution LeafNode) → Reaches m s → Reaches m (r ++ s)
  Reaches-append_right m [] s h = h
  Reaches-append_right m (e ∷ r) s h = inr (Reaches-append_right m r s h)

  -- The leaf `m` is full.
  abbrev pub IsMember : TreeSyncDiff LeafNode → LeafNodeIndex → Type 0
  IsMember d m = (content : LeafNode) × (leaf d m ≡ some content)

  module _ (d : TreeSyncDiff LeafNode) (excluded : List LeafNodeIndex) where
    -- What the resolution of the node of level `k` and offset `j` is to be.
    abbrev pub ResolvedTo : ℕ → ℕ → Option (Resolution LeafNode) → Type 0
    ResolvedTo k j o =
        (r : Resolution LeafNode) × (o ≡ some r)
        × ((m : LeafNodeIndex)
            → IsMember d m
            → contains excluded m ≡ false
            → Covers k j m
            → Reaches m r)

    leaf_resolution-Reaches :
        (j m : LeafNodeIndex)
        → IsMember d m
        → contains excluded m ≡ false
        → Covers 0 j m
        → Reaches m (leaf_resolution d excluded j)
    unfolding leaf_resolution
    leaf_resolution-Reaches j m (content, full) out c =
        let same : m ≡ j = omega (arith, c) in rw (← same, out, full) (inl (inl refl))

    -- An unmerged leaf stands in the resolution itself.
    unmerged_resolution-Reaches :
        (leaves : List LeafNodeIndex) (m : LeafNodeIndex)
        → IsMember d m
        → contains excluded m ≡ false
        → contains leaves m ≡ true
        → Reaches m (unmerged_resolution d excluded leaves)
    unfolding unmerged_resolution
    unmerged_resolution-Reaches [] m is out listed = absurd (false-true listed)
    unmerged_resolution-Reaches (i ∷ leaves) m is out listed = elim (Bool-cases (i == m)) [
      | inl same ↦
          Reaches-append_left m (leaf_resolution d excluded i)
            (unmerged_resolution d excluded leaves)
            (leaf_resolution-Reaches i m is out (omega (arith, ==→≡ i m same)))
      | inr other ↦
          Reaches-append_right m (leaf_resolution d excluded i)
            (unmerged_resolution d excluded leaves)
            (unmerged_resolution-Reaches leaves m is out (rw other at listed))
    ]

    -- A node that is not blank, with its unmerged leaves, reaches every full leaf below.
    full-Reaches :
        (k j m : ℕ) (content : ParentNode)
        → IsMember d m
        → contains excluded m ≡ false
        → Covers (suc k) j m
        → Reaches m (
            (TreeNodeIndex.parent (node k j), NodeReference.parent content)
            ∷ unmerged_resolution d excluded content.unmerged_leaves)
    full-Reaches k j m content is out c = elim (Bool-cases (contains content.unmerged_leaves m)) [
      | inl listed ↦ inr (unmerged_resolution-Reaches content.unmerged_leaves m is out listed)
      | inr merged ↦ inl (inr (k, j, content, refl, c, merged))
    ]

    under-halves : (k j m : ℕ) → Covers (suc k) j m → Covers k (j * 2) m ⊎ Covers k (j * 2 + 1) m
    under-halves k j m c = elim (Bool-cases ((m / 2 ^ k) == j * 2)) [
      | inl e ↦ inl (ground arith)
      | inr e ↦ inr (ground (arith, div-two_pow_suc m k))
    ]

    resolution_full :
        (fuel : ℕ) (p : ParentNodeIndex) (content : ParentNode)
        → parent d p ≡ some content
        → resolution d excluded (suc fuel) (TreeNodeIndex.parent p)
          ≡ some (
              (TreeNodeIndex.parent p, NodeReference.parent content)
              ∷ unmerged_resolution d excluded content.unmerged_leaves)
    unfolding resolution
    resolution_full fuel p content full = rw (resolution, full) refl

    resolution_blank :
        (fuel : ℕ) (p : ParentNodeIndex) (l r : Resolution LeafNode)
        → parent d p ≡ none
        → resolution d excluded fuel (left p) ≡ some l
        → resolution d excluded fuel (right p) ≡ some r
        → resolution d excluded (suc fuel) (TreeNodeIndex.parent p) ≡ some (l ++ r)
    unfolding resolution
    resolution_blank fuel p l r blank at_left at_right =
        rw (resolution, blank, at_left, at_right) refl

    pub resolution-ResolvedTo :
        (h : ℕ)
        → h ≤ 30
        → (k fuel j : ℕ) → k < fuel
        → Inside h k j
        → ResolvedTo k j (resolution d excluded fuel (at k j))
    resolution-ResolvedTo h small k zero j lt i = absurd (omega arith)
    resolution-ResolvedTo h small zero (suc fuel) j lt i =
        (leaf_resolution d excluded j, unfold resolution in refl, leaf_resolution-Reaches j)
    resolution-ResolvedTo h small (suc k) (suc fuel) j lt i =
        elim (Option-cases (parent d (node k j))) [
          | inr (content, full) ↦ (
            _,
            resolution_full fuel (node k j) content full,
            λ m is out c. full-Reaches k j m content is out c,
          )
          | inl blank ↦
              let fits = Inside-fits h (suc k) j small i in
              let (l, at_left, reach_left) =
                resolution-ResolvedTo h small k fuel (j * 2) (omega arith) (Inside-left h k j i) in
              let (r, at_right, reach_right) =
                resolution-ResolvedTo h small k fuel (j * 2 + 1) (omega arith)
                  (Inside-right h k j i) in
              (
                l ++ r,
                resolution_blank fuel (node k j) l r blank (rw (left-node k j fits) at_left)
                    (rw (right-node k j fits) at_right),
                λ m is out c. elim (under-halves k j m c) [
                  | inl a ↦ Reaches-append_left m l r (reach_left m is out a)
                  | inr b ↦ Reaches-append_right m l r (reach_right m is out b)
                ],
              )
        ]
