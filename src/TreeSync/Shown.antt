-- ===== src/TreeSync/Shown.antt =====
-- What is in a resolution: nodes that are not blank.
use mls4rn.Prelude.Options.{◌>>=◌}
use mls4rn.Prelude.{
  All-append, ℕ, zero, suc, ◌≡◌, subst, inl, inr, false, Bool-cases, Option-cases, Option, none,
  some, List, [], ◌∷◌, ◌++◌, All,
}
use mls4rn.Prelude.Equality.{contains, nat_Eq}
use mls4rn.TreeMath.Index.{LeafNodeIndex, ParentNodeIndex, TreeNodeIndex}
use mls4rn.TreeMath.Navigation.{left, right}
use mls4rn.BinaryTree.Diff.{leaf, parent}
use mls4rn.TreeSync.Nodes.{ParentNode}
use mls4rn.TreeSync.Diff.{TreeSyncDiff}
use mls4rn.TreeSync.Resolution.{
  NodeReference, Resolution, try_map, is_empty, leaf_resolution, unmerged_resolution, resolution,
  without, filter_resolutions,
}

module _ {A : Type 0} (P : A → Type 0) where
  abbrev IfSome : Option A → Type 0
  IfSome (some a) = P a
  IfSome none = Unit

module _ {A B : Type 0} (f : A → Option B) (P : B → Type 0) where
  -- What holds for every result holds for the results of a loop.
  try_map-All : ((x : A) → IfSome P (f x)) → (xs : List A) → IfSome (All P) (try_map f xs)
  unfolding try_map
  try_map-All holds [] = tt
  try_map-All holds (x ∷ xs) = elim (Option-cases (f x)) [
    | inl stop ↦ rw (stop, ◌>>=◌) tt
    | inr (y, go) ↦
        let first : P y = subst (IfSome P) go (holds x) in
        elim (Option-cases (try_map f xs)) [
          | inl stop ↦ rw (go, ◌>>=◌, stop) tt
          | inr (ys, rest) ↦
              let others : All P ys = subst (IfSome (All P)) rest (try_map-All holds xs) in
              rw (go, ◌>>=◌, rest) (first, others)
        ]
  ]

module _ {LeafNode : Type 0} (d : TreeSyncDiff LeafNode) where
  -- The node stands in the tree under the index, and is no leaf that is excluded.
  abbrev pub IsShown : List LeafNodeIndex → TreeNodeIndex → NodeReference LeafNode → Type 0
  IsShown excluded (TreeNodeIndex.leaf i) (NodeReference.leaf content) =
      (leaf d i ≡ some content) × (contains excluded i ≡ false)
  IsShown excluded (TreeNodeIndex.parent i) (NodeReference.parent content) =
      parent d i ≡ some content
  IsShown excluded _ _ = ⊥

  abbrev pub AllShown : List LeafNodeIndex → Resolution LeafNode → Type 0
  AllShown excluded r = All (λ e. IsShown excluded e.0 e.1) r

  module _ (excluded : List LeafNodeIndex) where
    leaf_resolution-AllShown :
        (i : LeafNodeIndex) → AllShown excluded (leaf_resolution d excluded i)
    unfolding leaf_resolution
    leaf_resolution-AllShown i = elim (Bool-cases (contains excluded i)) [
      | inl dropped ↦ rw dropped tt
      | inr kept ↦ elim (Option-cases (leaf d i)) [
        | inl blank ↦ rw (kept, blank) tt
        | inr (content, full) ↦ rw (kept, full) ((full, kept), tt)
      ]
    ]

    unmerged_resolution-AllShown :
        (leaves : List LeafNodeIndex) → AllShown excluded (unmerged_resolution d excluded leaves)
    unfolding unmerged_resolution
    unmerged_resolution-AllShown [] = tt
    unmerged_resolution-AllShown (i ∷ leaves) =
        All-append (λ e. IsShown excluded e.0 e.1) (leaf_resolution d excluded i)
          (unmerged_resolution d excluded leaves) (leaf_resolution-AllShown i)
          (unmerged_resolution-AllShown leaves)

    both-AllShown :
        (a b : Option (Resolution LeafNode))
        → IfSome (AllShown excluded) a
        → IfSome (AllShown excluded) b
        → IfSome (AllShown excluded) (a >>= λ l. b >>= λ r. some (l ++ r))
    both-AllShown (some l) (some r) p q = All-append (λ e. IsShown excluded e.0 e.1) l r p q
    both-AllShown (some l) none p q = tt
    both-AllShown none b p q = tt

    full-AllShown :
        (i : ParentNodeIndex) (content : ParentNode)
        → parent d i ≡ some content
        → AllShown excluded (
            (TreeNodeIndex.parent i, NodeReference.parent content)
            ∷ unmerged_resolution d excluded content.unmerged_leaves)
    full-AllShown i content full = (full, unmerged_resolution-AllShown content.unmerged_leaves)

    pub resolution-AllShown :
        (fuel : ℕ) (x : TreeNodeIndex) → IfSome (AllShown excluded) (resolution d excluded fuel x)
    unfolding resolution
    resolution-AllShown zero x = tt
    resolution-AllShown (suc fuel) (TreeNodeIndex.leaf i) = leaf_resolution-AllShown i
    resolution-AllShown (suc fuel) (TreeNodeIndex.parent i) = elim (Option-cases (parent d i)) [
      | inl blank ↦
          rw (resolution, blank)
            (both-AllShown (resolution d excluded fuel (left i))
              (resolution d excluded fuel (right i)) (resolution-AllShown fuel (left i))
              (resolution-AllShown fuel (right i)))
      | inr (content, full) ↦ rw (resolution, full) (full-AllShown i content full)
    ]

  module _ (excluded : List LeafNodeIndex) where
    without-AllShown :
        (r : Resolution LeafNode) → AllShown [] r → AllShown excluded (without excluded r)
    unfolding without
    without-AllShown [] all = tt
    without-AllShown ((TreeNodeIndex.leaf i, NodeReference.leaf content) ∷ r) all =
        let rest = without-AllShown r all.1 in
        elim (Bool-cases (contains excluded i)) [
          | inl dropped ↦ rw dropped rest
          | inr kept ↦ rw kept ((all.0.0, kept), rest)
        ]
    without-AllShown ((TreeNodeIndex.parent i, NodeReference.parent content) ∷ r) all =
        (all.0, without-AllShown r all.1)
    without-AllShown ((TreeNodeIndex.leaf i, NodeReference.parent content) ∷ r) all = absurd all.0
    without-AllShown ((TreeNodeIndex.parent i, NodeReference.leaf content) ∷ r) all = absurd all.0

    pub filter_resolutions-AllShown :
        (rs : List (Resolution LeafNode))
        → All (AllShown []) rs
        → All (AllShown excluded) (filter_resolutions excluded rs)
    unfolding filter_resolutions
    filter_resolutions-AllShown [] all = tt
    filter_resolutions-AllShown (r ∷ rs) all =
        let rest = filter_resolutions-AllShown rs all.1 in
        elim (Bool-cases (is_empty r)) [
          | inl empty ↦ rw empty rest
          | inr full ↦ rw full (without-AllShown r all.0, rest)
        ]

  -- The resolutions that the loop over a path gives.
  pub resolutions-AllShown :
      (path : List TreeNodeIndex) (rs : List (Resolution LeafNode))
      → try_map (resolution d [] 32) path ≡ some rs
      → All (AllShown []) rs
  resolutions-AllShown path rs given =
      subst (IfSome (All (AllShown []))) given
        (try_map-All (resolution d [] 32) (AllShown []) (resolution-AllShown [] 32) path)
