-- ===== src/TreeSync/LastFull.antt =====
-- The last full leaf of a diff.
use mls4rn.Prelude.{
  ℕ, suc, ◌≤◌, ◌<◌, ◌≡◌, refl, sym, ◌∙◌, ◌⊎◌, inl, inr, false, Bool-cases, ◌==◌, ≢→==, ==→≡, leb,
  if◌then◌else◌, Option, none, some, List, [], ◌∷◌, arith,
}
use mls4rn.SortedIter.Step.{Ascending, no_more, one_more}
use mls4rn.TreeMath.Index.{LeafNodeIndex}
use mls4rn.BinaryTree.Map.{key, get}
use mls4rn.BinaryTree.Tree.{unwrap_or}
use mls4rn.BinaryTree.Diff.{leaves, leaf, leaf_count}
use mls4rn.BinaryTree.Sound.{IsSound}
use mls4rn.BinaryTree.Merge.{leaves-leaf}
use mls4rn.TreeSync.Nodes.{TreeSyncLeafNode, blank_node}
use mls4rn.TreeSync.Diff.{TreeSyncDiff, last_full, rightmost_full_leaf}

pub lt→leb_false : (a b : ℕ) → b < a → leb a b ≡ false
lt→leb_false a b h = ground arith

module _ {LeafNode : Type 0} where
  last_full-ge :
      (low i : ℕ) (ls : List (ℕ × TreeSyncLeafNode LeafNode))
      → Ascending key low ls
      → i ≤ low
      → i ≤ last_full i ls
  unfolding last_full
  last_full-ge low i [] no_more le = omega arith
  last_full-ge low i ((k, none) ∷ rest) (one_more above asc) le =
      last_full-ge (suc k) i rest asc (omega (arith, above, le))
  last_full-ge low i ((k, some node) ∷ rest) (one_more above asc) le =
      omega (arith, above, le, last_full-ge (suc k) k rest asc (omega arith))

  -- No leaf after the last full one is full.
  last_full-last :
      (low i k : ℕ) (ls : List (ℕ × TreeSyncLeafNode LeafNode)) (node : LeafNode)
      → Ascending key low ls
      → get k ls ≡ some (some node)
      → k ≤ last_full i ls
  unfolding last_full get
  last_full-last low i k [] node no_more e = cc
  last_full-last low i k ((j, none) ∷ rest) node (one_more above asc) e =
      elim (Bool-cases (j == k)) [
        | inl same ↦ absurd (some-none (rw same at e))
        | inr other ↦ last_full-last (suc j) i k rest node asc (rw other at e)
      ]
    where
      some-none : some none ≡ some (some node) → ⊥
      some-none h = cc
  last_full-last low i k ((j, some n) ∷ rest) node (one_more above asc) e =
      elim (Bool-cases (j == k)) [
        | inl same ↦ omega (arith, ==→≡ j k same, last_full-ge (suc j) j rest asc (omega arith))
        | inr other ↦ last_full-last (suc j) j k rest node asc (rw other at e)
      ]

  -- The index found is the first one or that of a full leaf.
  pub last_full-full :
      (low i : ℕ) (ls : List (ℕ × TreeSyncLeafNode LeafNode))
      → Ascending key low ls
      → (last_full i ls ≡ i)
        ⊎ ((node : LeafNode) × (low ≤ last_full i ls)
            × (get (last_full i ls) ls ≡ some (some node)))
  unfolding last_full get
  last_full-full low i [] no_more = inl refl
  last_full-full low i ((j, none) ∷ rest) (one_more above asc) =
      later (last_full-full (suc j) i rest asc)
    where
      later :
          (last_full i rest ≡ i)
            ⊎ ((node : LeafNode) × (suc j ≤ last_full i rest)
                × (get (last_full i rest) rest ≡ some (some node)))
          → (last_full i rest ≡ i)
            ⊎ ((node : LeafNode) × (low ≤ last_full i rest)
                × ((if j == last_full i rest then some none else get (last_full i rest) rest)
                    ≡ some (some node)))
      later (inl e) = inl e
      later (inr (node, le, e)) = inr (
        node,
        omega (arith, above, le),
        rw (≢→== j (last_full i rest) (λ s. absurd (omega (arith, s, le)))) e,
      )
  last_full-full low i ((j, some n) ∷ rest) (one_more above asc) =
      later (last_full-full (suc j) j rest asc)
    where
      later :
          (last_full j rest ≡ j)
            ⊎ ((node : LeafNode) × (suc j ≤ last_full j rest)
                × (get (last_full j rest) rest ≡ some (some node)))
          → (last_full j rest ≡ i)
            ⊎ ((node : LeafNode) × (low ≤ last_full j rest)
                × ((if j == last_full j rest then some (some n) else get (last_full j rest) rest)
                    ≡ some (some node)))
      later (inl e) = inr (n, omega (arith, above, e), ground arith)
      later (inr (node, le, e)) = inr (
        node,
        omega (arith, above, le),
        rw (≢→== j (last_full j rest) (λ s. absurd (omega (arith, s, le)))) e,
      )

  -- A leaf outside of the tree is blank.
  pub leaf-outside :
      (d : TreeSyncDiff LeafNode) (k : LeafNodeIndex)
      → IsSound d
      → leaf_count d ≤ k
      → leaf d k ≡ none
  unfolding leaf
  leaf-outside d k s out = ground (arith, s.leaf_map.bounded k, s.default_leaf)

  pub leaf-after_last :
      (d : TreeSyncDiff LeafNode) (k : LeafNodeIndex)
      → IsSound d
      → rightmost_full_leaf d < k
      → leaf d k ≡ none
  unfolding rightmost_full_leaf
  leaf-after_last d k s lt =
      let (asc, at_k) = leaves-leaf d k s in sym at_k ∙ blank asc (get k (leaves d)) refl
    where
      blank :
          Ascending key 0 (leaves d)
          → (o : Option (TreeSyncLeafNode LeafNode)) → get k (leaves d) ≡ o
          → unwrap_or o none ≡ none
      blank asc none e = refl
      blank asc (some none) e = refl
      blank asc (some (some n)) e =
          absurd (omega (arith, lt, last_full-last 0 0 k (leaves d) n asc e))
