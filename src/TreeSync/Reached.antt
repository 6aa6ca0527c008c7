-- ===== src/TreeSync/Reached.antt =====
-- The filtered direct path and the resolutions beside it reach every other member.
use mls4rn.Prelude.Options.{◌>>=◌}
use mls4rn.Prelude.{
  ℕ, zero, suc, ◌/◌, ◌^◌, ◌≤◌, ◌<◌, ◌≡◌, ◌≢◌, refl, sym, ◌∙◌, ap, false, ◌==◌, ≢→==, some, List, [],
  length, get_elem?, All, arith,
}
use mls4rn.Prelude.Equality.{contains, nat_Eq}
use mls4rn.Prelude.Powers.{two_pow_suc, two_pow_pos}
use mls4rn.TreeMath.Index.{LeafNodeIndex, ParentNodeIndex}
use mls4rn.TreeMath.Shape.{node, at}
use mls4rn.TreeMath.Inside.{Inside, IsFull}
use mls4rn.TreeMath.Family.{beside}
use mls4rn.TreeMath.DirectPath.{
  ancestors, direct_path-ancestors, get_elem?-ancestors, length-ancestors,
}
use mls4rn.TreeMath.Copath.{
  Covers, sides, copath-sides, length-sides, get_elem?-copath, covering, joined, All-sides,
  Inside-neighbour,
}
use mls4rn.BinaryTree.Diff.{leaf_count, direct_path, copath}
use mls4rn.BinaryTree.Sound.{IsSound}
use mls4rn.TreeSync.Nodes.{blank_node}
use mls4rn.TreeSync.Diff.{TreeSyncDiff}
use mls4rn.TreeSync.Resolution.{
  Resolution, try_map, beside_full, resolution, without, filter_resolutions, copath_resolutions,
  filtered_direct_path, filtered_copath_resolutions,
}
use mls4rn.TreeSync.Shown.{AllShown, filter_resolutions-AllShown, resolutions-AllShown}
use mls4rn.TreeSync.Resolved.{Reaches, IsMember, resolution-ResolvedTo}
use mls4rn.TreeSync.Kept.{
  beside_full-kept, length-beside_full, Mapped, try_map-Mapped, without-Reaches, Reaches-full,
}

module _ {LeafNode : Type 0} where
  module _ (d : TreeSyncDiff LeafNode) where
    -- The nodes of a copath resolve.
    sides-Mapped :
        (h : ℕ) (i : LeafNodeIndex)
        → h ≤ 30
        → i < 2 ^ h
        → (rs : List (Resolution LeafNode)) × Mapped (resolution d [] 32) (sides h 0 i) rs
    sides-Mapped h i small lt = try_map-Mapped (resolution d [] 32) (sides h 0 i) (
        All-sides (λ x. (r : Resolution LeafNode) × (resolution d [] 32 x ≡ some r)) h
          (λ k j inside.
            let (r, is, _) =
              resolution-ResolvedTo d [] h small k 32 j (omega (arith, small, inside.1)) inside in
            (r, is))
          h 0 i (h, omega arith, lt) (omega arith))

    -- One resolution reaches the leaf `m`.
    one-Reaches :
        (h n : ℕ) (i m : LeafNodeIndex) (rs : List (Resolution LeafNode))
        → h ≤ 30
        → n < h
        → Inside h n (beside (i / 2 ^ n))
        → Mapped (resolution d [] 32) (sides h 0 i) rs
        → IsMember d m
        → Covers n (beside (i / 2 ^ n)) m
        → (r : Resolution LeafNode) × (get_elem? rs n ≡ some r) × Reaches m r
    one-Reaches h n i m rs small lt inside mapped is c =
        let (r, at_r, resolved) =
          mapped.each n (at n (beside (i / 2 ^ n))) (get_elem?-copath h n i lt) in
        let (r', resolved', reach) =
          resolution-ResolvedTo d [] h small n 32 (beside (i / 2 ^ n)) (omega (arith, small))
            inside in
        let same : r' ≡ r = cc in (r, at_r, rw (← same) (reach m is refl c))

    direct_path-full :
        (h : ℕ) (i : LeafNodeIndex)
        → IsFull h d.size
        → i < leaf_count d
        → direct_path d i ≡ some (ancestors h 0 i)
    unfolding direct_path
    direct_path-full h i (small, e) lt =
        rw e (direct_path-ancestors h small i (omega (arith, lt, e, two_pow_suc h, two_pow_pos h)))

    copath-full :
        (h : ℕ) (i : LeafNodeIndex)
        → IsFull h d.size
        → 0 < h
        → i < leaf_count d
        → copath d i ≡ some (sides h 0 i)
    unfolding copath
    copath-full h i (small, e) pos lt =
        rw e (copath-sides h i pos small (omega (arith, lt, e, two_pow_suc h, two_pow_pos h)))

    filtered_lem :
        (h : ℕ) (i : LeafNodeIndex) (excluded : List LeafNodeIndex)
        (rs : List (Resolution LeafNode))
        → (leaf_count d == 1) ≡ false
        → direct_path d i ≡ some (ancestors h 0 i)
        → copath d i ≡ some (sides h 0 i)
        → try_map (resolution d [] 32) (sides h 0 i) ≡ some rs
        → (filtered_direct_path d i ≡ some (beside_full (ancestors h 0 i) rs))
          × (filtered_copath_resolutions d i excluded ≡ some (filter_resolutions excluded rs))
    unfolding filtered_direct_path copath_resolutions filtered_copath_resolutions
    filtered_lem h i excluded rs many up across resolved =
        (rw (up, ◌>>=◌, many, across, resolved) refl, rw (many, across, ◌>>=◌, resolved) refl)

  -- In a sound diff, the filtered direct path of a leaf `i` and the filtered resolutions of its copath
  -- exist and have the same length. For every other member `m` that is not excluded, one of the nodes
  -- of the path is above `i` and `m`, and the resolution beside that node has an entry whose key the
  -- member holds: the leaf `m`, or a node above `m` that does not have it among its unmerged leaves.
  -- All nodes of the resolutions are in the tree and not blank, and no leaf of them is excluded.
  pub filtered_direct_path-Reaches :
      (d : TreeSyncDiff LeafNode) (i m : LeafNodeIndex) (excluded : List LeafNodeIndex)
      → IsSound d
      → i < leaf_count d
      → m < leaf_count d
      → i ≢ m
      → IsMember d m
      → contains excluded m ≡ false
      → (path : List ParentNodeIndex) × (rs : List (Resolution LeafNode)) × (n k : ℕ)
        × (r : Resolution LeafNode) × (filtered_direct_path d i ≡ some path)
        × (filtered_copath_resolutions d i excluded ≡ some rs)
        × (length path ≡ length rs)
        × (get_elem? path n ≡ some (node k (i / 2 ^ suc k)))
        × (m / 2 ^ suc k ≡ i / 2 ^ suc k)
        × (get_elem? rs n ≡ some r)
        × Reaches m r
        × All (AllShown d excluded) rs
  filtered_direct_path-Reaches d i m excluded s i_in m_in other is out =
      let (h, full) = s.full in
      let (small, e) = full in
      let i_lt : i < 2 ^ h = omega (arith, i_in, e, two_pow_suc h, two_pow_pos h) in
      let m_lt : m < 2 ^ h = omega (arith, m_in, e, two_pow_suc h, two_pow_pos h) in
      let pos = more_levels h i m other i_lt m_lt in
      let (n, lt, c) = covering h i m i_lt m_lt other in
      let (rs, mapped) = sides-Mapped d h i small i_lt in
      let (r, at_r, reach) =
        one-Reaches d h n i m rs small lt (Inside-neighbour h n i lt i_lt) mapped is c in
      let up = get_elem?-ancestors h 0 i n lt in
      let (n', kept_up, kept_r) =
        beside_full-kept excluded (ancestors h 0 i) rs n (node n (i / 2 ^ suc n)) r
          (up ∙ ap (λ (a : ℕ). some (node a (i / 2 ^ suc n))) (omega arith)) at_r
          (Reaches-full m r reach) in
      let (given, given_rs) =
        filtered_lem d h i excluded rs (more_leaves d i m other i_in m_in)
          (direct_path-full d h i full i_in) (copath-full d h i full pos i_in) mapped.given in
      (
        beside_full (ancestors h 0 i) rs,
        filter_resolutions excluded rs,
        n',
        n,
        without excluded r,
        given,
        given_rs,
        length-beside_full excluded (ancestors h 0 i) rs
            (mapped.as_long ∙ length-sides h 0 i ∙ sym (length-ancestors h 0 i)),
        kept_up,
        joined n i m c,
        kept_r,
        without-Reaches excluded m r out reach,
        filter_resolutions-AllShown d excluded rs
            (resolutions-AllShown d (sides h 0 i) rs mapped.given),
      )
    where
      more_levels : (h i m : ℕ) → i ≢ m → i < 2 ^ h → m < 2 ^ h → 0 < h
      more_levels zero i m other a b = absurd (other (omega (arith, a, b)))
      more_levels (suc h) i m other a b = omega arith

      more_leaves :
          (d : TreeSyncDiff LeafNode) (i m : ℕ)
          → i ≢ m
          → i < leaf_count d
          → m < leaf_count d
          → (leaf_count d == 1) ≡ false
      more_leaves d i m other a b = ≢→== (leaf_count d) 1 (λ e. other (omega (arith, a, b, e)))
