-- ===== src/BinaryTree/Sound.antt =====
-- The invariant of a diff, and the edits that keep it.

use mls4rn.Prelude.{
  ℕ, zero, suc, ◌+◌, ◌-◌, ◌/◌, ◌^◌, ◌≤◌, ◌<◌, ◌≡◌, refl, ◌∙◌, ap, inl, inr, Bool-cases,
  Option-cases, pow-le-of_le, ltb, leb, ltb→lt, ltb→le, leb→lt, u32, ◌<<◌, none, [], length, arith,
  IfOk,
}
use mls4rn.Prelude.Powers.{two_pow_suc}
use mls4rn.SortedIter.Step.{Ascending, no_more}
use mls4rn.TreeMath.Index.{LeafNodeIndex, ParentNodeIndex}
use mls4rn.TreeMath.Inside.{IsFull}
use mls4rn.TreeMath.Size.{
  leaf_count as leaves_of, parent_count as parents_of, inc, dec, max_tree_size, min_tree_size,
  tree_size as size_of_nodes,
}
use mls4rn.TreeMath.Sizes.{tree_size_smallest, full_counts}
use mls4rn.BinaryTree.Map.{
  BTreeMap, key, get, insert, retain, get-insert, get-retain, insert-Ascending, retain-Ascending,
}
use mls4rn.BinaryTree.Tree.{Default, default, ABinaryTree, tree_size}
use mls4rn.BinaryTree.Diff.{
  AbDiff, empty_diff, grow_tree, shrink_tree, replace_leaf, replace_parent, parent_mut, leaf_count,
  parent_count,
}

-- A map whose keys are in order and below `bound`.
pub record IsWithin {V : Type 0} (bound : ℕ) (m : BTreeMap V) : Type 0 where
  pub sorted : Ascending key 0 m
  pub bounded : (k : ℕ) → bound ≤ k → get k m ≡ none

module _ {V : Type 0} where
  empty-IsWithin : (bound : ℕ) → IsWithin {V = V} bound []
  unfolding get
  empty-IsWithin bound = record { sorted = no_more; bounded = λ k h. refl }

  IsWithin-le :
      (bound bound' : ℕ) (m : BTreeMap V) → bound ≤ bound' → IsWithin bound m → IsWithin bound' m
  IsWithin-le bound bound' m le w = record {
    sorted = w.sorted;
    bounded = λ k h. w.bounded k (omega (arith, le, h));
  }

  insert-IsWithin :
      (bound k : ℕ) (v : V) (m : BTreeMap V)
      → k < bound
      → IsWithin bound m
      → IsWithin bound (insert k v m)
  insert-IsWithin bound k v m lt w = record {
    sorted = insert-Ascending 0 k v m (omega arith) w.sorted;
    bounded = λ j h. ground (arith, get-insert k j v m, w.bounded j h);
  }

  retain-IsWithin :
      (bound bound' : ℕ) (m : BTreeMap V)
      → IsWithin bound m
      → IsWithin bound' (retain (λ i. ltb i bound') m)
  retain-IsWithin bound bound' m w = record {
    sorted = retain-Ascending 0 (λ i. ltb i bound') m w.sorted;
    bounded = λ j h. ground (arith, get-retain (λ i. ltb i bound') j m);
  }

pub half_max : max_tree_size / 2 ≡ 2 ^ 29
unfolding ◌<<◌
half_max = refl

pub height-lt : (half h s : ℕ) → s ≤ half → half ≡ 2 ^ 29 → IsFull h s → h < 30
height-lt half h s le at_half (small, e) = elim (Bool-cases (ltb h 30)) [
  | inl lt ↦ ltb→lt h 30 lt
  | inr ge ↦
      let top : 2 ^ 30 ≤ 2 ^ h = pow-le-of_le {k = 30} {m = h} (ltb→le h 30 ge) in
      absurd (omega (arith, top, two_pow_suc h, e, le, at_half))
]

dec-IsFull : (s : ℕ) → (h : ℕ) × IsFull h s → 1 < s → (h : ℕ) × IsFull h (dec s)
dec-IsFull s (zero, (small, e)) lt = absurd (omega arith)
dec-IsFull s (suc h, (small, e)) lt =
    let (_, _, _, shorter) = full_counts h (omega arith) in (h, (omega arith, ap dec e ∙ shorter))

module _ {L P : Type 0} ⦃l : Default L⦄ ⦃p : Default P⦄ where
  -- A tree of at least one node, within the size of the source, with the default of each type.
  pub record IsTree (t : ABinaryTree L P) : Type 0 where
    pub nodes : length t.leaf_nodes + length t.parent_nodes < 2 ^ 30
    pub has_leaf : 0 < length t.leaf_nodes
    pub default_leaf : t.default_leaf ≡ default
    pub default_parent : t.default_parent ≡ default

  pub record IsSound (d : AbDiff L P) : Type 0 where
    pub tree : IsTree d.original_tree
    pub leaf_map : IsWithin (leaf_count d) d.leaf_diff
    pub parent_map : IsWithin (parent_count d) d.parent_diff
    pub default_leaf : d.default_leaf ≡ default
    pub default_parent : d.default_parent ≡ default
    pub full : (h : ℕ) × IsFull h d.size

  pub empty_diff-IsSound : (t : ABinaryTree L P) → IsTree t → IsSound (empty_diff t)
  unfolding empty_diff tree_size
  empty_diff-IsSound t w =
      let n : u32 (length t.leaf_nodes + length t.parent_nodes)
          ≡ length t.leaf_nodes + length t.parent_nodes =
        omega (arith, w.nodes) in
      let smallest =
        tree_size_smallest (length t.leaf_nodes + length t.parent_nodes) 29
          (omega (arith, w.has_leaf)) (omega (arith, w.nodes)) (omega (arith, w.nodes)) in
      let full : (h : ℕ) × IsFull h
            (size_of_nodes (u32 (length t.leaf_nodes + length t.parent_nodes))) =
        rw n smallest.0 in
      record {
        tree = w;
        leaf_map = empty-IsWithin _;
        parent_map = empty-IsWithin _;
        default_leaf = refl;
        default_parent = refl;
        full = full;
      }

  pub replace_leaf-IsSound :
      (d : AbDiff L P) (i : LeafNodeIndex) (a : L)
      → i < leaf_count d
      → IsSound d
      → IsSound (replace_leaf d i a)
  unfolding replace_leaf
  replace_leaf-IsSound d i a lt s = record {
    tree = s.tree;
    leaf_map = insert-IsWithin (leaf_count d) i a d.leaf_diff lt s.leaf_map;
    parent_map = s.parent_map;
    default_leaf = s.default_leaf;
    default_parent = s.default_parent;
    full = s.full;
  }

  pub replace_parent-IsSound :
      (d : AbDiff L P) (i : ParentNodeIndex) (a : P)
      → i < parent_count d
      → IsSound d
      → IsSound (replace_parent d i a)
  unfolding replace_parent
  replace_parent-IsSound d i a lt s = record {
    tree = s.tree;
    leaf_map = s.leaf_map;
    parent_map = insert-IsWithin (parent_count d) i a d.parent_diff lt s.parent_map;
    default_leaf = s.default_leaf;
    default_parent = s.default_parent;
    full = s.full;
  }

  pub parent_mut-IsSound :
      (d : AbDiff L P) (i : ParentNodeIndex) (edit : P → P)
      → i < parent_count d
      → IsSound d
      → IsSound (parent_mut d i edit)
  unfolding parent_mut
  parent_mut-IsSound d i edit lt s = elim (Option-cases (get i d.parent_diff)) [
    | inl absent ↦ rw (absent, parent_mut) (replace_parent-IsSound d i _ lt s)
    | inr (node, present) ↦ rw (present, parent_mut) (replace_parent-IsSound d i _ lt s)
  ]

  pub grow_tree-IsSound : (d : AbDiff L P) → IsSound d → IfOk IsSound (grow_tree d)
  unfolding grow_tree
  grow_tree-IsSound d s = elim (Bool-cases (ltb (max_tree_size / 2) d.size)) [
    | inl large ↦ rw large tt
    | inr fits ↦ rw fits (
        let (h, (small, e)) = s.full in
        let low : h < 30 =
          height-lt (max_tree_size / 2) h d.size (ltb→le _ _ fits) half_max (small, e) in
        let (_, _, taller, _) = full_counts h low in
        let grown : inc d.size ≡ 2 ^ suc (suc h) - 1 = ap inc e ∙ taller in
        let more : d.size ≤ inc d.size = omega (arith, grown, e, two_pow_suc (suc h)) in
        record {
          tree = s.tree;
          leaf_map =
              IsWithin-le (leaf_count d) (leaves_of (inc d.size)) d.leaf_diff (omega (arith, more))
                s.leaf_map;
          parent_map =
              IsWithin-le (parent_count d) (parents_of (inc d.size)) d.parent_diff
                (omega (arith, more)) s.parent_map;
          default_leaf = s.default_leaf;
          default_parent = s.default_parent;
          full = (suc h, (low, grown));
        })
  ]

  pub shrink_tree-IsSound : (d : AbDiff L P) → IsSound d → IfOk IsSound (shrink_tree d)
  unfolding shrink_tree
  shrink_tree-IsSound d s = elim (Bool-cases (leb d.size min_tree_size)) [
    | inl small ↦ rw small tt
    | inr fits ↦ rw fits record {
      tree = s.tree;
      leaf_map = retain-IsWithin (leaf_count d) (leaves_of (dec d.size)) d.leaf_diff s.leaf_map;
      parent_map =
          retain-IsWithin (parent_count d) (parents_of (dec d.size)) d.parent_diff s.parent_map;
      default_leaf = s.default_leaf;
      default_parent = s.default_parent;
      full = dec-IsFull d.size s.full (leb→lt _ _ fits);
    }
  ]
