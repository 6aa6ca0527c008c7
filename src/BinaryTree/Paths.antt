-- ===== src/BinaryTree/Paths.antt =====
-- The direct path in a diff: it stays inside the tree, and writing it keeps the invariant.
use mathlib.Core.Option
use mls4rn.Prelude.{
  ◌≢◌, ◌≤◌, ≢→==, Option-cases, inl, inr, ℕ, zero, suc, ◌+◌, ◌-◌, ◌/◌, ◌^◌, ◌<◌, ◌≡◌, refl, sym, ap,
  subst, Bool, false, ◌==◌, if◌then◌else◌, some, List, [], ◌∷◌, ◌||◌, arith, All,
}
use mls4rn.Prelude.Powers.{two_pow_suc, two_pow_pos}
use mls4rn.TreeMath.Index.{LeafNodeIndex, ParentNodeIndex}
use mls4rn.TreeMath.Paths.{direct_path as path_to_root}
use mls4rn.TreeMath.Shape.{node}
use mls4rn.TreeMath.Inside.{IsFull, Inside-node}
use mls4rn.TreeMath.DirectPath.{ancestors, level_inj, direct_path-ancestors}
use mls4rn.BinaryTree.Map.{get, get-insert}
use mls4rn.BinaryTree.Tree.{Default, parent_by_index}
use mls4rn.BinaryTree.Diff.{
  AbDiff, replace_parent, replace_all, parent_mut, direct_path, set_direct_path_to_node, leaf_count,
  parent_count, parent, leaf,
}
use mls4rn.BinaryTree.Sound.{IsSound, replace_parent-IsSound}

ancestors-bound :
    (d k j h : ℕ) → k + d ≡ suc h → j < 2 ^ d → All (λ i. i < 2 ^ suc h - 1) (ancestors d k j)
unfolding ancestors
ancestors-bound zero k j h e lt = tt
ancestors-bound (suc d) k j h e lt = (
  Inside-node h k (j / 2) (d, omega arith, omega (arith, two_pow_suc d)),
  ancestors-bound d (suc k) (j / 2) h (omega arith) (omega (arith, two_pow_suc d)),
)

-- The path found in a full tree, and that its nodes are in the tree.
pub path_inside :
    (s h : ℕ) (i : LeafNodeIndex)
    → IsFull h s
    → i < s / 2 + 1
    → (path : List ParentNodeIndex) × (path_to_root i s ≡ some path) × All (λ k. k < s / 2) path
unfolding ancestors
path_inside s zero i (small, e) lt =
    ([], rw e (direct_path-ancestors 0 small i (omega (arith, lt, e))), tt)
path_inside s (suc h) i (small, e) lt =
    let tall = two_pow_suc (suc h) in
    let half : s / 2 ≡ 2 ^ suc h - 1 = omega (arith, e, tall) in
    (
      ancestors (suc h) 0 i,
      rw e (direct_path-ancestors (suc h) small i (omega (arith, lt, half, two_pow_pos (suc h)))),
      subst (λ n. All (λ k. k < n) (ancestors (suc h) 0 i)) (sym half)
          (ancestors-bound (suc h) 0 i h (omega arith)
            (omega (arith, lt, half, two_pow_pos (suc h)))),
    )

abbrev pub contains : List ℕ → ℕ → Bool
contains [] j = false
contains (i ∷ is) j = i == j || contains is j

-- No node twice.
abbrev pub Distinct : List ℕ → Type 0
Distinct [] = Unit
Distinct (i ∷ is) = (contains is i ≡ false) × Distinct is

contains-ancestors :
    (d k j k' j' : ℕ) → k' < k → k + d ≤ 32 → contains (ancestors d k j) (node k' j') ≡ false
unfolding ancestors
contains-ancestors zero k j k' j' lt le = refl
contains-ancestors (suc d) k j k' j' lt le =
    let apart : node k (j / 2) ≢ node k' j' = λ e.
      omega (arith, lt, level_inj k (j / 2) k' j' (omega (arith, le)) (omega (arith, lt, le)) e) in
    rw (≢→== (node k (j / 2)) (node k' j') apart)
      (contains-ancestors d (suc k) (j / 2) k' j' (omega (arith, lt)) (omega (arith, le)))

ancestors-Distinct : (d k j : ℕ) → k + d ≤ 32 → Distinct (ancestors d k j)
unfolding ancestors
ancestors-Distinct zero k j le = tt
ancestors-Distinct (suc d) k j le = (
  contains-ancestors d (suc k) (j / 2) k (j / 2) (omega arith) (omega (arith, le)),
  ancestors-Distinct d (suc k) (j / 2) (omega (arith, le)),
)

-- The nodes of a path are all different.
pub path-Distinct :
    (s h : ℕ) (i : LeafNodeIndex) (path : List ParentNodeIndex)
    → IsFull h s
    → i < s / 2 + 1
    → path_to_root i s ≡ some path
    → Distinct path
path-Distinct s h i path (small, e) lt found =
    let found' : path_to_root i s ≡ some (ancestors h 0 i) =
      rw e (direct_path-ancestors h small i (omega (arith, lt, e, two_pow_suc h, two_pow_pos h))) in
    let same : ancestors h 0 i ≡ path = cc in
    subst Distinct same (ancestors-Distinct h 0 i (omega (arith, small)))

module _ {L P : Type 0} where
  pub size-parent_mut :
      (d : AbDiff L P) (i : ParentNodeIndex) (edit : P → P) → (parent_mut d i edit).size ≡ d.size
  unfolding parent_mut replace_parent
  size-parent_mut d i edit = ground arith

  pub leaf-parent_mut :
      (d : AbDiff L P) (i : ParentNodeIndex) (edit : P → P) (j : LeafNodeIndex)
      → leaf (parent_mut d i edit) j ≡ leaf d j
  unfolding parent_mut replace_parent leaf
  leaf-parent_mut d i edit j = ground arith

  pub parent-parent_mut :
      (d : AbDiff L P) (i j : ParentNodeIndex) (edit : P → P)
      → parent (parent_mut d i edit) j ≡ (if i == j then edit (parent d i) else parent d j)
  unfolding parent_mut replace_parent parent
  parent-parent_mut d i j edit = elim (Option-cases (get i d.parent_diff)) [
    | inl absent ↦
        rw (absent, parent_mut)
          (ground (arith, get-insert i j (edit (parent_by_index d.original_tree i)) d.parent_diff))
    | inr (node, present) ↦
        rw (present, parent_mut) (ground (arith, get-insert i j (edit node) d.parent_diff))
  ]

  pub parent-replace_parent :
      (d : AbDiff L P) (i j : ParentNodeIndex) (node : P)
      → parent (replace_parent d i node) j ≡ (if i == j then node else parent d j)
  unfolding parent replace_parent
  parent-replace_parent d i j node = ground (arith, get-insert i j node d.parent_diff)

  pub parent-replace_all :
      (d : AbDiff L P) (path : List ParentNodeIndex) (j : ParentNodeIndex) (node : P)
      → parent (replace_all d path node) j ≡ (if contains path j then node else parent d j)
  unfolding replace_all
  parent-replace_all d [] j node = refl
  parent-replace_all d (i ∷ path) j node = ground (
    arith,
    parent-replace_all (replace_parent d i node) path j node,
    parent-replace_parent d i j node,
  )

  pub leaf-replace_all :
      (d : AbDiff L P) (path : List ParentNodeIndex) (node : P) (j : LeafNodeIndex)
      → leaf (replace_all d path node) j ≡ leaf d j
  unfolding replace_all leaf replace_parent
  leaf-replace_all d [] node j = refl
  leaf-replace_all d (i ∷ path) node j = leaf-replace_all (replace_parent d i node) path node j

module _ {L P : Type 0} ⦃l : Default L⦄ ⦃p : Default P⦄ where
  pub replace_all-IsSound :
      (d : AbDiff L P) (path : List ParentNodeIndex) (node : P)
      → All (λ k. k < parent_count d) path
      → IsSound d
      → IsSound (replace_all d path node)
  unfolding replace_all replace_parent
  replace_all-IsSound d [] node inside s = s
  replace_all-IsSound d (i ∷ path) node inside s =
      replace_all-IsSound (replace_parent d i node) path node inside.1
        (replace_parent-IsSound d i node inside.0 s)

  -- The path is found, and writing it keeps the invariant.
  pub set_direct_path_to_node-IsSound :
      (d : AbDiff L P) (i : LeafNodeIndex) (node : P)
      → i < leaf_count d
      → IsSound d
      → (path : List ParentNodeIndex) × (direct_path d i ≡ some path)
        × (set_direct_path_to_node d i node ≡ some (replace_all d path node))
        × IsSound (replace_all d path node)
  unfolding set_direct_path_to_node direct_path
  set_direct_path_to_node-IsSound d i node lt s =
      let (h, full) = s.full in
      let (path, found, inside) = path_inside d.size h i full lt in
      (
        path,
        found,
        ap (Option.map (λ path. replace_all d path node)) found,
        replace_all-IsSound d path node inside s,
      )
