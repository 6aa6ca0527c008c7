-- ===== src/TreeMath/DirectPath.antt =====
-- treemath.rs: the direct path and the copath of a leaf.
use mathlib.Core.Option
use mls4rn.Prelude.{
  ℕ, zero, suc, ◌+◌, ◌-◌, ◌/◌, ◌^◌, ◌≤◌, ◌<◌, ◌≡◌, ◌≢◌, refl, sym, ap, ap₂, ◌∙◌, ≡→==, ≢→==, arith,
  some, List, [], ◌∷◌, length, get_elem?,
}
use mls4rn.Prelude.Powers.{two_pow_suc, div-two_pow-half}
use mls4rn.TreeMath.Index.{ParentNodeIndex, LeafNodeIndex, leaf_to_tree_index, node_u32}
use mls4rn.TreeMath.Navigation.{root}
use mls4rn.TreeMath.Paths.{direct_path_loop, direct_path}
use mls4rn.TreeMath.Inside.{Inside, Inside-fits, Inside-parent}
use mls4rn.TreeMath.Sizes.{root-full}
use mls4rn.TreeMath.Shape.{
  node, tree_node-node, level-node, node_u32-at, parent_to_tree_index-node, parent-node,
}
use mls4rn.TreeMath.Navigation.{level}

-- The `d` ancestors above the node of level `k` and offset `j`.
unfoldable pub ancestors : ℕ → ℕ → ℕ → List ParentNodeIndex
ancestors zero k j = []
ancestors (suc d) k j = node k (j / 2) ∷ ancestors d (suc k) (j / 2)

pub length-ancestors : (d k j : ℕ) → length (ancestors d k j) ≡ d
unfolding ancestors
length-ancestors zero k j = refl
length-ancestors (suc d) k j = ap suc (length-ancestors d (suc k) (j / 2))

pub get_elem?-ancestors :
    (d k j n : ℕ) → n < d → get_elem? (ancestors d k j) n ≡ some (node (k + n) (j / 2 ^ suc n))
unfolding ancestors
get_elem?-ancestors zero k j n lt = absurd (omega arith)
get_elem?-ancestors (suc d) k j zero lt =
    ap₂ (λ (a b : ℕ). some (node a b)) (omega arith) (omega arith)
get_elem?-ancestors (suc d) k j (suc n) lt =
    get_elem?-ancestors d (suc k) (j / 2) n (omega arith)
    ∙ ap₂ (λ (a b : ℕ). some (node a b)) (omega arith) (sym (div-two_pow-half j (suc n)))

pub level_inj : (k j k' j' : ℕ) → k < 32 → k' < 32 → node k j ≡ node k' j' → k ≡ k'
level_inj k j k' j' b b' e = sym (level-node k j b) ∙ ap level e ∙ level-node k' j' b'

module _ (h : ℕ) (small : h ≤ 30) where
  -- From inside the tree the loop meets the root in as many rounds as there are levels above.
  direct_path_loop-node :
      (d fuel k j : ℕ)
      → d ≤ fuel
      → k + d ≡ h
      → j < 2 ^ d
      → direct_path_loop fuel (node k j) (node h 0) ≡ some (ancestors d k j)
  unfolding direct_path_loop ancestors
  direct_path_loop-node zero zero k j f e b =
      let k=h : k ≡ h = omega arith in
      let j=0 : j ≡ 0 = omega arith in rw (k=h, j=0, ≡→== (node h 0) (node h 0) refl) refl
  direct_path_loop-node zero (suc fuel) k j f e b =
      let k=h : k ≡ h = omega arith in
      let j=0 : j ≡ 0 = omega arith in rw (k=h, j=0, ≡→== (node h 0) (node h 0) refl) refl
  direct_path_loop-node (suc d) zero k j f e b = absurd (omega arith)
  direct_path_loop-node (suc d) (suc fuel) k j f e b =
      let i : Inside h k j = (suc d, e, b) in
      let up = Inside-parent h k j (omega arith) i in
      let fits = Inside-fits h k j small i in
      let up_fits = Inside-fits h (suc k) (j / 2) small up in
      let apart : node k j ≢ node h 0 =
        λ same. omega (arith, level_inj k j h 0 (omega arith) (omega arith) same) in
      rw
        (
          ≢→== (node k j) (node h 0) apart,
          tree_node-node k j (omega (arith, fits)),
          parent-node k j fits,
          parent_to_tree_index-node k (j / 2) up_fits,
        )
        (ap (Option.map (◌∷◌ (node k (j / 2)))) (
          direct_path_loop-node d fuel (suc k) (j / 2) (omega arith) (omega arith)
            (omega (arith, two_pow_suc d))))

  pub direct_path-ancestors :
      (i : LeafNodeIndex) → i < 2 ^ h → direct_path i (2 ^ suc h - 1) ≡ some (ancestors h 0 i)
  unfolding direct_path
  direct_path-ancestors i b =
      let fits = Inside-fits h 0 i small (h, omega arith, b) in
      let start : leaf_to_tree_index i ≡ node 0 i = node_u32-at 0 i (omega (arith, fits)) in
      let inside : Inside h h 0 = (0, omega arith, omega arith) in
      let top : node_u32 (root (2 ^ suc h - 1)) ≡ node h 0 =
        ap node_u32 (root-full h small)
        ∙ node_u32-at h 0 (omega (arith, Inside-fits h h 0 small inside)) in
      rw (start, top) (direct_path_loop-node h 32 0 i (omega arith) (omega arith) b)

-- In a full tree of height `h`, the direct path of a leaf is found within the rounds given, has one
-- node for each level above the leaf, and its `n`-th node is the one of level `n + 1` over the leaf.
pub direct_path_lem :
    (h n : ℕ) (i : LeafNodeIndex)
    → h ≤ 30
    → i < 2 ^ h
    → n < h
    → (path : List ParentNodeIndex) × (direct_path i (2 ^ suc h - 1) ≡ some path)
      × (length path ≡ h)
      × (get_elem? path n ≡ some (node n (i / 2 ^ suc n)))
direct_path_lem h n i small b lt = (
  ancestors h 0 i,
  direct_path-ancestors h small i b,
  length-ancestors h 0 i,
  get_elem?-ancestors h 0 i n lt ∙ ap (λ (a : ℕ). some (node a (i / 2 ^ suc n))) (omega arith),
)
